-- ===== src/Crypto.antt =====
-- core/src/crypto.h and core/src/crypto.c without HAVE_OPENSSL: the table of channel keys, and the
-- packets of the XOR backend. Bytes are numbers below 256 and buffers are lists of them; the input and
-- the output of one call are different buffers. A pointer that may be NULL is an `Option`, an `int` is
-- a `ℤ`, and an outer `none` is an access outside a buffer, which C leaves undefined. Lengths
-- are small enough for the sums of an `int`.
pub mod Table
pub mod Nonce
pub mod Tag
pub mod Stream
pub mod Packet
pub mod Exchange
pub mod Guards
pub mod Tamper
pub mod Bounds
pub mod Gcm
mod Tests
use audio_project.Base.{
  ℕ, zero, suc, ◌+◌, ◌-◌, ◌*◌, ◌/◌, ◌%◌, ◌^◌, bit_and, bit_or, bit_xor, List, [], ◌∷◌, ◌++◌, Option,
  none, some, Bool, true, false, ◌&&◌, ℤ, pos, negsuc, minus_one, pos_part, ◌+ℤ◌, ltb_ℤ, leb, ◌==◌,
  if◌then◌else◌, get_or, set, replicate, read_at, write_at, ◌>>=◌,
}
use audio_project.Rtp.Bytes.{u32_be}
use Table.{Context, key_size, find_key}

-- AE_CRYPTO_IV_SIZE
abbrev pub iv_size : ℕ
iv_size = 12

-- AE_CRYPTO_TAG_SIZE
abbrev pub tag_size : ℕ
tag_size = 16

-- AE_CRYPTO_OVERHEAD
abbrev pub overhead : ℕ
overhead = iv_size + tag_size

pub build_nonce : ℕ → ℕ → ℕ → List ℕ
build_nonce channel client sequence =
    u32_be channel ++ u32_be (bit_and client (2 ^ 32 - 1)) ++ u32_be sequence

-- The first loop of `xor_stream` at round `i`, with `left` rounds to go.
pub stream_from : ℕ → ℕ → List ℕ → List ℕ → List ℕ
stream_from zero i key nonce = []
stream_from (suc left) i key nonce =
    bit_xor (get_or key i 0) (get_or nonce (i % iv_size) 0) ∷ stream_from left (i + 1) key nonce

-- The second loop of `xor_stream` from byte `i` on.
pub xor_from : List ℕ → ℕ → List ℕ → List ℕ
xor_from stream i [] = []
xor_from stream i (byte ∷ bytes) =
    bit_xor byte (get_or stream (i % key_size) 0) ∷ xor_from stream (i + 1) bytes

pub xor_stream : List ℕ → List ℕ → List ℕ → List ℕ
xor_stream key nonce bytes = xor_from (stream_from key_size 0 key nonce) 0 bytes

-- A loop of `compute_tag` from byte `i` on: `tag[i % 16] ^= bytes[i]`.
pub mix_from : ℕ → List ℕ → List ℕ → List ℕ
mix_from i [] tag = tag
mix_from i (byte ∷ bytes) tag =
    let slot = i % tag_size in
    mix_from (i + 1) bytes (set tag slot (bit_xor (get_or tag slot 0) byte))

-- The final pass with `i` rounds to go: `tag[i - 1] ^= tag[i]`.
pub fold_down : ℕ → List ℕ → List ℕ
fold_down zero tag = tag
fold_down (suc i) tag = fold_down i (set tag i (bit_xor (get_or tag i 0) (get_or tag (suc i) 0)))

-- A NULL `aad` mixes nothing, as no bytes do.
pub compute_tag : List ℕ → List ℕ → List ℕ → List ℕ
compute_tag key bytes aad =
    fold_down (tag_size - 1)
      (mix_from 0 aad (mix_from 0 bytes (mix_from 0 key (replicate tag_size 0))))

-- The bytes of `aad` that the loop of `compute_tag` reads.
pub aad_bytes : Option (List ℕ) → ℤ → Option (List ℕ)
aad_bytes none len = some []
aad_bytes (some aad) len = read_at aad 0 (pos_part len)

-- `memcpy(output + off, bytes, …)` for a number that may be negative.
pub write_at_ℤ : List ℕ → ℤ → List ℕ → Option (List ℕ)
write_at_ℤ dst (pos off) bytes = write_at dst off bytes
write_at_ℤ dst (negsuc n) bytes = none

-- The body of `ae_crypto_encrypt` once the key is found.
pub seal :
    List ℕ → List ℕ → Option (List ℕ) → ℤ → List ℕ → ℤ → List ℕ → Option (ℤ × Option (List ℕ))
seal key nonce aad aad_len plaintext len output = do
  a ← write_at output 0 nonce
  bytes ← read_at plaintext 0 (pos_part len)
  b ← write_at a iv_size (xor_stream key nonce bytes)
  extra ← aad_bytes aad aad_len
  c ← write_at_ℤ b (iv_size +ℤ len) (compute_tag key bytes extra)
  some (overhead +ℤ len, some c)

-- The returned `int` and the output buffer after the call.
pub encrypt :
    Option Context
    → ℕ
    → ℕ
    → ℕ
    → Option (List ℕ)
    → ℤ
    → Option (List ℕ)
    → ℤ
    → Option (List ℕ)
    → ℤ
    → Option (ℤ × Option (List ℕ))
encrypt (some ctx) channel client sequence aad aad_len (some plaintext) len (some output) size =
    if ltb_ℤ size (overhead +ℤ len)
    then some (minus_one, some output)
    else elim (find_key ctx channel) [
      | none ↦ some (minus_one, some output)
      | some key ↦ seal key (build_nonce channel client sequence) aad aad_len plaintext len output
    ]
encrypt ctx channel client sequence aad aad_len plaintext len output size = some (minus_one, output)

-- `diff |= tag[i] ^ expected_tag[i]` over the bytes of both.
pub differences : ℕ → List ℕ → List ℕ → ℕ
differences diff (t ∷ tag) (e ∷ expected) = differences (bit_or diff (bit_xor t e)) tag expected
differences diff tag expected = diff

-- The body of `ae_crypto_decrypt` once the key is found, for `n` bytes of ciphertext.
pub unseal : List ℕ → Option (List ℕ) → ℤ → List ℕ → ℕ → List ℕ → Option (ℤ × Option (List ℕ))
unseal key aad aad_len input n output = do
  iv ← read_at input 0 iv_size
  ciphertext ← read_at input iv_size n
  a ← write_at output 0 (xor_stream key iv ciphertext)
  bytes ← read_at a 0 n
  extra ← aad_bytes aad aad_len
  tag ← read_at input (iv_size + n) tag_size
  if differences 0 tag (compute_tag key bytes extra) == 0
      then some (pos n, some a)
      else do b ← write_at a 0 (replicate n 0); some (minus_one, some b)

pub decrypt :
    Option Context
    → ℕ
    → Option (List ℕ)
    → ℤ
    → Option (List ℕ)
    → ℤ
    → Option (List ℕ)
    → ℤ
    → Option (ℤ × Option (List ℕ))
decrypt (some ctx) channel aad aad_len (some input) input_len (some output) size =
    if ltb_ℤ input_len (pos overhead)
    then some (minus_one, some output)
    else let n = pos_part input_len - overhead in
      if ltb_ℤ size (pos n) then some (minus_one, some output) else elim (find_key ctx channel) [
        | none ↦ some (minus_one, some output)
        | some key ↦ unseal key aad aad_len input n output
      ]
decrypt ctx channel aad aad_len input input_len output size = some (minus_one, output)
