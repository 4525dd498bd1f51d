-- ===== src/Crypto/Gcm.antt =====
-- core/src/crypto.c with HAVE_OPENSSL: AES-256-GCM by OpenSSL's EVP calls. The library is not part of the
-- repository: its calls are the fields of an `Evp`. The table of keys and the nonce are those of the other
-- backend. Buffers and lengths are as there.
pub mod Laws
pub mod Steps
pub mod Exchange
mod Tests
use audio_project.Base.{
  ℕ, ◌+◌, ◌-◌, List, Option, none, some, Bool, true, false, ◌&&◌, ℤ, pos, minus_one, pos_part,
  positive?, ◌+ℤ◌, ltb_ℤ, length, if◌then◌else◌, read_at, write_at, ◌>>=◌,
}
use audio_project.Crypto.{iv_size, tag_size, overhead, build_nonce}
use audio_project.Crypto.Table.{Context, find_key}

-- The EVP_Encrypt calls, or the EVP_Decrypt calls.
pub data Mode : Type 0 where
  sealing opening : Mode

-- OpenSSL. A call gives whether it returned 1, what it wrote, and the context after it.
pub record Evp : Type 1 where
  pub CipherCtx : Type 0
  pub ctx_new : Option CipherCtx
  -- EVP_EncryptInit_ex and EVP_DecryptInit_ex with EVP_aes_256_gcm
  pub init_cipher : Mode → CipherCtx → Bool × CipherCtx
  -- EVP_CTRL_GCM_SET_IVLEN
  pub set_ivlen : CipherCtx → ℕ → Bool × CipherCtx
  -- the same functions with a key and an IV
  pub init_key : Mode → CipherCtx → List ℕ → List ℕ → Bool × CipherCtx
  -- EVP_EncryptUpdate and EVP_DecryptUpdate without an output, with `outl`
  pub update_aad : Mode → CipherCtx → List ℕ → Bool × ℕ × CipherCtx
  -- the same with an output, and with `inl`
  pub update : Mode → CipherCtx → List ℕ → ℤ → Bool × List ℕ × CipherCtx
  -- EVP_EncryptFinal_ex and EVP_DecryptFinal_ex
  pub final : Mode → CipherCtx → Bool × List ℕ × CipherCtx
  -- EVP_CTRL_GCM_GET_TAG
  pub get_tag : CipherCtx → ℕ → Bool × List ℕ
  -- EVP_CTRL_GCM_SET_TAG
  pub set_tag : CipherCtx → List ℕ → Bool × CipherCtx

module _ (evp : Evp) where
  open evp use {
    CipherCtx, ctx_new, init_cipher, set_ivlen, init_key, update_aad, update, final, get_tag,
    set_tag,
  }

  -- `ok = ok && EVP_CIPHER_CTX_ctrl(evp, EVP_CTRL_GCM_SET_IVLEN, …)`
  pub choose_ivlen : Bool × CipherCtx → Bool × CipherCtx
  choose_ivlen (true, c) = set_ivlen c iv_size
  choose_ivlen (false, c) = (false, c)

  -- The key, and the IV that is the start of an array.
  pub with_key : Mode → Bool × CipherCtx → List ℕ → List ℕ → Option (Bool × CipherCtx)
  with_key mode (true, c) key from = do iv ← read_at from 0 iv_size; some (init_key mode c key iv)
  with_key mode (false, c) key from = some (false, c)

  -- The associated data, with `out_len` after the call.
  pub with_aad : Mode → Bool × CipherCtx → Option (List ℕ) → ℤ → Option (Bool × ℕ × CipherCtx)
  with_aad mode (true, c) (some aad) aad_len = elim (positive? aad_len) [
    | none ↦ some (true, 0, c)
    | some n ↦ do bytes ← read_at aad 0 n; some (update_aad mode c bytes)
  ]
  with_aad mode (ok, c) aad aad_len = some (ok, 0, c)

  -- The text at `off` of `input`, whose other form is written at `at` of `output`.
  pub with_text :
      Mode
      → Bool × ℕ × CipherCtx
      → List ℕ
      → ℕ
      → ℤ
      → List ℕ
      → ℕ
      → Option (Bool × ℕ × List ℕ × CipherCtx)
  with_text mode (true, out_len, c) input off len output at = do
    bytes ← read_at input off (pos_part len)
    let (ok, written, c') = update mode c bytes len
    output' ← write_at output at written
    some (ok, length written, output', c')
  with_text mode (false, out_len, c) input off len output at = some (false, out_len, output, c)

  -- EVP_EncryptFinal_ex, the tag behind the ciphertext, and the returned `int`.
  pub finish : Bool × ℕ × List ℕ × CipherCtx → Option (ℤ × Option (List ℕ))
  finish (false, out_len, output, c) = some (minus_one, some output)
  finish (true, out_len, output, c) = do
    let (ok, last, c') = final sealing c
    a ← write_at output (iv_size + out_len) last
    let (got, tag) = get_tag c' tag_size
    let whole = do
      b ← write_at a (iv_size + out_len + length last) tag
      some (if got then pos (iv_size + out_len + length last + tag_size) else minus_one, some b)
    if ok then whole else some (minus_one, some a)

  -- The body of `ae_crypto_encrypt` once the key is found.
  pub evp_seal :
      List ℕ → List ℕ → Option (List ℕ) → ℤ → List ℕ → ℤ → List ℕ → Option (ℤ × Option (List ℕ))
  evp_seal key nonce aad aad_len plaintext len output = do
    a ← write_at output 0 nonce
    elim ctx_new [
      | none ↦ some (minus_one, some a)
      | some c ↦ do
        keyed ← with_key sealing (choose_ivlen (init_cipher sealing c)) key nonce
        authenticated ← with_aad sealing keyed aad aad_len
        encrypted ← with_text sealing authenticated plaintext 0 len a iv_size
        finish encrypted
    ]

  pub evp_encrypt :
      Option Context
      → ℕ
      → ℕ
      → ℕ
      → Option (List ℕ)
      → ℤ
      → Option (List ℕ)
      → ℤ
      → Option (List ℕ)
      → ℤ
      → Option (ℤ × Option (List ℕ))
  evp_encrypt (some ctx) channel client sequence aad aad_len (some plaintext) len (some output)
        size =
      if ltb_ℤ size (overhead +ℤ len)
      then some (minus_one, some output)
      else elim (find_key ctx channel) [
        | none ↦ some (minus_one, some output)
        | some key ↦
            evp_seal key (build_nonce channel client sequence) aad aad_len plaintext len output
      ]
  evp_encrypt ctx channel client sequence aad aad_len plaintext len output size =
      some (minus_one, output)

  -- The tag that is expected, at `at` of the input.
  pub expect_tag :
      Bool × ℕ × List ℕ × CipherCtx → List ℕ → ℕ → Option (Bool × ℕ × List ℕ × CipherCtx)
  expect_tag (true, out_len, output, c) input at = do
    tag ← read_at input at tag_size
    let (ok, c') = set_tag c tag
    some (ok, out_len, output, c')
  expect_tag (false, out_len, output, c) input at = some (false, out_len, output, c)

  -- EVP_DecryptFinal_ex, which is called whatever failed before, and the returned `int`.
  pub verify : Bool × ℕ × List ℕ × CipherCtx → Option (ℤ × Option (List ℕ))
  verify (ok, out_len, output, c) = do
    let (verify_ok, last, c') = final opening c
    a ← write_at output out_len last
    some (if ok && verify_ok then pos (out_len + length last) else minus_one, some a)

  -- The body of `ae_crypto_decrypt` once the key is found, for `n` bytes of ciphertext.
  pub evp_unseal : List ℕ → Option (List ℕ) → ℤ → List ℕ → ℕ → List ℕ → Option (ℤ × Option (List ℕ))
  evp_unseal key aad aad_len input n output = elim ctx_new [
    | none ↦ some (minus_one, some output)
    | some c ↦ do
      keyed ← with_key opening (choose_ivlen (init_cipher opening c)) key input
      authenticated ← with_aad opening keyed aad aad_len
      decrypted ← with_text opening authenticated input iv_size (pos n) output 0
      expecting ← expect_tag decrypted input (iv_size + n)
      verify expecting
  ]

  pub evp_decrypt :
      Option Context
      → ℕ
      → Option (List ℕ)
      → ℤ
      → Option (List ℕ)
      → ℤ
      → Option (List ℕ)
      → ℤ
      → Option (ℤ × Option (List ℕ))
  evp_decrypt (some ctx) channel aad aad_len (some input) input_len (some output) size =
      if ltb_ℤ input_len (pos overhead)
      then some (minus_one, some output)
      else let n = pos_part input_len - overhead in
        if ltb_ℤ size (pos n) then some (minus_one, some output) else elim (find_key ctx channel) [
          | none ↦ some (minus_one, some output)
          | some key ↦ evp_unseal key aad aad_len input n output
        ]
  evp_decrypt ctx channel aad aad_len input input_len output size = some (minus_one, output)
