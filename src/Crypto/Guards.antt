-- ===== src/Crypto/Guards.antt =====
-- The error paths of `ae_crypto_encrypt` and `ae_crypto_decrypt` in core/src/crypto.c.
use audio_project.Base.{
  ℕ, ◌+◌, ◌-◌, ◌≤◌, List, ◌≡◌, refl, arith, length, Option, none, some, ℤ, pos, negsuc, minus_one,
  false, Bool-cases, inl, inr, ltb_ℤ, ◌+ℤ◌, write_at, write_at-overlay, read_at, pos_part,
}
use audio_project.Crypto.{aad_bytes, encrypt, decrypt, seal, write_at_ℤ, xor_stream, xor_from}
use audio_project.Crypto.Table.{Context, find_key}
use audio_project.Crypto.Nonce.{length-build_nonce}

encrypt-no_key :
    (ctx : Context) (channel client sequence : ℕ) (aad : Option (List ℕ)) (aad_len : ℤ)
    (plaintext : Option (List ℕ)) (len : ℤ) (output : Option (List ℕ)) (size : ℤ)
    → find_key ctx channel ≡ none
    → encrypt (some ctx) channel client sequence aad aad_len plaintext len output size
      ≡ some (minus_one, output)
unfolding encrypt
encrypt-no_key ctx channel client sequence aad aad_len none len output size e = refl
encrypt-no_key ctx channel client sequence aad aad_len (some p) len none size e = refl
encrypt-no_key ctx channel client sequence aad aad_len (some p) len (some out) size e =
    elim (Bool-cases (ltb_ℤ size (28 +ℤ len))) [ inl q ↦ rw q refl | inr q ↦ rw (q, e) refl ]

decrypt-no_key :
    (ctx : Context) (channel : ℕ) (aad : Option (List ℕ)) (aad_len : ℤ) (input : Option (List ℕ))
    (len : ℤ) (output : Option (List ℕ)) (size : ℤ)
    → find_key ctx channel ≡ none
    → decrypt (some ctx) channel aad aad_len input len output size ≡ some (minus_one, output)
unfolding decrypt
decrypt-no_key ctx channel aad aad_len none len output size e = refl
decrypt-no_key ctx channel aad aad_len (some p) len none size e = refl
decrypt-no_key ctx channel aad aad_len (some p) len (some out) size e =
    elim (Bool-cases (ltb_ℤ len (pos 28))) [
      | inl q ↦ rw q refl
      | inr q ↦ elim (Bool-cases (ltb_ℤ size (pos (pos_part len - 28)))) [
        | inl r ↦ rw (q, r) refl
        | inr r ↦ rw (q, r, e) refl
      ]
    ]

-- Without a key for the channel neither call does anything: both return -1 and leave the output buffer
-- as it was, whatever the other arguments.
pub no_key_refused :
    (ctx : Context) (channel client sequence : ℕ) (aad : Option (List ℕ)) (aad_len : ℤ)
    (input : Option (List ℕ)) (len : ℤ) (output : Option (List ℕ)) (size : ℤ)
    → find_key ctx channel ≡ none
    → (encrypt (some ctx) channel client sequence aad aad_len input len output size
        ≡ some (minus_one, output))
      × (decrypt (some ctx) channel aad aad_len input len output size ≡ some (minus_one, output))
no_key_refused ctx channel client sequence aad aad_len input len output size e = (
  encrypt-no_key ctx channel client sequence aad aad_len input len output size e,
  decrypt-no_key ctx channel aad aad_len input len output size e,
)

size_passes : (k m : ℕ) → 28 ≤ m → ltb_ℤ (pos m) (28 +ℤ negsuc (12 + k)) ≡ false
size_passes k m h = ground arith

tag_offset : (k : ℕ) → 12 +ℤ negsuc (12 + k) ≡ negsuc k
tag_offset k = ground arith

seal_negative :
    (k : ℕ) (key nonce extra plaintext output : List ℕ) (aad : Option (List ℕ)) (aad_len : ℤ)
    → length nonce ≡ 12
    → aad_bytes aad aad_len ≡ some extra
    → 28 ≤ length output
    → seal key nonce aad aad_len plaintext (negsuc (12 + k)) output ≡ none
unfolding seal read_at write_at_ℤ xor_stream xor_from write_at
seal_negative k key nonce extra plaintext output aad aad_len hn ha h =
    rw (write_at-overlay output 0 nonce (omega arith), ha, tag_offset k) refl

-- A negative plaintext length below -12 passes the size check, and the tag is then written in front of
-- the output buffer.
pub encrypt_negative_overruns :
    (ctx : Context) (channel client sequence k : ℕ) (key extra plaintext output : List ℕ)
    (aad : Option (List ℕ)) (aad_len : ℤ)
    → find_key ctx channel ≡ some key
    → aad_bytes aad aad_len ≡ some extra
    → 28 ≤ length output
    → encrypt
        (some ctx)
        channel
        client
        sequence
        aad
        aad_len
        (some plaintext)
        (negsuc (12 + k))
        (some output)
        (pos (length output))
      ≡ none
unfolding encrypt
encrypt_negative_overruns ctx channel client sequence k key extra plaintext output aad aad_len e ha
      h =
    rw (size_passes k (length output) h, e)
      (seal_negative k key _ extra plaintext output aad aad_len
        (length-build_nonce channel client sequence) ha h)
