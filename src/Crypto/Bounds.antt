-- ===== src/Crypto/Bounds.antt =====
-- `ae_crypto_encrypt` of core/src/crypto.c stays within its buffers for lengths from 0 on.
use audio_project.Base.{
  ℕ, ◌+◌, ◌<◌, ◌≤◌, List, Option, none, some, ℤ, pos, minus_one, ltb, length, ◌⊎◌, inl, inr, ◌≡◌,
  refl, ◌∙◌, arith, read_at-slice, slice, length-slice, write_at-overlay, overlay, length-overlay,
  Option-cases, Bool-cases,
}
use audio_project.Crypto.{
  encrypt, seal, write_at_ℤ, xor_stream, compute_tag, build_nonce, aad_bytes,
}
use audio_project.Crypto.Table.{Context, find_key}
use audio_project.Crypto.Nonce.{length-build_nonce}
use audio_project.Crypto.Stream.{length-xor_stream}
use audio_project.Crypto.Tag.{length-compute_tag}

seal_total :
    (key nonce : List ℕ) (aad : Option (List ℕ)) (aad_len : ℤ) (extra plaintext : List ℕ) (n : ℕ)
    (output : List ℕ)
    → length nonce ≡ 12
    → aad_bytes aad aad_len ≡ some extra
    → n ≤ length plaintext
    → 28 + n ≤ length output
    → (c : List ℕ) × (seal key nonce aad aad_len plaintext (pos n) output
        ≡ some (pos (28 + n), some c))
      × (length c ≡ length output)
unfolding seal write_at_ℤ
seal_total key nonce aad aad_len extra plaintext n output iv read enough room =
    let bytes = slice plaintext 0 n in
    let long = length-slice plaintext 0 n (omega (arith, enough)) in
    let a = overlay output 0 nonce in
    let a_long = length-overlay output 0 nonce in
    let stream = xor_stream key nonce bytes in
    let stream_long = length-xor_stream key nonce bytes in
    let b = overlay a 12 stream in
    let b_long = length-overlay a 12 stream in
    let tag = compute_tag key bytes extra in
    let tag_long = length-compute_tag key bytes extra in
    (
      overlay b (12 + n) tag,
      rw
          (
            seal,
            write_at-overlay output 0 nonce (omega (arith, iv, room)),
            read_at-slice plaintext 0 n (omega (arith, enough)),
            write_at-overlay a 12 stream (omega (arith, a_long, stream_long, long, room)),
            read,
            write_at-overlay b (12 + n) tag (omega (arith, b_long, a_long, tag_long, room)),
          )
          refl,
      length-overlay b (12 + n) tag ∙ b_long ∙ a_long,
    )

-- With a plaintext of at least its length, and associated data that can be read, the call stays inside
-- every buffer: it returns -1 and leaves the output alone where 28 bytes more do not fit or the channel
-- has no key, and else returns the length and 28, with an output of the same size.
pub encrypt_safe :
    (ctx : Context) (channel client sequence : ℕ) (aad : Option (List ℕ)) (aad_len : ℤ)
    (extra plaintext : List ℕ) (n : ℕ) (output : List ℕ)
    → aad_bytes aad aad_len ≡ some extra
    → n ≤ length plaintext
    → (((length output < 28 + n) ⊎ (find_key ctx channel ≡ none))
        × (encrypt
              (some ctx)
              channel
              client
              sequence
              aad
              aad_len
              (some plaintext)
              (pos n)
              (some output)
              (pos (length output))
            ≡ some (minus_one, some output)))
      ⊎ (c : List ℕ) × (28 + n ≤ length output)
        × (encrypt
              (some ctx)
              channel
              client
              sequence
              aad
              aad_len
              (some plaintext)
              (pos n)
              (some output)
              (pos (length output))
            ≡ some (pos (28 + n), some c))
        × (length c ≡ length output)
unfolding encrypt
encrypt_safe ctx channel client sequence aad aad_len extra plaintext n output read enough =
    elim (Bool-cases (ltb (length output + 0) (28 + n + 0))) [
      | inl q ↦ inl (inl (ground arith), rw (encrypt, q) refl)
      | inr q ↦ elim (Option-cases (find_key ctx channel)) [
        | inl k ↦ inl (inr k, rw (encrypt, q, k) refl)
        | inr (key, k) ↦
            let (c, sealed, long) =
              seal_total key (build_nonce channel client sequence) aad aad_len extra plaintext n
                output (length-build_nonce channel client sequence) read enough (ground arith) in
            inr (c, ground arith, rw (encrypt, q, k) sealed, long)
      ]
    ]
