-- ===== src/Crypto/Packet.antt =====
-- The packets of core/src/crypto.c's XOR backend: what `ae_crypto_encrypt` writes, and what
-- `ae_crypto_decrypt` makes of it.
use mathlib.Core.List.{append_assoc}
use audio_project.Base.{
  ℕ, ◌+◌, ◌≤◌, List, [], ◌++◌, ◌≡◌, ◌≢◌, refl, sym, ap, ◌∙◌, arith, length, drop, drop-drop,
  length-drop, length-append, replicate, length-replicate, Option, some, Bool, true, false,
  Bool-cases, inl, inr, ℤ, pos, minus_one, read_at, write_at, read_behind, drop_behind,
  write_behind, ◌==◌, if◌then◌else◌,
}
use audio_project.Crypto.{compute_tag, xor_stream, differences, aad_bytes, seal, unseal, write_at_ℤ}
use audio_project.Crypto.Tag.{length-compute_tag}
use audio_project.Crypto.Stream.{length-xor_stream, differences_eq, eq_differences}

-- IV || ciphertext || tag.
unfoldable pub sealed : List ℕ → List ℕ → List ℕ → List ℕ → List ℕ
sealed key nonce bytes extra = nonce ++ xor_stream key nonce bytes ++ compute_tag key bytes extra

pub seal_lem :
    (key nonce : List ℕ) (aad : Option (List ℕ)) (aad_len : ℤ) (plaintext : List ℕ) (n : ℕ)
    (output bytes extra : List ℕ)
    → length nonce ≡ 12
    → read_at plaintext 0 n ≡ some bytes
    → length bytes ≡ n
    → aad_bytes aad aad_len ≡ some extra
    → 28 + n ≤ length output
    → seal key nonce aad aad_len plaintext (pos n) output
      ≡ some (pos (28 + n), some (sealed key nonce bytes extra ++ drop (28 + n) output))
unfolding seal sealed write_at_ℤ
seal_lem key nonce aad aad_len plaintext n output bytes extra hn hb hl ha room =
    let ct = xor_stream key nonce bytes in
    let tag = compute_tag key bytes extra in
    let lc : length ct ≡ length bytes = length-xor_stream key nonce bytes in
    let lt : length tag ≡ 16 = length-compute_tag key bytes extra in
    let rest1 = drop (length nonce) output in
    let rest2 = drop (length ct) rest1 in
    rw
      (
        write_behind [] output nonce 0 refl (omega arith),
        hb,
        write_behind nonce rest1 ct 12 (sym hn) (omega (arith, length-drop (length nonce) output)),
        ha,
        write_behind (nonce ++ ct) rest2 tag (12 + n) (omega (arith, length-append nonce ct))
            (omega (arith, length-drop (length nonce) output, length-drop (length ct) rest1)),
      )
      (ap (λ t. some (pos (28 + n), some (nonce ++ ct ++ tag ++ t)))
        (ap (drop (length tag)) (drop-drop (length nonce) (length ct) output)
          ∙ drop-drop (length nonce + length ct) (length tag) output
          ∙ ap (λ t. drop t output) (omega arith)))

-- What `unseal` returns and leaves in the output buffer, by the tag it finds.
pub verdict : List ℕ → List ℕ → List ℕ → List ℕ → List ℕ → ℤ × Option (List ℕ)
verdict key bytes extra tag output =
    if differences 0 tag (compute_tag key bytes extra) == 0
    then (pos (length bytes), some (bytes ++ drop (length bytes) output))
    else (minus_one, some (replicate (length bytes) 0 ++ drop (length bytes) output))

if-some {ℓ} :
    {A : Type ℓ} (b : Bool) (x y : A) → (if b then some x else some y) ≡ some (if b then x else y)
if-some true x y = refl
if-some false x y = refl

pub unseal_lem :
    (key : List ℕ) (aad : Option (List ℕ)) (aad_len : ℤ)
    (iv ct tag rest output bytes extra : List ℕ)
    → length iv ≡ 12
    → length tag ≡ 16
    → xor_stream key iv ct ≡ bytes
    → aad_bytes aad aad_len ≡ some extra
    → length bytes ≤ length output
    → unseal key aad aad_len (iv ++ ct ++ tag ++ rest) (length bytes) output
      ≡ some (verdict key bytes extra tag output)
unfolding unseal verdict
unseal_lem key aad aad_len iv ct tag rest output bytes extra hi ht hx ha room =
    let input = iv ++ ct ++ tag ++ rest in
    let n = length bytes in
    let lc : length ct ≡ n = sym (length-xor_stream key iv ct) ∙ ap length hx in
    let behind_ct : input ≡ iv ++ ct ++ (tag ++ rest) = append_assoc (iv ++ ct) tag rest in
    let behind_iv : input ≡ iv ++ (ct ++ (tag ++ rest)) =
      behind_ct ∙ append_assoc iv ct (tag ++ rest) in
    let zeros : List ℕ = replicate n 0 in
    let lz : length zeros ≡ n = length-replicate n 0 in
    let after = bytes ++ drop n output in
    let wiped : write_at after 0 zeros ≡ some (zeros ++ drop n output) =
      write_behind [] after zeros 0 refl (omega (arith, length-append bytes (drop n output)))
      ∙ ap (λ t. some (zeros ++ t)) (drop_behind bytes (drop n output) (length zeros) lz) in
    rw
      (
        ap (λ t. read_at t 0 12) behind_iv
            ∙ read_behind [] iv (ct ++ (tag ++ rest)) 0 12 refl (sym hi),
        ap (λ t. read_at t 12 n) behind_iv ∙ read_behind iv ct (tag ++ rest) 12 n (sym hi) (sym lc),
        hx,
        write_behind [] output bytes 0 refl room,
        read_behind [] bytes (drop n output) 0 n refl refl,
        ha,
        ap (λ t. read_at t (12 + n) 16) behind_ct
            ∙ read_behind (iv ++ ct) tag rest (12 + n) 16 (omega (arith, length-append iv ct))
                (sym ht),
        wiped,
      )
      (if-some (differences 0 tag (compute_tag key bytes extra) == 0) _ _)

pub accepted :
    (key bytes extra tag output : List ℕ)
    → tag ≡ compute_tag key bytes extra
    → verdict key bytes extra tag output
      ≡ (pos (length bytes), some (bytes ++ drop (length bytes) output))
unfolding verdict
accepted key bytes extra tag output e = rw (differences_eq tag _ e) refl

pub refused :
    (key bytes extra tag output : List ℕ)
    → length tag ≡ 16
    → tag ≢ compute_tag key bytes extra
    → verdict key bytes extra tag output
      ≡ (minus_one, some (replicate (length bytes) 0 ++ drop (length bytes) output))
unfolding verdict
refused key bytes extra tag output ht h =
    elim (Bool-cases (differences 0 tag (compute_tag key bytes extra) == 0)) [
      | inl q ↦ absurd (
          h (
            eq_differences tag _ (ht ∙ sym (length-compute_tag key bytes extra))
              (ground (arith, q))))
      | inr q ↦ rw q refl
    ]

pub length-sealed :
    (key nonce bytes extra : List ℕ)
    → length nonce ≡ 12
    → length (sealed key nonce bytes extra) ≡ 28 + length bytes
unfolding sealed
length-sealed key nonce bytes extra h =
    let ct = xor_stream key nonce bytes in
    omega (
      arith,
      length-append (nonce ++ ct) (compute_tag key bytes extra),
      length-append nonce ct,
      length-xor_stream key nonce bytes,
      length-compute_tag key bytes extra,
    )
