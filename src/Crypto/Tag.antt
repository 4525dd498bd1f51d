-- ===== src/Crypto/Tag.antt =====
-- What one changed byte does to the tag of core/src/crypto.c (`compute_tag`).
use audio_project.Base.{
  ℕ, zero, suc, ◌+◌, ◌%◌, ◌<◌, bit_xor, List, [], ◌∷◌, ◌≡◌, refl, sym, ap, ◌∙◌, arith, length,
  get_or, set, length-set, get_or-set_self, get_or-set_ne, get_or_ext, replicate,
}
use native.Mathlib.Decide.{ℕ_discrete}
use audio_project.Bits.Xor.{bit_xor_left_injective, bit_xor_right_injective}
use audio_project.Crypto.{mix_from, fold_down, compute_tag}

pub length-mix_from : (i : ℕ) (bytes tag : List ℕ) → length (mix_from i bytes tag) ≡ length tag
unfolding mix_from
length-mix_from i [] tag = refl
length-mix_from i (byte ∷ bytes) tag = length-mix_from (i + 1) bytes _ ∙ length-set tag _ _

pub length-fold_down : (i : ℕ) (tag : List ℕ) → length (fold_down i tag) ≡ length tag
unfolding fold_down
length-fold_down zero tag = refl
length-fold_down (suc i) tag = length-fold_down i _ ∙ length-set tag _ _

-- An assignment of a value that depends one to one on the old one can be undone.
set_injective :
    (slot a b : ℕ) (s t : List ℕ)
    → length s ≡ length t
    → slot < length s
    → (a ≡ b → get_or s slot 0 ≡ get_or t slot 0)
    → set s slot a ≡ set t slot b
    → s ≡ t
set_injective slot a b s t len inside inj e = get_or_ext 0 s t len (λ i h.
    elim (ℕ_discrete slot i) [
      | yes q ↦ ap (λ k. get_or s k 0) (sym q) ∙ inj slots ∙ ap (λ k. get_or t k 0) q
      | no q ↦
          sym (get_or-set_ne s slot i a 0 q)
          ∙ ap (λ r. get_or r i 0) e
          ∙ get_or-set_ne t slot i b 0 q
    ])
  where
    slots : a ≡ b
    slots =
        sym (get_or-set_self s slot a 0 inside)
        ∙ ap (λ r. get_or r slot 0) e
        ∙ get_or-set_self t slot b 0 (omega arith)

-- The same bytes mixed into different tags give different tags.
mix_from_injective :
    (i : ℕ) (bytes s t : List ℕ)
    → length s ≡ 16
    → length t ≡ 16
    → mix_from i bytes s ≡ mix_from i bytes t
    → s ≡ t
unfolding mix_from
mix_from_injective i [] s t hs ht e = e
mix_from_injective i (byte ∷ bytes) s t hs ht e =
    set_injective (i % 16) _ _ s t (omega arith) (omega arith)
      (bit_xor_right_injective (get_or s (i % 16) 0) (get_or t (i % 16) 0) byte)
      (mix_from_injective (i + 1) bytes _ _ (length-set s (i % 16) _ ∙ hs)
        (length-set t (i % 16) _ ∙ ht) e)

-- One round of the final pass.
folded : ℕ → List ℕ → List ℕ
folded i tag = set tag i (bit_xor (get_or tag i 0) (get_or tag (suc i) 0))

folded_above : (i : ℕ) (tag : List ℕ) → get_or (folded i tag) (suc i) 0 ≡ get_or tag (suc i) 0
unfolding folded
folded_above i tag = get_or-set_ne tag i (suc i) _ 0 (λ q. absurd (omega arith))

folded_injective :
    (i : ℕ) (s t : List ℕ)
    → suc i < length s
    → length s ≡ length t
    → folded i s ≡ folded i t
    → s ≡ t
unfolding folded
folded_injective i s t h len e =
    let above = sym (folded_above i s) ∙ ap (λ r. get_or r (suc i) 0) e ∙ folded_above i t in
    set_injective i _ _ s t len (omega arith)
      (λ q.
        bit_xor_right_injective (get_or s i 0) (get_or t i 0) (get_or s (suc i) 0)
          (q ∙ ap (bit_xor (get_or t i 0)) (sym above)))
      e

fold_down_injective :
    (i : ℕ) (s t : List ℕ)
    → i < length s
    → length s ≡ length t
    → fold_down i s ≡ fold_down i t
    → s ≡ t
unfolding fold_down folded
fold_down_injective zero s t h len e = e
fold_down_injective (suc i) s t h len e =
    let ls : length (folded i s) ≡ length s = length-set s i _ in
    let lt : length (folded i t) ≡ length t = length-set t i _ in
    folded_injective i s t h len
      (fold_down_injective i (folded i s) (folded i t) (omega (arith, ls)) (ls ∙ len ∙ sym lt) e)

-- One byte exchanged for another gives another tag.
mix_from-set :
    (i j v : ℕ) (bytes tag : List ℕ)
    → length tag ≡ 16
    → j < length bytes
    → mix_from i (set bytes j v) tag ≡ mix_from i bytes tag
    → v ≡ get_or bytes j 0
unfolding mix_from
mix_from-set i j v [] tag ht h e = absurd (omega arith)
mix_from-set i zero v (byte ∷ bytes) tag ht h e =
    bit_xor_left_injective (get_or tag (i % 16) 0) v byte (
      sym (get_or-set_self tag (i % 16) _ 0 (omega arith))
      ∙ ap (λ r. get_or r (i % 16) 0)
          (mix_from_injective (i + 1) bytes _ _ (length-set tag (i % 16) _ ∙ ht)
            (length-set tag (i % 16) _ ∙ ht) e)
      ∙ get_or-set_self tag (i % 16) _ 0 (omega arith))
mix_from-set i (suc j) v (byte ∷ bytes) tag ht h e =
    mix_from-set (i + 1) j v bytes _ (length-set tag (i % 16) _ ∙ ht) (omega arith) e

mixed : List ℕ → List ℕ → List ℕ
mixed key bytes = mix_from 0 bytes (mix_from 0 key (replicate 16 0))

length-mixed : (key bytes : List ℕ) → length (mixed key bytes) ≡ 16
unfolding mixed
length-mixed key bytes = length-mix_from 0 bytes _ ∙ length-mix_from 0 key _

-- A tag has 16 bytes.
pub length-compute_tag : (key bytes aad : List ℕ) → length (compute_tag key bytes aad) ≡ 16
unfolding compute_tag mixed
length-compute_tag key bytes aad =
    length-fold_down 15 _ ∙ length-mix_from 0 aad _ ∙ length-mixed key bytes

compute_tag-mixed :
    (key bytes aad bytes' aad' : List ℕ)
    → compute_tag key bytes aad ≡ compute_tag key bytes' aad'
    → mix_from 0 aad (mixed key bytes) ≡ mix_from 0 aad' (mixed key bytes')
unfolding compute_tag mixed
compute_tag-mixed key bytes aad bytes' aad' =
    let left = length-mix_from 0 aad (mixed key bytes) ∙ length-mixed key bytes in
    let right = length-mix_from 0 aad' (mixed key bytes') ∙ length-mixed key bytes' in
    fold_down_injective 15 _ _ (omega (arith, left)) (left ∙ sym right)

-- The tag tells apart plaintexts that differ in one byte.
pub compute_tag-plaintext :
    (key bytes aad : List ℕ) (j v : ℕ)
    → j < length bytes
    → compute_tag key (set bytes j v) aad ≡ compute_tag key bytes aad
    → v ≡ get_or bytes j 0
unfolding mixed
compute_tag-plaintext key bytes aad j v h e =
    mix_from-set 0 j v bytes _ (length-mix_from 0 key _) h (
      mix_from_injective 0 aad _ _ (length-mixed key (set bytes j v)) (length-mixed key bytes)
        (compute_tag-mixed key (set bytes j v) aad bytes aad e))

-- The tag tells apart associated data that differ in one byte.
pub compute_tag-aad :
    (key bytes aad : List ℕ) (j v : ℕ)
    → j < length aad
    → compute_tag key bytes (set aad j v) ≡ compute_tag key bytes aad
    → v ≡ get_or aad j 0
compute_tag-aad key bytes aad j v h e =
    mix_from-set 0 j v aad _ (length-mixed key bytes) h
      (compute_tag-mixed key bytes (set aad j v) bytes aad e)
