-- ===== src/Base/Memory.antt =====
-- `memcpy` between arrays. A copy that leaves an array is undefined in C: here it returns `none`.
use Prim.Native.Nat.{ℕ, zero, suc, ◌+◌, ◌-◌, ◌≤◌, ◌<◌}
use mathlib.Core.Path.{◌≡◌, refl, sym, ap, ◌∙◌}
use mathlib.Core.Logic.{◌⊎◌, inl, inr}
use mathlib.Core.List.{List, [], ◌∷◌, ◌++◌, append-nil}
use mathlib.Core.Option.{Option, none, some, none-ne-some}
use mathlib.Core.Option
use mathlib.Core.Bool.{Bool, true, false}
use native.Mathlib.Omega.{arith}
use native.Mathlib.Nat.{add-zero, zero-add, suc-add}
use audio_project.Base.Tests.{Option-cases, if◌then◌else◌}
use audio_project.Base.Lists.{length, take, drop, length-take}

infixl 5 ◌>>=◌
abbrev pub ◌>>=◌ {ℓ κ} : {A : Type ℓ} {B : Type κ} → Option A → (A → Option B) → Option B
none >>= f = none
some a >>= f = f a

-- A `do` that gives a result had one for its first line.
pub bind-some {ℓ κ} :
    {A : Type ℓ} {B : Type κ} (m : Option A) (f : A → Option B) (b : B)
    → (m >>= f) ≡ some b
    → (a : A) × (m ≡ some a) × (f a ≡ some b)
bind-some none f b h = absurd (none-ne-some _ h)
bind-some (some a) f b h = (a, refl, h)

-- The branch of a test that gave a result.
pub if-some {ℓ} :
    {A : Type ℓ} (b : Bool) (x y : Option A) (r : A)
    → (if b then x else y) ≡ some r
    → ((b ≡ true) × (x ≡ some r)) ⊎ (b ≡ false) × (y ≡ some r)
if-some true x y r h = inl (refl, h)
if-some false x y r h = inr (refl, h)

-- The branch of a look at an `Option` that gave a result.
pub elim-some {ℓ κ} :
    {A : Type ℓ} {B : Type κ} (o : Option A) (x : Option B) (f : A → Option B) (r : B)
    → elim o [ none ↦ x | some a ↦ f a ] ≡ some r
    → ((o ≡ none) × (x ≡ some r)) ⊎ (a : A) × (o ≡ some a) × (f a ≡ some r)
elim-some none x f r h = inl (refl, h)
elim-some (some a) x f r h = inr (a, refl, h)

module _ {ℓ} {A : Type ℓ} where
  -- `memcpy(dst, &src[off], n)`: the `n` elements from `off` on.
  unfoldable pub read_at : List A → ℕ → ℕ → Option (List A)
  read_at src off zero = some []
  read_at [] off (suc n) = none
  read_at (x ∷ src) zero (suc n) = Option.map (◌∷◌ x) (read_at src zero n)
  read_at (x ∷ src) (suc off) (suc n) = read_at src off (suc n)

  -- `memcpy(&dst[off], xs, length xs)`.
  unfoldable pub write_at : List A → ℕ → List A → Option (List A)
  write_at dst off [] = some dst
  write_at [] off (x ∷ xs) = none
  write_at (y ∷ dst) zero (x ∷ xs) = Option.map (◌∷◌ x) (write_at dst zero xs)
  write_at (y ∷ dst) (suc off) (x ∷ xs) = Option.map (◌∷◌ y) (write_at dst off (x ∷ xs))

  -- The elements that an access in range reads.
  abbrev pub slice : List A → ℕ → ℕ → List A
  slice src off n = take n (drop off src)

  -- The array after a write in range.
  abbrev pub overlay : List A → ℕ → List A → List A
  overlay dst off [] = dst
  overlay [] off (x ∷ xs) = []
  overlay (y ∷ dst) zero (x ∷ xs) = x ∷ overlay dst zero xs
  overlay (y ∷ dst) (suc off) (x ∷ xs) = y ∷ overlay dst off (x ∷ xs)

  pub read_at-slice :
      (src : List A) (off n : ℕ) → off + n ≤ length src → read_at src off n ≡ some (slice src off n)
  unfolding read_at
  read_at-slice src off zero h = refl
  read_at-slice [] off (suc n) h = absurd (omega arith)
  read_at-slice (x ∷ src) zero (suc n) h = rw (read_at-slice src zero n (omega arith)) refl
  read_at-slice (x ∷ src) (suc off) (suc n) h = read_at-slice src off (suc n) (omega arith)

  pub write_at-overlay :
      (dst : List A) (off : ℕ) (xs : List A)
      → off + length xs ≤ length dst
      → write_at dst off xs ≡ some (overlay dst off xs)
  unfolding write_at
  write_at-overlay dst off [] h = refl
  write_at-overlay [] off (x ∷ xs) h = absurd (omega arith)
  write_at-overlay (y ∷ dst) zero (x ∷ xs) h = rw (write_at-overlay dst zero xs (omega arith)) refl
  write_at-overlay (y ∷ dst) (suc off) (x ∷ xs) h =
      rw (write_at-overlay dst off (x ∷ xs) (omega arith)) refl

  pub length-overlay :
      (dst : List A) (off : ℕ) (xs : List A) → length (overlay dst off xs) ≡ length dst
  length-overlay dst off [] = refl
  length-overlay [] off (x ∷ xs) = refl
  length-overlay (y ∷ dst) zero (x ∷ xs) = ap suc (length-overlay dst zero xs)
  length-overlay (y ∷ dst) (suc off) (x ∷ xs) = ap suc (length-overlay dst off (x ∷ xs))

  pub length-drop : (n : ℕ) (xs : List A) → length (drop n xs) ≡ length xs - n
  length-drop zero xs = omega arith
  length-drop (suc n) [] = omega arith
  length-drop (suc n) (x ∷ xs) = omega (arith, length-drop n xs)

  pub length-slice :
      (src : List A) (off n : ℕ) → off + n ≤ length src → length (slice src off n) ≡ n
  length-slice src off n h = omega (arith, length-take n (drop off src), length-drop off src)

  -- What was written is read back.
  pub slice-overlay_self :
      (dst : List A) (off : ℕ) (xs : List A)
      → off + length xs ≤ length dst
      → slice (overlay dst off xs) off (length xs) ≡ xs
  slice-overlay_self dst off [] h = refl
  slice-overlay_self [] off (x ∷ xs) h = absurd (omega arith)
  slice-overlay_self (y ∷ dst) zero (x ∷ xs) h =
      ap (◌∷◌ x) (slice-overlay_self dst zero xs (omega arith))
  slice-overlay_self (y ∷ dst) (suc off) (x ∷ xs) h =
      slice-overlay_self dst off (x ∷ xs) (omega arith)

  take-overlay_after :
      (dst : List A) (off : ℕ) (xs : List A) (n : ℕ)
      → n ≤ off
      → take n (overlay dst off xs) ≡ take n dst
  take-overlay_after dst off [] n h = refl
  take-overlay_after [] off (x ∷ xs) n h = refl
  take-overlay_after (y ∷ dst) off (x ∷ xs) zero h = refl
  take-overlay_after (y ∷ dst) zero (x ∷ xs) (suc n) h = absurd (omega arith)
  take-overlay_after (y ∷ dst) (suc off) (x ∷ xs) (suc n) h =
      ap (◌∷◌ y) (take-overlay_after dst off (x ∷ xs) n (omega arith))

  drop-overlay_before :
      (dst : List A) (off : ℕ) (xs : List A) (p : ℕ)
      → off + length xs ≤ p
      → drop p (overlay dst off xs) ≡ drop p dst
  drop-overlay_before dst off [] p h = refl
  drop-overlay_before [] off (x ∷ xs) p h = refl
  drop-overlay_before (y ∷ dst) off (x ∷ xs) zero h = absurd (omega arith)
  drop-overlay_before (y ∷ dst) zero (x ∷ xs) (suc p) h =
      drop-overlay_before dst zero xs p (omega arith)
  drop-overlay_before (y ∷ dst) (suc off) (x ∷ xs) (suc p) h =
      drop-overlay_before dst off (x ∷ xs) p (omega arith)

  slice-overlay_after :
      (dst : List A) (off : ℕ) (xs : List A) (p n : ℕ)
      → p + n ≤ off
      → slice (overlay dst off xs) p n ≡ slice dst p n
  slice-overlay_after dst off [] p n h = refl
  slice-overlay_after [] off (x ∷ xs) p n h = refl
  slice-overlay_after (y ∷ dst) off (x ∷ xs) zero n h =
      take-overlay_after (y ∷ dst) off (x ∷ xs) n (omega arith)
  slice-overlay_after (y ∷ dst) zero (x ∷ xs) (suc p) n h = absurd (omega arith)
  slice-overlay_after (y ∷ dst) (suc off) (x ∷ xs) (suc p) n h =
      slice-overlay_after dst off (x ∷ xs) p n (omega arith)

  -- A write leaves every slice that it does not meet.
  pub slice-overlay_apart :
      (dst : List A) (off : ℕ) (xs : List A) (p n : ℕ)
      → (p + n ≤ off) ⊎ (off + length xs ≤ p)
      → slice (overlay dst off xs) p n ≡ slice dst p n
  slice-overlay_apart dst off xs p n (inl h) = slice-overlay_after dst off xs p n h
  slice-overlay_apart dst off xs p n (inr h) = ap (take n) (drop-overlay_before dst off xs p h)

module _ {ℓ} {A : Type ℓ} where
  -- Two writes that meet are one.
  pub overlay-append :
      (dst : List A) (off end : ℕ) (xs ys : List A)
      → end ≡ off + length xs
      → overlay (overlay dst off xs) end ys ≡ overlay dst off (xs ++ ys)
  overlay-append dst off end [] ys e = ap (λ t. overlay dst t ys) (e ∙ add-zero off)
  overlay-append [] off end (x ∷ xs) [] e = refl
  overlay-append [] off end (x ∷ xs) (y ∷ ys) e = refl
  overlay-append (z ∷ dst) zero zero (x ∷ xs) ys e = absurd (omega arith)
  overlay-append (z ∷ dst) zero (suc end) (x ∷ xs) [] e =
      ap (λ t. x ∷ overlay dst zero t) (sym (append-nil xs))
  overlay-append (z ∷ dst) zero (suc end) (x ∷ xs) (y ∷ ys) e =
      ap (◌∷◌ x) (overlay-append dst zero end xs (y ∷ ys) (omega arith))
  overlay-append (z ∷ dst) (suc off) zero (x ∷ xs) ys e = absurd (omega arith)
  overlay-append (z ∷ dst) (suc off) (suc end) (x ∷ xs) [] e =
      ap (λ t. z ∷ overlay dst off (x ∷ t)) (sym (append-nil xs))
  overlay-append (z ∷ dst) (suc off) (suc end) (x ∷ xs) (y ∷ ys) e =
      ap (◌∷◌ z) (overlay-append dst off end (x ∷ xs) (y ∷ ys) (omega arith))

  drop-nil : (n : ℕ) → drop n (let xs : List A = [] in xs) ≡ []
  drop-nil zero = refl
  drop-nil (suc n) = refl

  pub drop-drop : (n m : ℕ) (xs : List A) → drop m (drop n xs) ≡ drop (n + m) xs
  drop-drop zero m xs = ap (λ t. drop t xs) (sym (zero-add m))
  drop-drop (suc n) m [] = drop-nil m ∙ sym (ap (λ t. drop t []) (suc-add n m))
  drop-drop (suc n) m (x ∷ xs) = drop-drop n m xs ∙ ap (λ t. drop t (x ∷ xs)) (sym (suc-add n m))

  pub overlay_start :
      (dst : List A) (xs : List A)
      → length xs ≤ length dst
      → overlay dst 0 xs ≡ xs ++ drop (length xs) dst
  overlay_start dst [] h = refl
  overlay_start [] (x ∷ xs) h = absurd (omega arith)
  overlay_start (y ∷ dst) (x ∷ xs) h = ap (◌∷◌ x) (overlay_start dst xs (omega arith))

  -- A write behind a part of the array goes to the start of the rest.
  pub write_at-append :
      (pre rest xs : List A)
      → length xs ≤ length rest
      → write_at (pre ++ rest) (length pre) xs ≡ some ((pre ++ xs) ++ drop (length xs) rest)
  unfolding write_at
  write_at-append [] rest xs h =
      write_at-overlay rest 0 xs (omega arith) ∙ ap some (overlay_start rest xs h)
  write_at-append (p ∷ pre) rest [] h = ap (λ t. some (p ∷ (t ++ rest))) (sym (append-nil pre))
  write_at-append (p ∷ pre) rest (x ∷ xs) h = rw (write_at-append pre rest (x ∷ xs) h) refl

module _ {ℓ} {A : Type ℓ} where
  pub length-write_at :
      (dst : List A) (off : ℕ) (xs : List A) {dst' : List A}
      → write_at dst off xs ≡ some dst'
      → length dst' ≡ length dst
  unfolding write_at
  length-write_at dst off [] e = ground arith
  length-write_at [] off (x ∷ xs) e = cc
  length-write_at (y ∷ dst) zero (x ∷ xs) e = elim (Option-cases (write_at dst zero xs)) [
    | inl q ↦ ground arith
    | inr (r, q) ↦ ground (arith, length-write_at dst zero xs q)
  ]
  length-write_at (y ∷ dst) (suc off) (x ∷ xs) e = elim (Option-cases (write_at dst off (x ∷ xs))) [
    | inl q ↦ ground arith
    | inr (r, q) ↦ ground (arith, length-write_at dst off (x ∷ xs) q)
  ]

  -- A write that leaves the array is refused.
  pub write_at_outside :
      (dst : List A) (off : ℕ) (x : A) (xs : List A)
      → length dst < off + length (x ∷ xs)
      → write_at dst off (x ∷ xs) ≡ none
  unfolding write_at
  write_at_outside [] off x xs h = refl
  write_at_outside (y ∷ dst) zero x [] h = absurd (omega arith)
  write_at_outside (y ∷ dst) zero x (x' ∷ xs) h =
      rw (write_at_outside dst zero x' xs (omega arith)) refl
  write_at_outside (y ∷ dst) (suc off) x xs h =
      rw (write_at_outside dst off x xs (omega arith)) refl
