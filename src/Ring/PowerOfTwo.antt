-- ===== src/Ring/PowerOfTwo.antt =====
-- `next_power_of_two`: the smear fills every bit below the highest, so adding one gives a power.
use native.Mathlib.Nat.{pow-suc, pow-le-pow_right, one-le-pow, div-one, div-div-eq-div-mul}
use native.Mathlib.Decide.{dec_lt}
use audio_project.Base.{
  pos, to_int, to_int_lem, ℕ, zero, suc, ◌+◌, ◌-◌, ◌*◌, ◌/◌, ◌%◌, ◌^◌, ◌≤◌, ◌<◌, max, bit_or, ◌≡◌,
  refl, ap, ap₂, ◌∙◌, arith,
}
use audio_project.Bits.Digits.{bit_or_step}
use audio_project.Ring.{smear, next_power_of_two}

bit_or-div : (a b : ℕ) → bit_or a b / 2 ≡ bit_or (a / 2) (b / 2)
bit_or-div a b = omega (arith, bit_or_step a b)

-- One stage of the smear.
abbrev spread : ℕ → ℕ → ℕ
spread d v = bit_or v (v / d)

-- A map that commutes with halving.
abbrev Halves : (ℕ → ℕ) → Type 0
Halves f = (v : ℕ) → f v / 2 ≡ f (v / 2)

-- An even value of `f` comes only from a multiple of `n`.
abbrev EvenOnly : (ℕ → ℕ) → ℕ → Type 0
EvenOnly f n = (v : ℕ) → f v % 2 ≡ 0 → v % n ≡ 0

spread-Halves :
    (f : ℕ → ℕ) (d : ℕ)
    → ((v : ℕ) → v / d / 2 ≡ v / 2 / d)
    → Halves f
    → Halves (λ v. spread d (f v))
spread-Halves f d swap half v =
    bit_or-div (f v) (f v / d) ∙ ap₂ bit_or (half v) (swap (f v) ∙ ap (λ t. t / d) (half v))

spread-EvenOnly :
    (f : ℕ → ℕ) (d : ℕ)
    → ((v : ℕ) → f v / d ≡ f (v / d))
    → EvenOnly f d
    → ((v : ℕ) → v % d ≡ 0 → v / d % d ≡ 0 → v % (d * d) ≡ 0)
    → EvenOnly (λ v. spread d (f v)) (d * d)
spread-EvenOnly f d shift even join v e =
    join v (even v (omega (arith, bit_or_step (f v) (f v / d))))
      (even (v / d) (omega (arith, bit_or_step (f v) (f v / d), ap (λ t. t % 2) (shift v))))

shift : (f : ℕ → ℕ) → Halves f → (k v : ℕ) → f v / 2 ^ k ≡ f (v / 2 ^ k)
shift f half zero v = omega (arith, ap f (div-one v))
shift f half (suc k) v =
    rw (pow-suc 2 k, ← div-div-eq-div-mul, ← div-div-eq-div-mul)
      (ap (λ t. t / 2) (shift f half k v) ∙ half (v / 2 ^ k))

abbrev stage1 : ℕ → ℕ
stage1 v = spread (2 ^ 1) v

abbrev stage2 : ℕ → ℕ
stage2 v = spread (2 ^ 2) (stage1 v)

abbrev stage4 : ℕ → ℕ
stage4 v = spread (2 ^ 4) (stage2 v)

abbrev stage8 : ℕ → ℕ
stage8 v = spread (2 ^ 8) (stage4 v)

abbrev stage16 : ℕ → ℕ
stage16 v = spread (2 ^ 16) (stage8 v)

stage1-Halves : Halves stage1
stage1-Halves = spread-Halves (λ v. v) (2 ^ 1) (λ v. omega arith) (λ v. refl)

stage2-Halves : Halves stage2
stage2-Halves = spread-Halves stage1 (2 ^ 2) (λ v. omega arith) stage1-Halves

stage4-Halves : Halves stage4
stage4-Halves = spread-Halves stage2 (2 ^ 4) (λ v. omega arith) stage2-Halves

stage8-Halves : Halves stage8
stage8-Halves = spread-Halves stage4 (2 ^ 8) (λ v. omega arith) stage4-Halves

stage16-Halves : Halves stage16
stage16-Halves = spread-Halves stage8 (2 ^ 16) (λ v. omega arith) stage8-Halves

stage1-EvenOnly : EvenOnly stage1 (2 ^ 2)
stage1-EvenOnly v e = omega (arith, bit_or_step v (v / 2))

stage2-EvenOnly : EvenOnly stage2 (2 ^ 4)
stage2-EvenOnly =
    spread-EvenOnly stage1 (2 ^ 2) (shift stage1 stage1-Halves 2) stage1-EvenOnly
      (λ v p q. omega arith)

stage4-EvenOnly : EvenOnly stage4 (2 ^ 8)
stage4-EvenOnly =
    spread-EvenOnly stage2 (2 ^ 4) (shift stage2 stage2-Halves 4) stage2-EvenOnly
      (λ v p q. omega arith)

stage8-EvenOnly : EvenOnly stage8 (2 ^ 16)
stage8-EvenOnly =
    spread-EvenOnly stage4 (2 ^ 8) (shift stage4 stage4-Halves 8) stage4-EvenOnly
      (λ v p q. omega arith)

stage16-EvenOnly : EvenOnly stage16 (2 ^ 32)
stage16-EvenOnly =
    spread-EvenOnly stage8 (2 ^ 16) (shift stage8 stage8-Halves 16) stage8-EvenOnly
      (λ v p q. omega arith)

-- A number below 2 ^ 32 smears to all ones, as many as it has digits.
smear_ones :
    (n v : ℕ)
    → v ≤ n
    → v < 2 ^ 32
    → (k : ℕ) × (smear v + 1 ≡ 2 ^ k) × (v < 2 ^ k) × (2 ^ k ≤ max 1 (2 * v))
unfolding smear
smear_ones n zero h w = (0, refl, omega arith, omega arith)
smear_ones zero (suc v) h w = absurd (omega arith)
smear_ones (suc n) (suc v) h w =
    let (k, ones, above, below) = smear_ones n (suc v / 2) (omega arith) (omega arith) in
    let odd : stage16 (suc v) % 2 ≡ 1 = grind (arith, stage16-EvenOnly (suc v)) in
    (
      suc k,
      omega (arith, pow-suc 2 k, ones, stage16-Halves (suc v), odd),
      omega (arith, pow-suc 2 k, above),
      omega (arith, pow-suc 2 k, below, above),
    )

least : (k j u : ℕ) → u < 2 ^ j → 2 ^ k ≤ max 1 (2 * u) → 2 ^ k ≤ 2 ^ j
least k j u fits below = elim (dec_lt j k) [
  | yes less ↦
      absurd
        (omega (arith, pow-suc 2 j, one-le-pow j 2, pow-le-pow_right {n = 2} (omega arith) less))
  | no more ↦ pow-le-pow_right (omega arith) (omega arith)
]

-- For every positive `v` up to 2 ^ 30, the result is the least power of two that is at
-- least `v`, and it is less than twice `v`.
pub next_power_of_two-least :
    (v : ℕ)
    → 0 < v
    → v ≤ 2 ^ 30
    → (k : ℕ) × (next_power_of_two v ≡ pos (2 ^ k))
      × (v ≤ 2 ^ k)
      × (2 ^ k < 2 * v)
      × ((j : ℕ) → v ≤ 2 ^ j → 2 ^ k ≤ 2 ^ j)
unfolding next_power_of_two
next_power_of_two-least v h w =
    let (k, ones, above, below) = smear_ones (v - 1) (v - 1) (omega arith) (omega arith) in
    let small : 2 ^ k < 2 ^ 31 = omega (arith, below, w) in
    (
      k,
      ap (λ t. to_int (pos t)) ones ∙ to_int_lem (2 ^ k) (omega (arith, small)),
      omega (arith, above),
      omega (arith, below),
      λ j fits. least k j (v - 1) (omega arith) below,
    )
