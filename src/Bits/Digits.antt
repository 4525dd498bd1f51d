-- ===== src/Bits/Digits.antt =====
-- The native `&`, `|` and `^` by their lowest digit.
use Prim.Native.Nat.{digits, bitwise, differ, bit_and-bitwise, bit_or-bitwise, bit_xor-bitwise}
use audio_project.Base.{
  ℕ, zero, suc, ◌+◌, ◌-◌, ◌*◌, ◌/◌, ◌%◌, ◌≤◌, ◌<◌, min, max, bit_and, bit_or, bit_xor, ◌≡◌, refl,
  ap, ◌∙◌, arith,
}

module _ (rest : ℕ → ℕ) (op : ℕ → ℕ → ℕ) where
  -- One round more than the first number has digits changes nothing.
  spare_round : (k x y : ℕ) → x ≤ k → digits rest op (suc k) x y ≡ digits rest op k x y
  spare_round zero zero y h = refl
  spare_round (suc k) zero y h = refl
  spare_round zero (suc x) y h = absurd (omega arith)
  spare_round (suc k) (suc x) y h = omega (arith, spare_round k (suc x / 2) (y / 2) (omega arith))

  spare_rounds : (c k n x y : ℕ) → n ≡ c + k → x ≤ k → digits rest op n x y ≡ digits rest op k x y
  spare_rounds zero k n x y e h = ap (λ t. digits rest op t x y) (omega arith)
  spare_rounds (suc c) k zero x y e h = absurd (omega arith)
  spare_rounds (suc c) k (suc n) x y e h =
      spare_round n x y (omega arith) ∙ spare_rounds c k n x y (omega arith) h

  -- An operation by its lowest digits, where that holds for a first number that has run out.
  lowest :
      ((y : ℕ) → rest y ≡ rest (y / 2) * 2 + op 0 (y % 2))
      → (x y : ℕ) → bitwise rest op x y ≡ bitwise rest op (x / 2) (y / 2) * 2 + op (x % 2) (y % 2)
  lowest base zero y = base y
  lowest base (suc x) y =
      let half : ℕ = suc x / 2 in
      ap (λ t. t * 2 + op (suc x % 2) (y % 2))
        (spare_rounds (x - half) half x half (y / 2) (omega arith) (omega arith))

pub bit_or_step : (a b : ℕ) → bit_or a b ≡ bit_or (a / 2) (b / 2) * 2 + max (a % 2) (b % 2)
bit_or_step a b = simp bit_or-bitwise (lowest _ max (λ y. omega arith) a b)

pub bit_and_step : (a b : ℕ) → bit_and a b ≡ bit_and (a / 2) (b / 2) * 2 + min (a % 2) (b % 2)
bit_and_step a b = simp bit_and-bitwise (lowest _ min (λ y. omega arith) a b)

-- On digits, to differ is to have an odd sum.
differ-mod : (u v : ℕ) → u < 2 → v < 2 → differ u v ≡ (u + v) % 2
differ-mod zero v hu hv = omega arith
differ-mod (suc u) zero hu hv = omega arith
differ-mod (suc u) (suc v) hu hv = omega (arith, differ-mod u v (omega arith) (omega arith))

pub bit_xor_step : (a b : ℕ) → bit_xor a b ≡ bit_xor (a / 2) (b / 2) * 2 + (a + b) % 2
bit_xor_step a b = simp bit_xor-bitwise (
    omega (
      arith,
      lowest (λ y. y) differ (λ y. omega arith) a b,
      differ-mod (a % 2) (b % 2) (omega arith) (omega arith),
    ))
