-- ===== src/Bits/Xor.antt =====
-- Exclusive or: its own inverse, commutative, and as wide as its arguments.
use native.Mathlib.Nat.{pow-suc}
use audio_project.Base.{
  ℕ, zero, suc, ◌+◌, ◌/◌, ◌%◌, ◌^◌, ◌≤◌, ◌<◌, bit_xor, ◌≡◌, refl, ap, sym, ◌∙◌, arith,
}
use audio_project.Bits.Digits.{bit_xor_step}

bit_xor-div : (a b : ℕ) → bit_xor a b / 2 ≡ bit_xor (a / 2) (b / 2)
bit_xor-div a b = omega (arith, bit_xor_step a b)

bit_xor-mod : (a b : ℕ) → bit_xor a b % 2 ≡ (a + b) % 2
bit_xor-mod a b = omega (arith, bit_xor_step a b)

comm_below : (n a b : ℕ) → a + b ≤ n → bit_xor a b ≡ bit_xor b a
comm_below n zero zero h = refl
comm_below zero zero (suc b) h = absurd (omega arith)
comm_below (suc n) zero (suc b) h = omega (
  arith,
  bit_xor_step 0 (suc b),
  bit_xor_step (suc b) 0,
  comm_below n 0 (suc b / 2) (omega arith),
)
comm_below zero (suc a) b h = absurd (omega arith)
comm_below (suc n) (suc a) b h = omega (
  arith,
  bit_xor_step (suc a) b,
  bit_xor_step b (suc a),
  comm_below n (suc a / 2) (b / 2) (omega arith),
)

pub bit_xor_comm : (a b : ℕ) → bit_xor a b ≡ bit_xor b a
bit_xor_comm a b = comm_below (a + b) a b (omega arith)

cancel_below : (n a b : ℕ) → a + b ≤ n → bit_xor (bit_xor a b) b ≡ a
cancel_below n zero zero h = refl
cancel_below zero zero (suc b) h = absurd (omega arith)
cancel_below (suc n) zero (suc b) h = omega (
  arith,
  bit_xor_step (bit_xor 0 (suc b)) (suc b),
  ap (λ t. bit_xor t (suc b / 2)) (bit_xor-div 0 (suc b)),
  bit_xor-mod 0 (suc b),
  cancel_below n 0 (suc b / 2) (omega arith),
)
cancel_below zero (suc a) b h = absurd (omega arith)
cancel_below (suc n) (suc a) b h = omega (
  arith,
  bit_xor_step (bit_xor (suc a) b) b,
  ap (λ t. bit_xor t (b / 2)) (bit_xor-div (suc a) b),
  bit_xor-mod (suc a) b,
  cancel_below n (suc a / 2) (b / 2) (omega arith),
)

-- Combining twice with the same value gives the first back.
pub bit_xor_cancel : (a b : ℕ) → bit_xor (bit_xor a b) b ≡ a
bit_xor_cancel a b = cancel_below (a + b) a b (omega arith)

pub bit_xor_right_injective : (a a' b : ℕ) → bit_xor a b ≡ bit_xor a' b → a ≡ a'
bit_xor_right_injective a a' b e =
    sym (bit_xor_cancel a b) ∙ ap (λ t. bit_xor t b) e ∙ bit_xor_cancel a' b

pub bit_xor_left_injective : (a b b' : ℕ) → bit_xor a b ≡ bit_xor a b' → b ≡ b'
bit_xor_left_injective a b b' e =
    bit_xor_right_injective b b' a (bit_xor_comm b a ∙ e ∙ bit_xor_comm a b')

pub bit_xor-lt : (k a b : ℕ) → a < 2 ^ k → b < 2 ^ k → bit_xor a b < 2 ^ k
bit_xor-lt zero zero zero p q = omega arith
bit_xor-lt zero zero (suc b) p q = absurd (omega arith)
bit_xor-lt zero (suc a) b p q = absurd (omega arith)
bit_xor-lt (suc k) a b p q =
    ground (arith, bit_xor_step a b, pow-suc 2 k, bit_xor-lt k (a / 2) (b / 2))
