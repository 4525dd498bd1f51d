-- ===== src/Bits/Zero.antt =====
-- `|` and `^` that give 0.
use Prim.Native.Nat.{bit_xor-bitwise}
use audio_project.Base.{ℕ, zero, suc, ◌+◌, ◌/◌, ◌≤◌, bit_or, bit_xor, ◌≡◌, ap, sym, ◌∙◌, arith}
use audio_project.Bits.Digits.{bit_or_step}
use audio_project.Bits.Xor.{bit_xor_cancel, bit_xor_right_injective}

pub bit_xor_self : (a : ℕ) → bit_xor a a ≡ 0
bit_xor_self a = ap (λ t. bit_xor t a) (sym (bit_xor-bitwise 0 a)) ∙ bit_xor_cancel 0 a

pub bit_xor_eq_zero : (a b : ℕ) → bit_xor a b ≡ 0 → a ≡ b
bit_xor_eq_zero a b e = bit_xor_right_injective a b b (e ∙ sym (bit_xor_self b))

or_zero_below : (n a b : ℕ) → a + b ≤ n → bit_or a b ≡ 0 → a + b ≡ 0
or_zero_below zero a b h e = omega arith
or_zero_below (suc n) a b h e =
    let halves = or_zero_below n (a / 2) (b / 2) (omega arith) (omega (arith, bit_or_step a b)) in
    omega (arith, bit_or_step a b, halves)

pub bit_or_eq_zero : (a b : ℕ) → bit_or a b ≡ 0 → a + b ≡ 0
bit_or_eq_zero a b e = or_zero_below (a + b) a b (omega arith) e
