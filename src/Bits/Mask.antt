-- ===== src/Bits/Mask.antt =====
-- `&` with a low mask and `|` of disjoint fields, as arithmetic.
use native.Mathlib.Nat.{pow-suc, one-le-pow}
use audio_project.Base.{
  ℕ, zero, suc, ◌+◌, ◌-◌, ◌*◌, ◌/◌, ◌%◌, ◌^◌, ◌≤◌, ◌<◌, bit_and, bit_or, ◌≡◌, refl, ap, arith,
}
use audio_project.Bits.Digits.{bit_and_step, bit_or_step}

-- What `&` and `|` with 0 give, for the numbers up to a bound.
with_zero : (bound v : ℕ) → v ≤ bound → (bit_and v 0 ≡ 0) × (bit_or v 0 ≡ v)
with_zero bound zero h = (refl, refl)
with_zero zero (suc v) h = absurd (omega arith)
with_zero (suc bound) (suc v) h =
    let (ands, ors) = with_zero bound (suc v / 2) (omega arith) in
    (omega (arith, bit_and_step (suc v) 0, ands), omega (arith, bit_or_step (suc v) 0, ors))

-- A high part and a low part of `w` bits: `|` puts them together, and `&` takes the low part out.
split_at :
    (w high low : ℕ)
    → low < 2 ^ w
    → (bit_or (high * 2 ^ w) low ≡ high * 2 ^ w + low)
      × (bit_and (high * 2 ^ w + low) (2 ^ w - 1) ≡ low)
split_at zero high low h =
    let (ands, ors) = with_zero high high (omega arith) in (ground arith, ground arith)
split_at (suc w) high low h =
    let (ors, ands) = split_at w high (low / 2) (ground (arith, pow-suc 2 w)) in
    let double = ap (λ (t : ℕ). high * t) (pow-suc 2 w) in
    (
      ground (arith, double, pow-suc 2 w, bit_or_step (high * 2 ^ suc w) low),
      ground (arith, double, pow-suc 2 w, bit_and_step (high * 2 ^ suc w + low) (2 ^ suc w - 1)),
    )

-- `(high << w) | low` is a sum when `low` fits `w` bits.
pub bit_or_fields : (w high low : ℕ) → low < 2 ^ w → bit_or (high * 2 ^ w) low ≡ high * 2 ^ w + low
bit_or_fields w high low h = (split_at w high low h).0

-- A mask of `w` low bits is the remainder by `2 ^ w`.
pub bit_and_mask : (w v : ℕ) → bit_and v (2 ^ w - 1) ≡ v % 2 ^ w
bit_and_mask w v =
    let (ors, ands) = split_at w (v / 2 ^ w) (v % 2 ^ w) (ground (arith, one-le-pow w 2)) in
    ground (arith, one-le-pow w 2)
