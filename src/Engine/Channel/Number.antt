-- ===== src/Engine/Channel/Number.antt =====
-- The number of a channel that the server calls "channel-N" in core/src/audio_engine.c.
use native.Mathlib.Nat.{pow-suc}
use audio_project.Base.{
  ℕ, ◌+◌, ◌-◌, ◌*◌, ◌^◌, ◌<◌, ◌≤◌, List, [], ◌∷◌, ◌++◌, none, some, true, false, length, lt→ltb,
  ◌==◌, ◌≡◌, refl, sym, ap, ◌∙◌, arith,
}
use audio_project.Engine.Channel.{
  dash, is_digit, after_dash, digits_from, atoi, starts_with_digit, channel_str_to_id,
}

-- Characters from '0' to '9'.
pub data AllDigits : List ℕ → Type 0 where
  nothing : AllDigits []
  digit : {c : ℕ} {str : List ℕ} → 48 ≤ c → c ≤ 57 → AllDigits str → AllDigits (c ∷ str)

-- The number that digits stand for, the first one with the largest power of 10.
abbrev pub decimal : List ℕ → ℕ
decimal [] = 0
decimal (c ∷ str) = (c - 48) * 10 ^ length str + decimal str

digit_lem : (c : ℕ) → 48 ≤ c → c ≤ 57 → is_digit c ≡ true
unfolding is_digit
digit_lem c a b = ground arith

digit_added : (n d p r : ℕ) → (n * 10 + d) * p + r ≡ n * (p * 10) + (d * p + r)
digit_added n d p r = grind arith

digits_from_lem :
    (n : ℕ) (str : List ℕ) → AllDigits str → digits_from n str ≡ n * 10 ^ length str + decimal str
unfolding digits_from
digits_from_lem n [] nothing = omega arith
digits_from_lem n (c ∷ str) (digit a b ds) =
    rw (digits_from, digit_lem c a b)
      (digits_from_lem (n * 10 + (c - 48)) str ds
        ∙ digit_added n (c - 48) (10 ^ length str) (decimal str)
        ∙ ap (λ p. n * p + decimal (c ∷ str)) (sym (pow-suc 10 (length str))))

-- No dash among digits.
no_dash : (str : List ℕ) → AllDigits str → after_dash str ≡ none
unfolding after_dash
no_dash [] nothing = refl
no_dash (c ∷ str) (digit a b ds) =
    let other : (c == dash) ≡ false = ground arith in rw (after_dash, no_dash str ds, other) refl

last_dash : (prefix str : List ℕ) → AllDigits str → after_dash (prefix ++ (dash ∷ str)) ≡ some str
unfolding after_dash
last_dash [] str ds = rw (after_dash, no_dash str ds) refl
last_dash (c ∷ prefix) str ds = rw (after_dash, last_dash prefix str ds) refl

-- A name that ends in a dash and the decimal digits of a number of an `int`, as "channel-12" does, has
-- that number, whatever stands in front, other dashes included.
pub channel_str_to_id-decimal :
    (prefix : List ℕ) (c : ℕ) (str : List ℕ)
    → AllDigits (c ∷ str)
    → decimal (c ∷ str) < 2 ^ 31
    → channel_str_to_id (some (prefix ++ (dash ∷ c ∷ str))) ≡ some (decimal (c ∷ str))
unfolding channel_str_to_id atoi starts_with_digit
channel_str_to_id-decimal prefix c str (digit a b ds) small =
    let read : digits_from 0 (c ∷ str) ≡ decimal (c ∷ str) =
      digits_from_lem 0 (c ∷ str) (digit a b ds) ∙ omega arith in
    rw
      (
        channel_str_to_id,
        last_dash prefix (c ∷ str) (digit a b ds),
        starts_with_digit,
        digit_lem c a b,
        atoi,
        read,
        lt→ltb (decimal (c ∷ str)) (2 ^ 31) small,
      )
      refl
