-- ===== src/Engine/Channel.antt =====
-- `channel_str_to_id` of core/src/audio_engine.c. A string is the list of its characters, as numbers
-- from 1 to 255, without the terminator; a `char` is signed, as on x86. `none` is an `atoi` of a number
-- that an `int` does not hold, which C leaves undefined.
pub mod Number
use audio_project.Base.{
  ℕ, zero, suc, ◌+◌, ◌-◌, ◌*◌, ◌%◌, ◌^◌, List, [], ◌∷◌, Option, none, some, Bool, true, false, ◌&&◌,
  leb, ltb, ◌==◌, if◌then◌else◌,
}

-- '-'
abbrev pub dash : ℕ
dash = 45

pub is_digit : ℕ → Bool
is_digit c = leb 48 c && leb c 57

-- `strrchr(str, '-')`: what stands behind the last dash.
pub after_dash : List ℕ → Option (List ℕ)
after_dash [] = none
after_dash (c ∷ str) =
    let here = if c == dash then some str else none in
    elim (after_dash str) [ none ↦ here | some rest ↦ some rest ]

-- The digits that `atoi` reads, behind the value `n` of those before them.
pub digits_from : ℕ → List ℕ → ℕ
digits_from n [] = n
digits_from n (c ∷ str) =
    let rest = digits_from (n * 10 + (c - 48)) str in if is_digit c then rest else n

pub atoi : List ℕ → Option ℕ
atoi str = let n = digits_from 0 str in if ltb n (2 ^ 31) then some n else none

-- `(uint32_t)*p`
pub char_value : ℕ → ℕ
char_value c = if ltb c 128 then c else 2 ^ 32 - 256 + c

-- The loop of the hash: `h = ((h << 5) + h) + (uint32_t)*p`.
pub hash_from : ℕ → List ℕ → ℕ
hash_from h [] = h
hash_from h (c ∷ str) = hash_from ((h * 2 ^ 5 % 2 ^ 32 + h + char_value c) % 2 ^ 32) str

-- The test on the character behind the dash.
pub starts_with_digit : List ℕ → Bool
starts_with_digit [] = false
starts_with_digit (c ∷ str) = is_digit c

pub channel_str_to_id : Option (List ℕ) → Option ℕ
channel_str_to_id none = some 0
channel_str_to_id (some str) = elim (after_dash str) [
  | none ↦ some (hash_from 5381 str)
  | some rest ↦
      let number = atoi rest in if starts_with_digit rest then number else some (hash_from 5381 str)
]
