-- ===== src/Mixer/Tests.antt =====
-- Runs of the functions of core/src/mixer.c over numbers in place of floats.
use audio_project.Base.{
  ℕ, zero, suc, ◌+◌, ◌-◌, ◌*◌, ◌/◌, List, [], ◌∷◌, ◌≡◌, refl, arith, length, Option, none, some,
  ltb, pos, replicate, if◌then◌else◌, sym, ap, ◌∙◌,
}
use mathlib.Core.Option.{some-injective, none-ne-some}
use audio_project.Float.{Floats}
use audio_project.Mixer.{Mixer, mix, volume_at}
use audio_project.Mixer.Sum.{Whole, Covers, wanted}
use audio_project.Mixer.Sample.{IsValid, Mixed, mix_samples}

-- Numbers, with a limiter that stops at 5.
abbrev numbers : Floats
numbers = record {
  F = ℕ;
  zero_f = 0;
  one_f = 1;
  small_f = 1;
  of_int = λ n. n;
  add = λ a b. a + b;
  sub = λ a b. a - b;
  mul = λ a b. a * b;
  div = λ a b. a / b;
  abs = λ n. n;
  tanh = λ n. if ltb 5 n then 5 else n;
  lt = ltb;
}

abbrev fresh : Mixer ℕ
fresh = record {
  max_inputs = 2;
  master_volume = 1;
  master_volume_target = 1;
  prev_volumes = replicate 64 0;
}

-- A frame, an input that is not there, and one that the mixer has no room for.
abbrev tracks : List (Option (List ℕ))
tracks = some (replicate 1920 3) ∷ none ∷ some (replicate 1920 9) ∷ []

fresh-IsValid : IsValid numbers fresh
fresh-IsValid = record { few = omega arith; prevs = refl }

-- A frame that an array holds at a place is the one put there.
held :
    (frame frame' : List ℕ)
    → length frame ≡ 1920
    → some (some frame) ≡ some (some frame')
    → length frame' ≡ 1920
held frame frame' h e = ap length (some-injective _ _ (some-injective _ _ (sym e))) ∙ h

tracks-Whole : Whole numbers tracks
unfolding Whole
tracks-Whole zero frame e = held (replicate 1920 3) frame refl e
tracks-Whole (suc zero) frame e = absurd (none-ne-some _ (some-injective _ _ e))
tracks-Whole (suc (suc zero)) frame e = held (replicate 1920 9) frame refl e
tracks-Whole (suc (suc (suc i))) frame e = absurd (none-ne-some _ e)

no_volumes : Covers numbers none 3
unfolding Covers volume_at wanted
no_volumes i h = refl

mix_samples_example :
    (mixer' : Mixer ℕ) × (output' : List ℕ) × (mix numbers
        (some fresh)
        (some tracks)
        none
        (pos 3)
        (some [])
      ≡ some (some mixer', some output'))
    × Mixed numbers fresh tracks none 3 mixer' output'
mix_samples_example =
    mix_samples numbers fresh tracks none 2 [] fresh-IsValid tracks-Whole (omega arith) no_volumes
