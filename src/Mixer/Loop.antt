-- ===== src/Mixer/Loop.antt =====
-- The loops over the samples in core/src/mixer.c, one sample at a time.
use audio_project.Base.{
  ltb, ℕ, zero, suc, ◌+◌, ◌<◌, List, [], ◌∷◌, map, ◌≡◌, refl, ap, ◌∙◌, arith, length, get_or,
  if◌then◌else◌, Bool-cases, inl, inr,
}
use audio_project.Float.{Floats}
use audio_project.Mixer.{accumulate, scale, ramp, near, add_input, apply_master, soft_limit}

module _ (floats : Floats) where
  open floats use {F, zero_f, one_f, small_f, of_int, add, sub, mul, div, abs, tanh, lt}

  pub length-accumulate :
      (s : ℕ) (volume : ℕ → F) (input output : List F)
      → length (accumulate floats s volume input output) ≡ length output
  unfolding accumulate
  length-accumulate s volume [] output = refl
  length-accumulate s volume (x ∷ input) [] = refl
  length-accumulate s volume (x ∷ input) (o ∷ output) =
      ap suc (length-accumulate (s + 1) volume input output)

  get_or-accumulate :
      (s k : ℕ) (volume : ℕ → F) (input output : List F)
      → length input ≡ length output
      → k < length output
      → get_or (accumulate floats s volume input output) k zero_f
        ≡ add (get_or output k zero_f) (mul (get_or input k zero_f) (volume (s + k)))
  unfolding accumulate
  get_or-accumulate s k volume [] [] e h = absurd (omega arith)
  get_or-accumulate s k volume [] (o ∷ output) e h = absurd (omega arith)
  get_or-accumulate s k volume (x ∷ input) [] e h = absurd (omega arith)
  get_or-accumulate s zero volume (x ∷ input) (o ∷ output) e h =
      ap (λ t. add o (mul x (volume t))) (omega arith)
  get_or-accumulate s (suc k) volume (x ∷ input) (o ∷ output) e h =
      get_or-accumulate (s + 1) k volume input output (omega arith) (omega arith)
      ∙ ap (λ t. add (get_or output k zero_f) (mul (get_or input k zero_f) (volume t)))
          (omega arith)

  length-scale :
      (s : ℕ) (volume : ℕ → F) (output : List F)
      → length (scale floats s volume output) ≡ length output
  unfolding scale
  length-scale s volume [] = refl
  length-scale s volume (o ∷ output) = ap suc (length-scale (s + 1) volume output)

  get_or-scale :
      (s k : ℕ) (volume : ℕ → F) (output : List F)
      → k < length output
      → get_or (scale floats s volume output) k zero_f
        ≡ mul (get_or output k zero_f) (volume (s + k))
  unfolding scale
  get_or-scale s k volume [] h = absurd (omega arith)
  get_or-scale s zero volume (o ∷ output) h = ap (λ t. mul o (volume t)) (omega arith)
  get_or-scale s (suc k) volume (o ∷ output) h =
      get_or-scale (s + 1) k volume output (omega arith)
      ∙ ap (λ t. mul (get_or output k zero_f) (volume t)) (omega arith)

  -- The volume at sample `k` of a frame on the way from one volume to another: the sample's share of the
  -- straight line over the first 480 samples, 240 of each channel, and the new volume behind them.
  unfoldable pub linear : F → F → ℕ → F
  linear from to k =
      if ltb k 480 then add from (mul (sub to from) (div (of_int k) (of_int 480))) else to

  ramp-linear : (from to : F) (k : ℕ) → ramp floats from to k ≡ linear from to k
  unfolding ramp linear
  ramp-linear from to k = refl

  -- The volume that an input has at sample `k`.
  unfoldable pub gain : F → F → ℕ → F
  gain from to k = if near floats from to then to else linear from to k

  pub length-add_input :
      (from to : F) (input output : List F)
      → length (add_input floats from to input output) ≡ length output
  unfolding add_input
  length-add_input from to input output = elim (Bool-cases (near floats from to)) [
    | inl q ↦ rw q (length-accumulate 0 _ input output)
    | inr q ↦ rw q (length-accumulate 0 _ input output)
  ]

  pub get_or-add_input :
      (from to : F) (k : ℕ) (input output : List F)
      → length input ≡ length output
      → k < length output
      → get_or (add_input floats from to input output) k zero_f
        ≡ add (get_or output k zero_f) (mul (get_or input k zero_f) (gain from to k))
  unfolding add_input gain
  get_or-add_input from to k input output e h =
      let at : 0 + k ≡ k = omega arith in
      elim (Bool-cases (near floats from to)) [
        | inl q ↦ rw q (get_or-accumulate 0 k _ input output e h)
        | inr q ↦ rw q (
            get_or-accumulate 0 k _ input output e h
            ∙ ap
                (λ t.
                  add (get_or output k zero_f)
                    (mul (get_or input k zero_f) (ramp floats from to t)))
                at
            ∙ ap (λ t. add (get_or output k zero_f) (mul (get_or input k zero_f) t))
                (ramp-linear from to k))
      ]

  -- What the master volume makes of a sample.
  unfoldable pub mastered : F → F → ℕ → F → F
  mastered from to k x =
      if near floats from to
      then if lt small_f (abs (sub to one_f)) then mul x to else x
      else mul x (linear from to k)

  pub length-apply_master :
      (from to : F) (output : List F) → length (apply_master floats from to output) ≡ length output
  unfolding apply_master
  length-apply_master from to output = elim (Bool-cases (near floats from to)) [
    | inl q ↦ elim (Bool-cases (lt small_f (abs (sub to one_f)))) [
      | inl r ↦ rw (q, r) (length-scale 0 _ output)
      | inr r ↦ rw (q, r) refl
    ]
    | inr q ↦ rw q (length-scale 0 _ output)
  ]

  pub get_or-apply_master :
      (from to : F) (k : ℕ) (output : List F)
      → k < length output
      → get_or (apply_master floats from to output) k zero_f
        ≡ mastered from to k (get_or output k zero_f)
  unfolding apply_master mastered
  get_or-apply_master from to k output h =
      let at : 0 + k ≡ k = omega arith in
      elim (Bool-cases (near floats from to)) [
        | inl q ↦ elim (Bool-cases (lt small_f (abs (sub to one_f)))) [
          | inl r ↦ rw (q, r) (get_or-scale 0 k _ output h)
          | inr r ↦ rw (q, r) refl
        ]
        | inr q ↦ rw q (
            get_or-scale 0 k _ output h
            ∙ ap (λ t. mul (get_or output k zero_f) (ramp floats from to t)) at
            ∙ ap (mul (get_or output k zero_f)) (ramp-linear from to k))
      ]

  pub length-limited : (output : List F) → length (map (soft_limit floats) output) ≡ length output
  length-limited [] = refl
  length-limited (o ∷ output) = ap suc (length-limited output)

  pub get_or-limited :
      (k : ℕ) (output : List F)
      → k < length output
      → get_or (map (soft_limit floats) output) k zero_f ≡ tanh (get_or output k zero_f)
  unfolding soft_limit
  get_or-limited k [] h = absurd (omega arith)
  get_or-limited zero (o ∷ output) h = refl
  get_or-limited (suc k) (o ∷ output) h = get_or-limited k output (omega arith)
