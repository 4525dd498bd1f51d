-- ===== src/Mixer.antt =====
-- core/src/mixer.h and core/src/mixer.c. The float operations are a parameter. A frame is the list of
-- its AE_FRAME_SIZE * AE_CHANNELS samples. A pointer that may be NULL is an `Option`, an `int` argument
-- is a `ℤ`, and an outer `none` of `mix` is a read behind the end of `inputs` or `volumes`.
pub mod Loop
pub mod Sum
pub mod Sample
pub mod Volume
mod Tests
use audio_project.Base.{
  ℕ, zero, suc, ◌+◌, ◌*◌, List, [], ◌∷◌, map, Option, none, some, Bool, true, false, ℤ, pos,
  positive?, ltb, if◌then◌else◌, get_elem?, get_or, set, replicate, ◌>>=◌,
}
use audio_project.Float.{Floats}

-- AE_MIXER_MAX_INPUTS, which is AE_MAX_USERS_PER_CH.
abbrev pub max_mixed : ℕ
max_mixed = 64

-- The samples of a frame: AE_FRAME_SIZE * AE_CHANNELS.
abbrev pub total_samples : ℕ
total_samples = 960 * 2

-- `ramp_len`: AE_RAMP_SAMPLES * AE_CHANNELS.
abbrev pub ramp_len : ℕ
ramp_len = 240 * 2

-- `struct ae_mixer`
pub record Mixer (F : Type 0) : Type 0 where
  pub max_inputs : ℕ
  pub master_volume : F
  pub master_volume_target : F
  pub prev_volumes : List F

module _ (floats : Floats) where
  open floats use {F, zero_f, one_f, small_f, of_int, add, sub, mul, div, abs, tanh, lt}

  -- The flag says whether the `calloc` succeeds.
  pub create : Bool → ℤ → Option (Mixer F)
  create memory max_inputs =
      let wanted : ℕ = elim (positive? max_inputs) [ none ↦ max_mixed | some n ↦ n ] in
      if memory
      then some (record {
        max_inputs = if ltb max_mixed wanted then max_mixed else wanted;
        master_volume = one_f;
        master_volume_target = one_f;
        prev_volumes = replicate max_mixed zero_f;
      })
      else none

  -- The two tests that bring a volume into the range from 0 to 1.
  pub clamp : F → F
  clamp volume =
      let raised = if lt volume zero_f then zero_f else volume in
      if lt one_f raised then one_f else raised

  -- `fabsf(a - b) < 1e-6f`
  abbrev pub near : F → F → Bool
  near a b = lt (abs (sub a b)) small_f

  -- The volume at sample `s` of a ramp.
  pub ramp : F → F → ℕ → F
  ramp from to s =
      if ltb s ramp_len then add from (mul (sub to from) (div (of_int s) (of_int ramp_len))) else to

  -- `output[s] += input[s] * vol` from sample `s` on.
  pub accumulate : ℕ → (ℕ → F) → List F → List F → List F
  accumulate s volume (x ∷ input) (o ∷ output) =
      add o (mul x (volume s)) ∷ accumulate (s + 1) volume input output
  accumulate s volume input output = output

  -- `output[s] *= vol` from sample `s` on.
  pub scale : ℕ → (ℕ → F) → List F → List F
  scale s volume [] = []
  scale s volume (o ∷ output) = mul o (volume s) ∷ scale (s + 1) volume output

  -- One input that is there, with its volumes.
  pub add_input : F → F → List F → List F → List F
  add_input from to input output =
      if near from to
      then accumulate 0 (λ s. to) input output
      else accumulate 0 (ramp from to) input output

  -- `volumes ? volumes[i] : 1.0f`
  pub volume_at : Option (List F) → ℕ → Option F
  volume_at none i = some one_f
  volume_at (some volumes) i = get_elem? volumes i

  -- The body of the loop over the inputs: the previous volumes and the output after round `i`.
  pub mix_input :
      List (Option (List F)) → Option (List F) → ℕ → List F × List F → Option (List F × List F)
  mix_input inputs volumes i (prevs, output) = elim (get_elem? inputs i) [
    | none ↦ none
    | some none ↦ some (prevs, output)
    | some (some input) ↦ do
      wanted ← volume_at volumes i
      let from = if ltb i max_mixed then get_or prevs i zero_f else zero_f
      let to = clamp wanted
      some (if ltb i max_mixed then set prevs i to else prevs, add_input from to input output)
  ]

  -- The loop over the inputs from round `i` on, with `left` rounds to go.
  pub mix_inputs :
      List (Option (List F)) → Option (List F) → ℕ → ℕ → List F × List F → Option (List F × List F)
  mix_inputs inputs volumes zero i state = some state
  mix_inputs inputs volumes (suc left) i state = do
    state' ← mix_input inputs volumes i state
    mix_inputs inputs volumes left (i + 1) state'

  pub apply_master : F → F → List F → List F
  apply_master from to output =
      if near from to
      then if lt small_f (abs (sub to one_f)) then scale 0 (λ s. to) output else output
      else scale 0 (ramp from to) output

  -- `soft_limit`
  pub soft_limit : F → F
  soft_limit sample = tanh sample

  -- The body of `ae_mixer_mix` for at least one input: the mixer and the output after the call.
  pub mix_frames :
      Mixer F → List (Option (List F)) → Option (List F) → ℕ → Option (Mixer F × List F)
  mix_frames mixer inputs volumes n_inputs = do
    let n = if ltb mixer.max_inputs n_inputs then mixer.max_inputs else n_inputs
    (prevs, sum) ←
        mix_inputs inputs volumes n 0 (mixer.prev_volumes, replicate total_samples zero_f)
    some (
      record mixer { prev_volumes = prevs; master_volume = mixer.master_volume_target },
      map soft_limit (apply_master mixer.master_volume mixer.master_volume_target sum),
    )

  pub mix :
      Option (Mixer F)
      → Option (List (Option (List F)))
      → Option (List F)
      → ℤ
      → Option (List F)
      → Option (Option (Mixer F) × Option (List F))
  mix none inputs volumes n_inputs output = some (none, output)
  mix (some mixer) inputs volumes n_inputs none = some (some mixer, none)
  mix (some mixer) (some inputs) volumes (pos (suc n)) (some output) = do
    (mixer', mixed) ← mix_frames mixer inputs volumes (suc n)
    some (some mixer', some mixed)
  mix (some mixer) inputs volumes n_inputs (some output) =
      some (some mixer, some (replicate total_samples zero_f))

  pub set_master_volume : Option (Mixer F) → F → Option (Mixer F)
  set_master_volume none volume = none
  set_master_volume (some mixer) volume =
      some (record mixer { master_volume_target = clamp volume })

  pub get_master_volume : Option (Mixer F) → F
  get_master_volume none = zero_f
  get_master_volume (some mixer) = mixer.master_volume_target
