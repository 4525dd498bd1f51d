-- ===== src/Mixer/Sample.antt =====
-- `ae_mixer_mix` of core/src/mixer.c against a description of each output sample by itself.
use audio_project.Base.{
  ℕ, zero, suc, ◌≤◌, ◌<◌, List, map, ◌≡◌, refl, ap, ◌∙◌, arith, length, get_elem?, get_or, Option,
  some, replicate, pos, ltb, if◌then◌else◌,
}
use audio_project.Float.{Floats}
use audio_project.Mixer.{Mixer, clamp, mix_frames, mix, apply_master, soft_limit}
use audio_project.Mixer.Loop.{
  mastered, length-apply_master, get_or-apply_master, length-limited, get_or-limited,
}
use audio_project.Mixer.Sum.{Whole, Covers, wanted, sum_from, rounds}

module _ (floats : Floats) where
  open floats use {F, zero_f, one_f, add, mul, tanh}

  -- The inputs that a call mixes, of the `n` that it is given.
  abbrev pub mixed_count : Mixer F → ℕ → ℕ
  mixed_count mixer n = if ltb mixer.max_inputs n then mixer.max_inputs else n

  mixed_count-le : (mixer : Mixer F) (n : ℕ) → mixed_count mixer n ≤ n
  mixed_count-le mixer n = ground arith

  mixed_count-le_max : (mixer : Mixer F) (n : ℕ) → mixed_count mixer n ≤ mixer.max_inputs
  mixed_count-le_max mixer n = ground arith

  -- At most 64 inputs, and a previous volume for each.
  pub record IsValid (mixer : Mixer F) : Type 0 where
    pub few : mixer.max_inputs ≤ 64
    pub prevs : length mixer.prev_volumes ≡ 64

  -- What a call leaves behind.
  pub record Mixed (mixer : Mixer F) (inputs : List (Option (List F))) (volumes : Option (List F))
      (n : ℕ) (mixer' : Mixer F) (output : List F) : Type 0 where
    pub valid : IsValid mixer'
    pub size : length output ≡ 1920
    pub reached : mixer'.master_volume ≡ mixer.master_volume_target
    pub target : mixer'.master_volume_target ≡ mixer.master_volume_target
    pub moved :
        (j : ℕ) (frame : List F)
        → j < mixed_count mixer n
        → get_elem? inputs j ≡ some (some frame)
        → get_or mixer'.prev_volumes j zero_f ≡ clamp floats (wanted floats volumes j)
    pub sample :
        (k : ℕ)
        → k < 1920
        → get_or output k zero_f
          ≡ tanh (
              mastered floats mixer.master_volume mixer.master_volume_target k (
                sum_from floats inputs volumes mixer.prev_volumes (mixed_count mixer n) 0 k zero_f))

  get_or-silence : (m k : ℕ) → get_or (replicate m zero_f) k zero_f ≡ zero_f
  get_or-silence zero k = refl
  get_or-silence (suc m) zero = refl
  get_or-silence (suc m) (suc k) = get_or-silence m k

  -- Called on a valid mixer with at least one input, `suc n` inputs of whole frames in the array and as
  -- many volumes (or none), `ae_mixer_mix` returns without leaving an array. Each sample of the output
  -- is the limiter's value of the sum, over the inputs that are there and that the mixer has room for,
  -- of that input's sample times its ramped volume, under the ramped master volume. The master volume
  -- has then reached its target, each input mixed has the volume it was asked for, brought into the
  -- range from 0 to 1, as its previous one, and the mixer is valid.
  pub mix_samples :
      (mixer : Mixer F) (inputs : List (Option (List F))) (volumes : Option (List F)) (n : ℕ)
      (output : List F)
      → IsValid mixer
      → Whole floats inputs
      → suc n ≤ length inputs
      → Covers floats volumes (suc n)
      → (mixer' : Mixer F) × (output' : List F) × (mix floats
            (some mixer)
            (some inputs)
            volumes
            (pos (suc n))
            (some output)
          ≡ some (some mixer', some output'))
        × Mixed mixer inputs volumes (suc n) mixer' output'
  unfolding mix mix_frames Covers
  mix_samples mixer inputs volumes n output valid whole h covers =
      let count = mixed_count mixer (suc n) in
      let few : count ≤ suc n = mixed_count-le mixer (suc n) in
      let done =
        rounds floats inputs volumes count 0 mixer.prev_volumes (replicate 1920 zero_f) whole
          (λ j p. covers j (omega arith)) (omega arith)
          (omega (arith, mixed_count-le_max mixer (suc n), valid.few)) valid.prevs refl in
      let from = mixer.master_volume in
      let to = mixer.master_volume_target in
      let loud = apply_master floats from to done.output' in
      let size : length loud ≡ 1920 = length-apply_master floats from to done.output' ∙ done.size in
      (
        record mixer { prev_volumes = done.prevs'; master_volume = to },
        map (soft_limit floats) loud,
        rw done.steps refl,
        record {
          valid = record { few = valid.few; prevs = done.room ∙ valid.prevs };
          size = length-limited floats loud ∙ size;
          reached = refl;
          target = refl;
          moved = λ j frame p e. done.moved j frame (omega arith) (omega arith) e;
          sample = λ k p.
              get_or-limited floats k loud (omega arith)
              ∙ ap tanh (
                  get_or-apply_master floats from to k done.output' (omega (arith, done.size))
                  ∙ ap (mastered floats from to k) (
                      done.sample k p
                      ∙ ap (sum_from floats inputs volumes mixer.prev_volumes count 0 k)
                          (get_or-silence 1920 k)));
        },
      )
