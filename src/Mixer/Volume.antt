-- ===== src/Mixer/Volume.antt =====
-- The volumes of core/src/mixer.c: clamping, the master volume, and the range of what is mixed.
use audio_project.Base.{
  ◌≡◌, refl, arith, some, true, false, Bool-cases, inl, inr, ℤ, length-replicate, if◌then◌else◌,
}
use audio_project.Float.{Floats}
use audio_project.Mixer.{Mixer, clamp, create, set_master_volume, get_master_volume, max_mixed}
use audio_project.Mixer.Sample.{IsValid}

module _ (floats : Floats) where
  open floats use {F, zero_f, one_f, lt}

  clamp_cases :
      (volume : F)
      → lt one_f zero_f ≡ false
      → clamp floats volume
        ≡ (if lt volume zero_f then zero_f else (if lt one_f volume then one_f else volume))
  unfolding clamp
  clamp_cases volume oz = elim (Bool-cases (lt volume zero_f)) [
    | inl q ↦ rw (q, oz) refl
    | inr q ↦ rw q refl
  ]

  clamp_range :
      (volume : F)
      → lt zero_f zero_f ≡ false
      → lt one_f one_f ≡ false
      → lt one_f zero_f ≡ false
      → (lt (clamp floats volume) zero_f ≡ false) × (lt one_f (clamp floats volume) ≡ false)
  unfolding clamp
  clamp_range volume zz oo oz = elim (Bool-cases (lt volume zero_f)) [
    | inl q ↦ rw (q, oz) (zz, oz)
    | inr q ↦ elim (Bool-cases (lt one_f volume)) [
      | inl r ↦ rw (q, r) (oz, oo)
      | inr r ↦ rw (q, r) (q, r)
    ]
  ]

  -- Where neither 0 is below 0, nor 1 below 1, nor 1 below 0, the master volume that is read back is
  -- the one set, with 0 in place of what is below 0 and 1 in place of what is above 1, and it is itself
  -- neither below 0 nor above 1. Nothing else of the mixer changes.
  pub set-get_master_volume :
      (mixer : Mixer F) (volume : F)
      → lt zero_f zero_f ≡ false
      → lt one_f one_f ≡ false
      → lt one_f zero_f ≡ false
      → (got : F) × (set_master_volume floats (some mixer) volume
          ≡ some (record mixer { master_volume_target = got }))
        × (get_master_volume floats (set_master_volume floats (some mixer) volume) ≡ got)
        × (got ≡ (if lt volume zero_f then zero_f else (if lt one_f volume then one_f else volume)))
        × (lt got zero_f ≡ false)
        × (lt one_f got ≡ false)
  unfolding set_master_volume get_master_volume
  set-get_master_volume mixer volume zz oo oz =
      let (low, high) = clamp_range volume zz oo oz in
      (clamp floats volume, refl, refl, clamp_cases volume oz, low, high)

  -- Whatever number of inputs is asked for, a new mixer is valid, and its master volume is 1.
  pub fresh_mixer :
      (wanted : ℤ)
      → (mixer : Mixer F) × (create floats true wanted ≡ some mixer)
        × IsValid floats mixer
        × (get_master_volume floats (some mixer) ≡ one_f)
  unfolding create get_master_volume
  fresh_mixer wanted =
      (_, refl, record { few = ground arith; prevs = length-replicate max_mixed zero_f }, refl)
