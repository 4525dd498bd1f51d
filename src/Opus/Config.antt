-- ===== src/Opus/Config.antt =====
-- The settings that `ae_opus_encoder_create` of core/src/opus_codec.c makes.
use audio_project.Base.{
  ℕ, zero, suc, ◌<◌, ◌≤◌, Option, none, some, Bool, true, false, ℤ, pos, negsuc, ◌≢◌, ◌⊎◌, inl, inr,
  ◌≡◌, refl, ap, ◌∙◌, arith, List, [], ◌∷◌,
}
use audio_project.Opus.{
  Codec, Request, set_bitrate, set_complexity, set_signal_music, set_bandwidth_fullband,
  set_inband_fec, set_packet_loss_perc, set_dtx, opus_failed, bitrate_or_default,
  complexity_or_default, configure, encoder_create,
}

-- A value that the caller may ask for is kept, and any other one replaced by `default`.
abbrev pub Chosen : ℤ → ℕ → ℕ → Type 0
Chosen (pos n) default used = (0 < n) × (used ≡ n) ⊎ (n ≡ 0) × (used ≡ default)
Chosen (negsuc n) default used = used ≡ default

bitrate-Chosen : (bitrate : ℤ) → Chosen bitrate 128000 (bitrate_or_default bitrate)
unfolding bitrate_or_default
bitrate-Chosen (pos zero) = inr (refl, refl)
bitrate-Chosen (pos (suc n)) = inl (omega arith, refl)
bitrate-Chosen (negsuc n) = refl

complexity_range :
    (complexity : ℤ)
    → (0 < complexity_or_default complexity) × (complexity_or_default complexity ≤ 10)
unfolding complexity_or_default
complexity_range (pos zero) = (omega arith, omega arith)
complexity_range (pos (suc n)) = ground arith
complexity_range (negsuc n) = (omega arith, omega arith)

complexity_kept : (n : ℕ) → 0 < n → n ≤ 10 → complexity_or_default (pos n) ≡ n
unfolding complexity_or_default
complexity_kept zero h k = absurd (omega arith)
complexity_kept (suc n) h k = ground arith

module _ {F : Type 0} (codec : Codec F) where
  open codec use {Encoder, encoder_ctl}

  -- The requests in turn.
  abbrev pub requested : Encoder → List Request → Encoder
  requested opus [] = opus
  requested opus (r ∷ requests) = requested (encoder_ctl opus r) requests

  abbrev pub Configured : ℤ → ℤ → Encoder → Encoder → Type 0
  Configured bitrate complexity opus ready =
      (b : ℕ) × (c : ℕ) × Chosen bitrate 128000 b
      × (0 < c)
      × (c ≤ 10)
      × ((n : ℕ) → complexity ≡ pos n → 0 < n → n ≤ 10 → c ≡ n)
      × (ready
          ≡ requested opus (
              set_bitrate b
              ∷ set_complexity c
              ∷ set_signal_music
              ∷ set_bandwidth_fullband
              ∷ set_inband_fec 1
              ∷ set_packet_loss_perc 5
              ∷ set_dtx 0
              ∷ []))

  -- For any bit rate and complexity `ae_opus_encoder_create` gives an encoder exactly where its memory
  -- is there and libopus gives one without an error. The encoder has been asked for a positive bit rate,
  -- the caller's or 128000, and for a complexity from 1 to 10, the caller's where it is one, then for
  -- music, the full band, forward error correction at 5 percent of loss, and no gaps in the sending.
  pub encoder_create_lem :
      (bitrate complexity : ℤ) (memory : Bool) (error : ℤ) (answer : Option Encoder)
      → ((opus ready : Encoder) × (answer ≡ some opus)
          × (memory ≡ true)
          × (error ≡ pos 0)
          × (encoder_create codec bitrate complexity memory error answer
              ≡ some (record { opus = some ready }))
          × Configured bitrate complexity opus ready)
        ⊎ (encoder_create codec bitrate complexity memory error answer ≡ none)
          × ((answer ≡ none) ⊎ (memory ≡ false) ⊎ (error ≢ pos 0))
  unfolding encoder_create configure opus_failed
  encoder_create_lem bitrate complexity memory error none = inr (refl, inl refl)
  encoder_create_lem bitrate complexity false error (some opus) = inr (refl, inr (inl refl))
  encoder_create_lem bitrate complexity true (pos zero) (some opus) = inl (
    opus,
    configure codec opus (bitrate_or_default bitrate) (complexity_or_default complexity),
    refl,
    refl,
    refl,
    refl,
    (
      bitrate_or_default bitrate,
      complexity_or_default complexity,
      bitrate-Chosen bitrate,
      (complexity_range complexity).0,
      (complexity_range complexity).1,
      λ n e h k. ap complexity_or_default e ∙ complexity_kept n h k,
      refl,
    ),
  )
  encoder_create_lem bitrate complexity true (pos (suc n)) (some opus) =
      inr (refl, inr (inr (λ e. cc e)))
  encoder_create_lem bitrate complexity true (negsuc n) (some opus) =
      inr (refl, inr (inr (λ e. cc e)))
