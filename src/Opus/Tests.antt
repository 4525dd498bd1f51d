-- ===== src/Opus/Tests.antt =====
-- Runs of core/src/opus_codec.c.
use audio_project.Base.{ℕ, List, [], some, none, true, Option, pos, ◌⊎◌, ◌≡◌, ◌≢◌, false}
use audio_project.Samples.{toy_codec}
use audio_project.Opus.{Request, encoder_create}
use audio_project.Opus.Config.{Configured, encoder_create_lem}

abbrev new_encoder : Option (List Request)
new_encoder = some []

encoder_create_lem_example :
    ((opus ready : List Request) × (new_encoder ≡ some opus)
      × (true ≡ true)
      × (pos 0 ≡ pos 0)
      × (encoder_create (toy_codec ℕ) (pos 64000) (pos 11) true (pos 0) new_encoder
          ≡ some (record { opus = some ready }))
      × Configured (toy_codec ℕ) (pos 64000) (pos 11) opus ready)
    ⊎ (encoder_create (toy_codec ℕ) (pos 64000) (pos 11) true (pos 0) new_encoder ≡ none)
      × ((new_encoder ≡ none) ⊎ (true ≡ false) ⊎ (pos 0 ≢ pos 0))
encoder_create_lem_example =
    encoder_create_lem (toy_codec ℕ) (pos 64000) (pos 11) true (pos 0) new_encoder
