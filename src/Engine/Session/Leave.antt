-- ===== src/Engine/Session/Leave.antt =====
-- What leaving a channel in core/src/audio_engine.c ends.
use mathlib.Core.Path.{subst}
use audio_project.Base.{
  ℕ, List, none, some, true, false, ◌≡◌, ◌⊎◌, refl, sym, ap, ◌∙◌, inl, inr, Bool-cases,
  if◌then◌else◌,
}
use audio_project.Opus.{Codec}
use audio_project.Streams.{find_stream}
use audio_project.Streams.Count as Table
use audio_project.Engine.{AeEngine, World, ae_ok}
use audio_project.Engine.Session.{
  leave_channel_body, leave_channel, leave_all_channels, leave_active,
}
use audio_project.Engine.Session.Valid.{Valid, leave_channel_body-Valid}

module _ {F : Type 0} {codec : Codec F} where
  -- No client has a stream, and both counts say so.
  abbrev pub NoStreams : AeEngine codec → Type 0
  NoStreams e =
      (e.table.stream_count ≡ 0)
      × (e.table.active_streams ≡ 0)
      × ((client : ℕ) → find_stream e.table client ≡ none)

  -- The streams of an engine that is in a channel are ended; others are kept.
  abbrev pub Left : AeEngine codec → AeEngine codec → Type 0
  Left e e' =
      ((e.channel.active ≡ true) × NoStreams e') ⊎ (e.channel.active ≡ false) × (e'.table ≡ e.table)

  leave_channel_body-NoStreams :
      (e : AeEngine codec) (world : World) → Valid e world → NoStreams (leave_channel_body e)
  unfolding leave_channel_body
  leave_channel_body-NoStreams e world v =
      let (valid, empty, gone) = Table.destroy_all_lem e.table v.table_valid in
      (empty, valid.published ∙ empty, gone)

  pub leave_active-Left :
      (e : AeEngine codec) (world : World) → Valid e world → Left e (leave_active e)
  unfolding leave_active
  leave_active-Left e world v = elim (Bool-cases e.channel.active) [
    | inl on ↦
        subst (Left e) (ap (λ b. if b then leave_channel_body e else e) (sym on))
          (inl (on, leave_channel_body-NoStreams e world v))
    | inr off ↦
        subst (Left e) (ap (λ b. if b then leave_channel_body e else e) (sym off)) (inr (off, refl))
  ]

  -- `ae_engine_leave_channel` with any name on a valid engine returns AE_OK and leaves the engine valid,
  -- in no channel, not transmitting, and without a stream: both counts are 0 and no client is found.
  -- `ae_engine_leave_all_channels` does the same to an engine that is in a channel, and nothing to another.
  pub leave_channel_ends :
      (e : AeEngine codec) (channel_id : List ℕ) (world : World)
      → Valid e world
      → (e' : AeEngine codec) × (leave_channel (some e) (some channel_id) ≡ (ae_ok, some e'))
        × (leave_all_channels (some e) ≡ some (if e.channel.active then e' else e))
        × Valid e' world
        × (e'.channel.active ≡ false)
        × (e'.transmitting ≡ false)
        × NoStreams e'
  unfolding leave_channel leave_all_channels leave_active leave_channel_body
  leave_channel_ends e channel_id world v = (
    leave_channel_body e,
    refl,
    refl,
    leave_channel_body-Valid e world v,
    refl,
    refl,
    leave_channel_body-NoStreams e world v,
  )
