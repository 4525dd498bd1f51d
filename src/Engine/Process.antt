-- ===== src/Engine/Process.antt =====
-- `ae_engine_process` of core/src/audio_engine.c, its four steps in turn.
pub mod Kept
use audio_project.Base.{ℕ, List, Option, none, some, Bool, if◌then◌else◌, ◌>>=◌}
use audio_project.Float.{Floats}
use audio_project.Opus.{Codec}
use audio_project.Network.{System}
use audio_project.Engine.{AeEngine, World}
use audio_project.Engine.Capture.{capture_step}
use audio_project.Engine.Capture as Capture
use audio_project.Engine.Receive.{Arrival, receive_step}
use audio_project.Engine.Timers.{timers_step}
use audio_project.Engine.Timers as Timers
use audio_project.Engine.MixTick.{mix_step}

-- What a tick meets: the answers to each of its steps.
pub record Tick (D : Type 0) : Type 0 where
  pub capture : Capture.Answers
  pub arrivals : ℕ → Arrival D
  pub timers : Timers.Answers
  pub now_mix : ℕ

module _ (floats : Floats) (codec : Codec floats.F) where
  open codec use {Decoder}

  -- Step 3 is taken while connected.
  pub connected_timers :
      AeEngine codec → Bool → Timers.Answers → System → Option (AeEngine codec × System)
  connected_timers e is_connected answers sys =
      let timed = timers_step e answers sys in if is_connected then timed else some (e, sys)

  -- `is_connected` is loaded once, at the start.
  pub process_tick : AeEngine codec → Tick Decoder → System → Option (AeEngine codec × System)
  process_tick e tick sys = do
    let is_connected = e.connected
    (e', sys') ← capture_step e is_connected tick.capture sys
    received ← receive_step floats codec e' is_connected tick.arrivals
    (timed, sys'') ← connected_timers received is_connected tick.timers sys'
    mixed ← mix_step floats codec timed is_connected tick.now_mix
    some (mixed, sys'')

  pub process :
      Option (AeEngine codec) → Tick Decoder → World → Option (Option (AeEngine codec) × World)
  process none tick world = some (none, world)
  process (some e) tick world = do
    (e', sys') ← process_tick e tick world.system
    some (some e', record world { system = sys' })
