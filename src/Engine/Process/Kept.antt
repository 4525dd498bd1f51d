-- ===== src/Engine/Process/Kept.antt =====
-- A tick of core/src/audio_engine.c keeps the engine valid.
use mathlib.Core.Option.{some-injective}
use mathlib.Core.Path.{subst₂}
use audio_project.Base.{Option, some, Bool, ◌≡◌, ap, inl, inr, bind-some, if-some, ◌>>=◌}
use audio_project.Float.{Floats}
use audio_project.Opus.{Codec}
use audio_project.Network.{System}
use audio_project.Engine.{AeEngine, World}
use audio_project.Engine.Session.Valid.{Valid, moved_with}
use audio_project.Engine.Capture.{capture_step}
use audio_project.Engine.Capture.Kept.{capture_step-Valid}
use audio_project.Engine.Receive.{receive_step}
use audio_project.Engine.Receive.Kept.{receive_step-Valid}
use audio_project.Engine.Timers.{timers_step}
use audio_project.Engine.Timers as Timers
use audio_project.Engine.Timers.Kept.{timers_step-Valid}
use audio_project.Engine.MixTick.{mix_step}
use audio_project.Engine.MixTick.Kept.{mix_step-Valid}
use audio_project.Engine.Process.{Tick, connected_timers, process_tick, process}

module _ (floats : Floats) (codec : Codec floats.F) where
  open codec use {Decoder}

  connected_timers-Valid :
      (e : AeEngine codec) (is_connected : Bool) (answers : Timers.Answers) (world : World)
      (e' : AeEngine codec) (sys' : System)
      → Valid e world
      → connected_timers floats codec e is_connected answers world.system ≡ some (e', sys')
      → Valid e' (record world { system = sys' })
  unfolding connected_timers
  connected_timers-Valid e is_connected answers world e' sys' v q =
      elim (if-some is_connected _ _ (e', sys') q) [
        | inl (t, h) ↦ timers_step-Valid e answers world e' sys' v h
        | inr (t, h) ↦ moved_with e e' world world.system sys' h v
      ]

  -- A tick that stays within the buffers keeps the engine valid, whatever the sockets, the codec, the
  -- clock and the packets that come in are like.
  pub process_tick-Valid :
      (e : AeEngine codec) (tick : Tick Decoder) (world : World) (e' : AeEngine codec)
      (sys' : System)
      → Valid e world
      → process_tick floats codec e tick world.system ≡ some (e', sys')
      → Valid e' (record world { system = sys' })
  unfolding process_tick
  process_tick-Valid e tick world e' sys' v q =
      let on = e.connected in
      let finish : AeEngine codec × System → Option (AeEngine codec × System) =
        λ r. mix_step floats codec r.0 on tick.now_mix >>= (λ mixed. some (mixed, r.1)) in
      let (p, captured, more) =
        bind-some (capture_step e on tick.capture world.system)
          (λ p.
            receive_step floats codec p.0 on tick.arrivals
            >>= (λ received. connected_timers floats codec received on tick.timers p.1 >>= finish))
          (e', sys') q in
      let (received, got, next) =
        bind-some (receive_step floats codec p.0 on tick.arrivals)
          (λ received. connected_timers floats codec received on tick.timers p.1 >>= finish)
          (e', sys') more in
      let (r, timed, last) =
        bind-some (connected_timers floats codec received on tick.timers p.1) finish (e', sys')
          next in
      let (mixed, played, rest) =
        bind-some (mix_step floats codec r.0 on tick.now_mix) (λ mixed. some (mixed, r.1))
          (e', sys') last in
      moved_with mixed e' world r.1 sys' rest (
        mix_step-Valid floats codec r.0 on tick.now_mix (record world { system = r.1 }) mixed
          (connected_timers-Valid received on tick.timers (record world { system = p.1 }) r.0 r.1
            (receive_step-Valid floats codec p.0 on tick.arrivals (record world { system = p.1 })
              received (capture_step-Valid e on tick.capture world p.0 p.1 v captured) got)
            timed)
          played)

  pub process-Valid :
      (e : AeEngine codec) (tick : Tick Decoder) (world : World) (e' : AeEngine codec)
      (world' : World)
      → Valid e world
      → process floats codec (some e) tick world ≡ some (some e', world')
      → Valid e' world'
  unfolding process
  process-Valid e tick world e' world' v q =
      let finish : AeEngine codec × System → Option (Option (AeEngine codec) × World) =
        λ p. some (some p.0, record world { system = p.1 }) in
      let (p, ticked, rest) =
        bind-some (process_tick floats codec e tick world.system) finish (some e', world') q in
      let same = some-injective _ _ rest in
      subst₂ Valid (some-injective _ _ (ap (λ r. r.0) same)) (ap (λ r. r.1) same)
        (process_tick-Valid e tick world p.0 p.1 v ticked)
