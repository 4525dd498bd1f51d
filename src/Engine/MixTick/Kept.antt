-- ===== src/Engine/MixTick/Kept.antt =====
-- What the mixing step of core/src/audio_engine.c keeps.
use mathlib.Core.Path.{subst, subst₂}
use audio_project.Base.{
  ℕ, zero, suc, ◌+◌, List, [], ◌∷◌, map, Option, none, some, Bool, ◌&&◌, ℤ, pos, negsuc, ltb, ◌≡◌,
  refl, sym, inl, inr, bind-some, if-some, Option-cases, Bool-cases, get_elem?, get_or, set, take,
  replicate, if◌then◌else◌,
}
use audio_project.Float.{Floats}
use audio_project.Opus.{Codec, OpusDecoder}
use audio_project.Jitter.{Jitter}
use audio_project.Jitter as Buffer
use audio_project.Mixer.{mix, Mixer}
use audio_project.Ring as Ring
use audio_project.Streams.{Stream, destroy_stream}
use audio_project.Streams.Count as Table
use audio_project.Streams.Update.{updated-IsValid}
use audio_project.Engine.{AeEngine, World, frame_samples}
use audio_project.Engine.Session.Valid.{Valid, moved, table-Valid}
use audio_project.Engine.Timers.{elapsed}
use audio_project.Engine.Capture.{given_back}
use audio_project.Engine.MixTick.{
  count_of, conceal, after_pop, take_frame, Collected, collect, visit_active, has_jitter, visit,
  visit_from, play, mix_collected, mix_step,
}

module _ (floats : Floats) (codec : Codec floats.F) where
  open floats use {F, zero_f}
  open codec use {Decoder}

  conceal_same :
      (s : Stream F (OpusDecoder Decoder)) (silence_ms : ℕ) (frame : List F)
      → ((conceal floats codec s silence_ms frame).stream.active ≡ s.active)
        × ((conceal floats codec s silence_ms frame).stream.client_id ≡ s.client_id)
  unfolding conceal
  conceal_same s silence_ms frame = elim (Option-cases s.decoder) [
    | inl q ↦ simp (conceal, q) (refl, refl)
    | inr (dec, q) ↦ elim (Bool-cases (ltb silence_ms 200)) [
      | inl t ↦ simp (conceal, q, t) (refl, refl)
      | inr t ↦ simp (conceal, q, t) (refl, refl)
    ]
  ]

  after_pop_same :
      (s : Stream F (OpusDecoder Decoder)) (silence_ms : ℕ) (frame : List F)
      (popped : ℤ × Option (List F) × Option (Jitter F))
      → ((after_pop floats codec s silence_ms frame popped).stream.active ≡ s.active)
        × ((after_pop floats codec s silence_ms frame popped).stream.client_id ≡ s.client_id)
  unfolding after_pop
  after_pop_same s silence_ms frame (pos n, frame', jitter') = (refl, refl)
  after_pop_same s silence_ms frame (negsuc n, frame', jitter') =
      conceal_same (record s { jitter = jitter' }) silence_ms (given_back frame' frame)

  -- A frame that is taken leaves the stream with its client.
  pub take_frame_same :
      (s : Stream F (OpusDecoder Decoder)) (silence_ms : ℕ) (frame : List F)
      → ((take_frame floats codec s silence_ms frame).stream.active ≡ s.active)
        × ((take_frame floats codec s silence_ms frame).stream.client_id ≡ s.client_id)
  unfolding take_frame
  take_frame_same s silence_ms frame =
      after_pop_same s silence_ms frame (Buffer.pop floats s.jitter (some frame))

  visit_active-Valid :
      (e : AeEngine codec) (volumes : List F) (i : ℕ) (s : Stream F (OpusDecoder Decoder)) (now : ℕ)
      (world : World)
      → get_elem? e.table.streams i ≡ some s
      → Valid e world
      → Valid (visit_active floats codec e volumes i s now).0 world
  unfolding visit_active collect
  visit_active-Valid e volumes i s now world found v =
      let silence_ms = elapsed now s.last_recv_ms in
      let taken =
        take_frame floats codec s silence_ms (get_or e.stream_frames (count_of volumes) []) in
      let ended : AeEngine codec = record e { table = destroy_stream e.table (some i) } in
      let choose : Bool → Bool → Collected floats codec = λ b c.
        if b
        then (ended, volumes)
        else if c
        then (e, volumes)
        else collect floats codec e volumes i taken in
      elim (Bool-cases (ltb 5000 silence_ms)) [
        | inl q ↦
            subst (λ b. Valid (choose b (ltb 500 silence_ms)).0 world) (sym q)
              (table-Valid e (destroy_stream e.table (some i)) world
                (Table.destroy_stream-IsValid e.table i v.table_valid) v)
        | inr q ↦ elim (Bool-cases (ltb 500 silence_ms)) [
          | inl r ↦ subst₂ (λ b c. Valid (choose b c).0 world) (sym q) (sym r) v
          | inr r ↦
              subst₂ (λ b c. Valid (choose b c).0 world) (sym q) (sym r)
                (table-Valid e (record (e.table) { streams = set e.table.streams i taken.stream })
                  world
                  (updated-IsValid e.table i s taken.stream found
                    (take_frame_same s silence_ms (get_or e.stream_frames (count_of volumes) [])).0
                    v.table_valid)
                  v)
        ]
      ]

  visit-Valid :
      (now i : ℕ) (state : Collected floats codec) (world : World)
      → Valid state.0 world
      → Valid (visit floats codec now i state).0 world
  unfolding visit
  visit-Valid now i (e, volumes) world v =
      let choose : Stream F (OpusDecoder Decoder) → Bool → Collected floats codec =
        λ s b. if b then visit_active floats codec e volumes i s now else (e, volumes) in
      let at : Option (Stream F (OpusDecoder Decoder)) → Collected floats codec =
        λ o. elim o [ none ↦ (e, volumes) | some s ↦ choose s (s.active && has_jitter s.jitter) ] in
      elim (Option-cases (get_elem? e.table.streams i)) [
        | inl q ↦ subst (λ o. Valid (at o).0 world) (sym q) v
        | inr (s, q) ↦
            subst (λ o. Valid (at o).0 world) (sym q)
              (elim (Bool-cases (s.active && has_jitter s.jitter)) [
                | inl t ↦
                    subst (λ b. Valid (choose s b).0 world) (sym t)
                      (visit_active-Valid e volumes i s now world q v)
                | inr t ↦ subst (λ b. Valid (choose s b).0 world) (sym t) v
              ])
      ]

  visit_from-Valid :
      (now left i : ℕ) (state : Collected floats codec) (world : World)
      → Valid state.0 world
      → Valid (visit_from floats codec now left i state).0 world
  unfolding visit_from
  visit_from-Valid now zero i state world v = v
  visit_from-Valid now (suc left) i state world v =
      visit_from-Valid now left (i + 1) (visit floats codec now i state) world
        (visit-Valid now i state world v)

  play-Valid :
      (e : AeEngine codec) (output : List F) (world : World) (e' : AeEngine codec)
      → Valid e world
      → play floats codec e output ≡ some e'
      → Valid e' world
  unfolding play
  play-Valid e output world e' v q =
      let after : ℕ × Option (Ring.RingBuf F) → AeEngine codec =
        λ p. record e { mix_output = output; playback_ring = p.1 } in
      let (p, written, rest) =
        bind-some (Ring.write e.playback_ring (some output) (pos 960)) (λ p. some (after p)) e' q in
      moved (after p) e' world rest v

  mix_collected-Valid :
      (e : AeEngine codec) (volumes : List F) (is_connected : Bool) (world : World)
      (e' : AeEngine codec)
      → Valid e world
      → mix_collected floats codec e volumes is_connected ≡ some e'
      → Valid e' world
  unfolding mix_collected
  mix_collected-Valid e [] is_connected world e' v q =
      elim (if-some (is_connected && e.channel.active) _ _ e' q) [
        | inl (t, h) ↦ play-Valid e (replicate frame_samples zero_f) world e' v h
        | inr (t, h) ↦ moved e e' world h v
      ]
  mix_collected-Valid e (x ∷ volumes) is_connected world e' v q =
      let n = count_of (x ∷ volumes) in
      let mixed : Option (Mixer F) → AeEngine codec = λ m. record e { mixer = m } in
      let (p, made, rest) =
        bind-some
          (mix floats e.mixer (some (map some (take n e.stream_frames))) (some (x ∷ volumes))
            (pos n) (some e.mix_output))
          (λ p. play floats codec (mixed p.0) (given_back p.1 e.mix_output)) e' q in
      play-Valid (mixed p.0) (given_back p.1 e.mix_output) world e' v rest

  pub mix_step-Valid :
      (e : AeEngine codec) (is_connected : Bool) (now : ℕ) (world : World) (e' : AeEngine codec)
      → Valid e world
      → mix_step floats codec e is_connected now ≡ some e'
      → Valid e' world
  unfolding mix_step
  mix_step-Valid e is_connected now world e' v q =
      let state = visit_from floats codec now 64 0 (e, []) in
      mix_collected-Valid state.0 state.1 is_connected world e'
        (visit_from-Valid now 64 0 (e, []) world v) q
