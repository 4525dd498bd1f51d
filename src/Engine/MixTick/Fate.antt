-- ===== src/Engine/MixTick/Fate.antt =====
-- What becomes of each remote stream in the mixing step of core/src/audio_engine.c.
use native.Mathlib.Decide.{ℕ_discrete}
use audio_project.Base.{
  bind-some, if-some, replicate, map, take, pos, ◌∷◌, ℕ, zero, suc, ◌+◌, ◌<◌, ◌≤◌, List, [], Option,
  none, some, Bool, true, false, ◌&&◌, ltb, ltb→lt, ap₂, ◌≡◌, ◌≢◌, refl, sym, ap, ◌∙◌, arith, inl,
  inr, ◌⊎◌, Option-cases, Bool-cases, get_elem?, get_or, if◌then◌else◌,
}
use mathlib.Core.Option.{some-injective}
use audio_project.Float.{Floats}
use audio_project.Mixer.{mix}
use audio_project.Ring as Ring
use audio_project.Engine.{frame_samples}
use audio_project.Engine.Capture.{given_back}
use audio_project.Opus.{Codec, OpusDecoder}
use audio_project.Streams.{Stream, destroy_stream, ended}
use audio_project.Streams.Update.{get_elem?-set_at, destroyed_at, destroyed_other}
use audio_project.Streams.Search.{get_elem?-set_ne}
use audio_project.Engine.{AeEngine}
use audio_project.Engine.Timers.{elapsed}
use audio_project.Engine.MixTick.{
  count_of, take_frame, Collected, collect, visit_active, has_jitter, visit, visit_from, play,
  mix_collected, mix_step,
}
use audio_project.Engine.MixTick.Kept.{take_frame_same}

front : (a b : Bool) → a && b ≡ true → a ≡ true
front true b h = refl
front false b h = h

not_longer : (limit n : ℕ) → ltb limit n ≡ false → n ≤ limit
not_longer limit n h = ground arith

module _ (floats : Floats) (codec : Codec floats.F) where
  open floats use {F, zero_f}
  open codec use {Decoder}

  -- A stream that the step looks at.
  abbrev pub heard : Stream F (OpusDecoder Decoder) → Bool
  heard s = s.active && has_jitter s.jitter

  -- The entry of a stream after the step: destroyed behind 5 seconds of silence, left alone behind half a
  -- second and where there is no stream, and otherwise the same client's.
  abbrev pub Fate : ℕ → Stream F (OpusDecoder Decoder) → Stream F (OpusDecoder Decoder) → Type 0
  Fate now s s' =
      ((heard s ≡ true) × (5000 < elapsed now s.last_recv_ms) × (s' ≡ ended s))
      ⊎ ((heard s ≡ true)
          × (500 < elapsed now s.last_recv_ms)
          × (elapsed now s.last_recv_ms ≤ 5000)
          × (s' ≡ s))
      ⊎ ((heard s ≡ true)
          × (elapsed now s.last_recv_ms ≤ 500)
          × (s'.active ≡ s.active)
          × (s'.client_id ≡ s.client_id))
      ⊎ (heard s ≡ false) × (s' ≡ s)

  active_other :
      (e : AeEngine codec) (volumes : List F) (i j : ℕ) (s : Stream F (OpusDecoder Decoder))
      (now : ℕ)
      → i ≢ j
      → get_elem? ((visit_active floats codec e volumes i s now).0.table.streams) j
        ≡ get_elem? e.table.streams j
  unfolding visit_active collect
  active_other e volumes i j s now other =
      let silence_ms = elapsed now s.last_recv_ms in
      let taken =
        take_frame floats codec s silence_ms (get_or e.stream_frames (count_of volumes) []) in
      let gone : AeEngine codec = record e { table = destroy_stream e.table (some i) } in
      let choose : Bool → Bool → Collected floats codec = λ b c.
        if b
        then (gone, volumes)
        else if c
        then (e, volumes)
        else collect floats codec e volumes i taken in
      elim (Bool-cases (ltb 5000 silence_ms)) [
        | inl q ↦
            ap (λ b. get_elem? ((choose b (ltb 500 silence_ms)).0.table.streams) j) q
            ∙ destroyed_other e.table i j other
        | inr q ↦ elim (Bool-cases (ltb 500 silence_ms)) [
          | inl r ↦ ap₂ (λ b c. get_elem? ((choose b c).0.table.streams) j) q r
          | inr r ↦
              ap₂ (λ b c. get_elem? ((choose b c).0.table.streams) j) q r
              ∙ get_elem?-set_ne e.table.streams i j taken.stream other
        ]
      ]

  active_self :
      (e : AeEngine codec) (volumes : List F) (i : ℕ) (s : Stream F (OpusDecoder Decoder)) (now : ℕ)
      → get_elem? e.table.streams i ≡ some s
      → heard s ≡ true
      → (s' : Stream F (OpusDecoder Decoder)) × (get_elem?
            ((visit_active floats codec e volumes i s now).0.table.streams)
            i
          ≡ some s')
        × Fate now s s'
  unfolding visit_active collect
  active_self e volumes i s now found t =
      let silence_ms = elapsed now s.last_recv_ms in
      let frame = get_or e.stream_frames (count_of volumes) [] in
      let taken = take_frame floats codec s silence_ms frame in
      let gone : AeEngine codec = record e { table = destroy_stream e.table (some i) } in
      let choose : Bool → Bool → Collected floats codec = λ b c.
        if b
        then (gone, volumes)
        else if c
        then (e, volumes)
        else collect floats codec e volumes i taken in
      elim (Bool-cases (ltb 5000 silence_ms)) [
        | inl q ↦ (
          ended s,
          ap (λ b. get_elem? ((choose b (ltb 500 silence_ms)).0.table.streams) i) q
              ∙ destroyed_at e.table i s found (front s.active (has_jitter s.jitter) t),
          inl (t, ltb→lt 5000 silence_ms q, refl),
        )
        | inr q ↦ elim (Bool-cases (ltb 500 silence_ms)) [
          | inl r ↦ (
            s,
            ap₂ (λ b c. get_elem? ((choose b c).0.table.streams) i) q r ∙ found,
            inr (inl (t, ltb→lt 500 silence_ms r, not_longer 5000 silence_ms q, refl)),
          )
          | inr r ↦ (
            taken.stream,
            ap₂ (λ b c. get_elem? ((choose b c).0.table.streams) i) q r
                ∙ get_elem?-set_at e.table.streams i taken.stream s found,
            inr (
                inr (
                  inl (
                    t,
                    not_longer 500 silence_ms r,
                    (take_frame_same floats codec s silence_ms frame).0,
                    (take_frame_same floats codec s silence_ms frame).1,
                  ))),
          )
        ]
      ]

  -- The step at stream `i` leaves every other entry.
  visit_other :
      (now i j : ℕ) (state : Collected floats codec)
      → i ≢ j
      → get_elem? ((visit floats codec now i state).0.table.streams) j
        ≡ get_elem? (state.0.table.streams) j
  unfolding visit visit_active collect
  visit_other now i j (e, volumes) other =
      let choose : Stream F (OpusDecoder Decoder) → Bool → Collected floats codec =
        λ s b. if b then visit_active floats codec e volumes i s now else (e, volumes) in
      let at : Option (Stream F (OpusDecoder Decoder)) → Collected floats codec =
        λ o. elim o [ none ↦ (e, volumes) | some s ↦ choose s (heard s) ] in
      elim (Option-cases (get_elem? e.table.streams i)) [
        | inl q ↦ ap (λ o. get_elem? ((at o).0.table.streams) j) q
        | inr (s, q) ↦
            ap (λ o. get_elem? ((at o).0.table.streams) j) q ∙ elim (Bool-cases (heard s)) [
              | inl t ↦
                  ap (λ b. get_elem? ((choose s b).0.table.streams) j) t
                  ∙ active_other e volumes i j s now other
              | inr t ↦ ap (λ b. get_elem? ((choose s b).0.table.streams) j) t
            ]
      ]

  visit_self :
      (now i : ℕ) (state : Collected floats codec) (s : Stream F (OpusDecoder Decoder))
      → get_elem? (state.0.table.streams) i ≡ some s
      → (s' : Stream F (OpusDecoder Decoder)) × (get_elem?
            ((visit floats codec now i state).0.table.streams)
            i
          ≡ some s')
        × Fate now s s'
  unfolding visit visit_active collect
  visit_self now i (e, volumes) s found =
      let choose : Stream F (OpusDecoder Decoder) → Bool → Collected floats codec =
        λ s b. if b then visit_active floats codec e volumes i s now else (e, volumes) in
      let at : Option (Stream F (OpusDecoder Decoder)) → Collected floats codec =
        λ o. elim o [ none ↦ (e, volumes) | some s ↦ choose s (heard s) ] in
      let there = ap (λ o. get_elem? ((at o).0.table.streams) i) found in
      elim (Bool-cases (heard s)) [
        | inl t ↦
            let (s', entry, fate) = active_self e volumes i s now found t in
            (s', there ∙ ap (λ b. get_elem? ((choose s b).0.table.streams) i) t ∙ entry, fate)
        | inr t ↦ (
          s,
          there ∙ ap (λ b. get_elem? ((choose s b).0.table.streams) i) t ∙ found,
          inr (inr (inr (t, refl))),
        )
      ]

  later_visits :
      (now left i j : ℕ) (state : Collected floats codec)
      → j < i
      → get_elem? ((visit_from floats codec now left i state).0.table.streams) j
        ≡ get_elem? (state.0.table.streams) j
  unfolding visit_from
  later_visits now zero i j state h = refl
  later_visits now (suc left) i j state h =
      later_visits now left (i + 1) j (visit floats codec now i state) (omega (arith, h))
      ∙ visit_other now i j state (λ e. absurd (omega (arith, h, e)))

  -- Each stream in the table meets its fate once, whatever the others do.
  pub visit_from-Fate :
      (now left i j : ℕ) (state : Collected floats codec) (s : Stream F (OpusDecoder Decoder))
      → i ≤ j
      → j < i + left
      → get_elem? (state.0.table.streams) j ≡ some s
      → (s' : Stream F (OpusDecoder Decoder)) × (get_elem?
            ((visit_from floats codec now left i state).0.table.streams)
            j
          ≡ some s')
        × Fate now s s'
  unfolding visit_from
  visit_from-Fate now zero i j state s low high found = absurd (omega (arith, low, high))
  visit_from-Fate now (suc left) i j state s low high found = elim (ℕ_discrete i j) [
    | yes same ↦
        let (s', there, fate) =
          visit_self now i state s (ap (get_elem? (state.0.table.streams)) same ∙ found) in
        (
          s',
          later_visits now left (i + 1) j (visit floats codec now i state) (omega (arith, same))
              ∙ ap (get_elem? ((visit floats codec now i state).0.table.streams)) (sym same)
              ∙ there,
          fate,
        )
    | no other ↦
        visit_from-Fate now left (i + 1) j (visit floats codec now i state) s
          (omega (arith, low, other)) (omega (arith, high))
          (visit_other now i j state other ∙ found)
  ]

  play_table :
      (e e' : AeEngine codec) (output : List F)
      → play floats codec e output ≡ some e'
      → e'.table ≡ e.table
  unfolding play
  play_table e e' output q =
      let (p, written, rest) =
        bind-some (Ring.write e.playback_ring (some output) (pos 960))
          (λ p. some (record e { mix_output = output; playback_ring = p.1 })) e' q in
      sym (ap (λ t. t.table) (some-injective _ _ rest))

  -- The mixing and the playing leave the table.
  mix_collected_table :
      (e : AeEngine codec) (volumes : List F) (is_connected : Bool) (e' : AeEngine codec)
      → mix_collected floats codec e volumes is_connected ≡ some e'
      → e'.table ≡ e.table
  unfolding mix_collected
  mix_collected_table e [] is_connected e' q =
      elim (if-some (is_connected && e.channel.active) _ _ e' q) [
        | inl (t, h) ↦ play_table e e' (replicate frame_samples zero_f) h
        | inr (t, h) ↦ sym (ap (λ t. t.table) (some-injective _ _ h))
      ]
  mix_collected_table e (v ∷ volumes) is_connected e' q =
      let n = count_of (v ∷ volumes) in
      let (p, mixed, rest) =
        bind-some
          (mix floats e.mixer (some (map some (take n e.stream_frames))) (some (v ∷ volumes))
            (pos n) (some e.mix_output))
          (λ p. play floats codec (record e { mixer = p.0 }) (given_back p.1 e.mix_output)) e' q in
      play_table (record e { mixer = p.0 }) e' (given_back p.1 e.mix_output) rest

  -- The mixing step on the table of an engine, entry by entry, whatever the other streams do, where the
  -- step stays within the buffers: a stream
  -- with a jitter buffer that was last heard more than 5 seconds ago is destroyed; one last heard more
  -- than half a second ago is left as it is; any other one keeps its client and stays active; and an
  -- entry without a stream or a jitter buffer is not touched.
  pub mix_step-Fate :
      (e e' : AeEngine codec) (is_connected : Bool) (now j : ℕ) (s : Stream F (OpusDecoder Decoder))
      → j < 64
      → get_elem? e.table.streams j ≡ some s
      → mix_step floats codec e is_connected now ≡ some e'
      → (s' : Stream F (OpusDecoder Decoder)) × (get_elem? e'.table.streams j ≡ some s')
        × Fate now s s'
  unfolding mix_step
  mix_step-Fate e e' is_connected now j s inside found q =
      let (visited, volumes) = visit_from floats codec now 64 0 (e, []) in
      let (s', there, fate) =
        visit_from-Fate now 64 0 j (e, []) s (omega arith) (omega (arith, inside)) found in
      (
        s',
        ap (λ t. get_elem? t.streams j) (mix_collected_table visited volumes is_connected e' q)
            ∙ there,
        fate,
      )
