-- ===== src/Engine/MixTick.antt =====
-- Step 4 of `ae_engine_process` in core/src/audio_engine.c: a frame of each stream, mixed into the
-- playback ring.
pub mod Kept
pub mod Fate
use audio_project.Base.{
  ℕ, zero, suc, ◌+◌, ◌%◌, ◌^◌, List, [], ◌∷◌, ◌++◌, map, Option, none, some, Bool, true, false,
  ◌&&◌, ℤ, pos, negsuc, positive?, ltb, if◌then◌else◌, get_elem?, get_or, set, take, replicate,
  ◌>>=◌,
}
use audio_project.Float.{Floats}
use audio_project.Opus.{Codec, OpusDecoder, decode_plc}
use audio_project.Jitter.{Jitter}
use audio_project.Jitter as Buffer
use audio_project.Mixer.{mix}
use audio_project.Ring as Ring
use audio_project.Streams.{Stream, destroy_stream}
use audio_project.Engine.{AeEngine, frame_samples}
use audio_project.Engine.Timers.{elapsed}
use audio_project.Engine.Capture.{given_back}

-- STREAM_TIMEOUT_MS and STREAM_DESTROY_MS
abbrev pub stream_timeout : ℕ
stream_timeout = 500

abbrev pub stream_destroy : ℕ
stream_destroy = 5000

-- `mix_count`: the frames collected so far.
pub count_of : {F : Type 0} → List F → ℕ
count_of [] = 0
count_of (v ∷ volumes) = suc (count_of volumes)

abbrev has_jitter : {F : Type 0} → Option (Jitter F) → Bool
has_jitter none = false
has_jitter (some jb) = true

module _ (floats : Floats) (codec : Codec floats.F) where
  open floats use {F, zero_f, mul}
  open codec use {Decoder}

  -- What a stream gives to a tick: a frame or none, whether that frame was concealed, the frame's buffer
  -- and the stream.
  pub record Taken : Type 0 where
    pub mixed : Bool
    pub concealed : Bool
    pub frame : List F
    pub stream : Stream F (OpusDecoder Decoder)

  -- The branch for an empty jitter buffer: packet loss concealment, for brief gaps.
  pub conceal : Stream F (OpusDecoder Decoder) → ℕ → List F → Taken
  conceal s silence_ms frame =
      let skipped : Taken = record {
        mixed = false;
        concealed = false;
        frame = frame;
        stream = s;
      } in
      elim s.decoder [
        | none ↦ skipped
        | some dec ↦
            let (plc, pcm, dec') = decode_plc codec s.decoder (some frame) in
            let filled : List F = elim (positive? plc) [
              | none ↦ replicate frame_samples zero_f
              | some n ↦ given_back pcm frame
            ] in
            if ltb silence_ms 200
            then record {
              mixed = true;
              concealed = true;
              frame = filled;
              stream = record s { decoder = dec' };
            }
            else skipped
      ]

  -- The stream behind `ae_jitter_pop`: its frame, or the concealment.
  pub after_pop :
      Stream F (OpusDecoder Decoder) → ℕ → List F → ℤ × Option (List F) × Option (Jitter F) → Taken
  after_pop s silence_ms frame (pos n, frame', jitter') = record {
    mixed = true;
    concealed = false;
    frame = given_back frame' frame;
    stream = record s { jitter = jitter' };
  }
  after_pop s silence_ms frame (negsuc n, frame', jitter') =
      conceal (record s { jitter = jitter' }) silence_ms (given_back frame' frame)

  -- A stream that is heard.
  pub take_frame : Stream F (OpusDecoder Decoder) → ℕ → List F → Taken
  take_frame s silence_ms frame =
      after_pop s silence_ms frame (Buffer.pop floats s.jitter (some frame))

  -- The engine, and the volumes of the frames collected so far.
  abbrev pub Collected : Type 0
  Collected = AeEngine codec × List F

  -- A stream's frame goes to the next place of `mix_inputs`.
  pub collect : AeEngine codec → List F → ℕ → Taken → Collected
  collect e volumes i taken =
      let e' = record e {
        table = record (e.table) { streams = set e.table.streams i taken.stream };
        stream_frames = set e.stream_frames (count_of volumes) taken.frame;
        buffer_underruns =
            if taken.concealed then (e.buffer_underruns + 1) % 2 ^ 32 else e.buffer_underruns;
      } in
      (
        e',
        if taken.mixed then volumes ++ (mul taken.stream.volume e.channel.volume ∷ []) else volumes,
      )

  -- An active stream with a jitter buffer: destroyed, skipped or asked for a frame.
  unfoldable pub visit_active :
      AeEngine codec → List F → ℕ → Stream F (OpusDecoder Decoder) → ℕ → Collected
  visit_active e volumes i s now_mix =
      let silence_ms = elapsed now_mix s.last_recv_ms in
      if ltb stream_destroy silence_ms
      then (record e { table = destroy_stream e.table (some i) }, volumes)
      else if ltb stream_timeout silence_ms
      then (e, volumes)
      else collect e volumes i
          (take_frame s silence_ms (get_or e.stream_frames (count_of volumes) []))

  -- The body of the loop at stream `i`.
  unfoldable pub visit : ℕ → ℕ → Collected → Collected
  visit now_mix i (e, volumes) = elim (get_elem? e.table.streams i) [
    | none ↦ (e, volumes)
    | some s ↦
        let visited = visit_active e volumes i s now_mix in
        if s.active && has_jitter s.jitter then visited else (e, volumes)
  ]

  -- The loop from stream `i` on, with `left` streams to go.
  unfoldable pub visit_from : ℕ → ℕ → ℕ → Collected → Collected
  visit_from now_mix zero i state = state
  visit_from now_mix (suc left) i state = visit_from now_mix left (i + 1) (visit now_mix i state)

  -- A frame goes to the playback ring; the result of the write is not read.
  pub play : AeEngine codec → List F → Option (AeEngine codec)
  play e output = do
    (written, ring') ← Ring.write e.playback_ring (some output) (pos 960)
    some (record e { mix_output = output; playback_ring = ring' })

  -- The frames collected are mixed; without one, silence is played in a channel.
  unfoldable pub mix_collected : AeEngine codec → List F → Bool → Option (AeEngine codec)
  mix_collected e [] is_connected =
      let silent = play e (replicate frame_samples zero_f) in
      if is_connected && e.channel.active then silent else some e
  mix_collected e (v ∷ volumes) is_connected = do
    let n = count_of (v ∷ volumes)
    (mixer', output) ←
        mix floats e.mixer (some (map some (take n e.stream_frames))) (some (v ∷ volumes)) (pos n)
          (some e.mix_output)
    play (record e { mixer = mixer' }) (given_back output e.mix_output)

  unfoldable pub mix_step : AeEngine codec → Bool → ℕ → Option (AeEngine codec)
  mix_step e is_connected now_mix =
      let (e', volumes) = visit_from now_mix 64 0 (e, []) in mix_collected e' volumes is_connected
