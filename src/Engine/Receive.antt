-- ===== src/Engine/Receive.antt =====
-- Step 2 of `ae_engine_process` in core/src/audio_engine.c: the datagrams that have come in, up to 20 in
-- a tick, each decrypted, decoded and put into the jitter buffer of its sender.
pub mod Kept
pub mod Delivery
use mathlib.Core.Option
use audio_project.Base.{
  ℕ, zero, suc, ◌+◌, ◌%◌, ◌^◌, List, Option, none, some, Bool, not, ◌||◌, ◌&&◌, ℤ, pos, negsuc,
  positive?, ◌==◌, if◌then◌else◌, get_elem?, set, ◌>>=◌,
}
use audio_project.Float.{Floats}
use audio_project.Opus.{Codec, OpusDecoder, decoder_create, decode}
use audio_project.Network.{Reply, recv}
use audio_project.Jitter as Buffer
use audio_project.Rtp.{Header, type_audio, type_pong, parse_header}
use audio_project.Rtp.Sequence.{add32, track}
use audio_project.Streams.{Stream, Engine, find_stream, create_stream}
use audio_project.Voice.{open_payload}
use audio_project.Engine.{AeEngine}
use audio_project.Engine.Timers.{pong}
use audio_project.Engine.Capture.{given_back}

-- MAX_RECV_PER_TICK
abbrev pub max_recv_per_tick : ℕ
max_recv_per_tick = 20

-- What a round of the loop meets: the socket's answer, the clock at the three places that read it, the
-- allocations and libopus for a new stream, and what `hdr` and `decrypted` held.
pub record Arrival (D : Type 0) : Type 0 where
  pub reply : Reply
  pub pong_ms : ℕ
  pub created_ms : ℕ
  pub arrived_ms : ℕ
  pub jitter_memory : Bool
  pub decoder_memory : Bool
  pub opus_error : ℤ
  pub opus : Option D
  pub header : Header
  pub decrypted : List ℕ

module _ (floats : Floats) (codec : Codec floats.F) where
  open floats use {F}
  open codec use {Decoder}

  -- The stream of the sender, a new one where there is none.
  unfoldable pub stream_for :
      Engine F (OpusDecoder Decoder)
      → ℕ
      → Arrival Decoder
      → Option ℕ × Engine F (OpusDecoder Decoder)
  stream_for table client arrival = elim (find_stream table client) [
    | some i ↦ (some i, table)
    | none ↦
        create_stream floats table client arrival.created_ms
          (decoder_create arrival.decoder_memory arrival.opus_error arrival.opus)
          arrival.jitter_memory
  ]

  -- A decrypted packet of `n` bytes on its stream, from the tracker to the jitter buffer.
  pub deliver_to :
      Stream F (OpusDecoder Decoder)
      → ℕ
      → Option (List ℕ)
      → List F
      → ℕ
      → Stream F (OpusDecoder Decoder) × List F
  deliver_to s n decrypted decode_frame arrived_ms =
      let (kind, tracker) = track s.seq_tracker (add32 s.seq_tracker.max_seq 1) in
      let (decoded, frame, dec) = decode codec s.decoder decrypted (pos n) (some decode_frame) in
      let heard = record s { seq_tracker = tracker; decoder = dec } in
      elim (positive? decoded) [
        | none ↦ (heard, given_back frame decode_frame)
        | some k ↦
            let (pushed, jitter') = Buffer.push s.jitter frame tracker.max_seq in
            (
              record heard { jitter = jitter'; last_recv_ms = arrived_ms },
              given_back frame decode_frame,
            )
      ]

  pub deliver : AeEngine codec → ℕ → ℕ → Option (List ℕ) → ℕ → AeEngine codec
  deliver e i n decrypted arrived_ms = elim (get_elem? e.table.streams i) [
    | none ↦ e
    | some s ↦
        let (s', frame) = deliver_to s n decrypted e.decode_frame arrived_ms in
        record e {
          decode_frame = frame;
          table = record (e.table) { streams = set e.table.streams i s' };
        }
  ]

  -- The case AE_RTP_TYPE_AUDIO, for `n` bytes in `recv_buf`. Without keys `ae_crypto_decrypt` fails.
  pub audio_packet : AeEngine codec → ℕ → Header → Arrival Decoder → Option (AeEngine codec)
  audio_packet e n hdr arrival =
      let (slot, table') = stream_for e.table hdr.client_id arrival in
      let e' = record e { table = table' } in
      let opened : Option (AeEngine codec) = elim slot [
        | none ↦ some e'
        | some i ↦ elim e.crypto [
          | none ↦ some e'
          | some keys ↦ do
            found ← open_payload keys e.recv_buf (pos n) hdr arrival.decrypted
            elim found [ none ↦ some e' | some p ↦ some (deliver e' i p.0 p.1 arrival.arrived_ms) ]
        ]
      ] in
      if hdr.payload_length == 0 || not e.channel.active then some e else opened

  -- The tests on the packet's type and sender.
  pub dispatch : AeEngine codec → ℕ → Header → Arrival Decoder → Option (AeEngine codec)
  dispatch e n hdr arrival =
      let audio = audio_packet e n hdr arrival in
      if hdr.packet_type == type_pong
      then some (pong floats e arrival.pong_ms)
      else if hdr.client_id == e.table.client_id
      then some e
      else if hdr.packet_type == type_audio
      then audio
      else some e

  -- The body of the loop for a datagram of `n` bytes in `recv_buf`.
  pub handle_datagram : AeEngine codec → ℕ → Arrival Decoder → Option (AeEngine codec)
  handle_datagram e n arrival = do
    (status, parsed) ← parse_header (some e.recv_buf) (pos n) (some arrival.header)
    elim status [
      | negsuc k ↦ some e
      | pos k ↦ elim parsed [ none ↦ some e | some hdr ↦ dispatch e n hdr arrival ]
    ]

  -- The loop, with `left` rounds to go.
  pub receive_loop : ℕ → ℕ → (ℕ → Arrival Decoder) → AeEngine codec → Option (AeEngine codec)
  receive_loop zero round arrivals e = some e
  receive_loop (suc left) round arrivals e = do
    (recv_len, buf) ← recv e.network (some e.recv_buf) (pos 1400) ((arrivals round).reply)
    let e' = record e { recv_buf = given_back buf e.recv_buf }
    elim (positive? recv_len) [
      | none ↦ some e'
      | some n ↦ do
        handled ←
            handle_datagram (record e' { packets_received = (e.packets_received + 1) % 2 ^ 64 }) n
              (arrivals round)
        receive_loop left (round + 1) arrivals handled
    ]

  pub receive_step : AeEngine codec → Bool → (ℕ → Arrival Decoder) → Option (AeEngine codec)
  receive_step e is_connected arrivals =
      let received = receive_loop max_recv_per_tick 0 arrivals e in
      if is_connected then received else some e
