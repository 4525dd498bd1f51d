-- ===== src/Engine/Tests.antt =====
-- Runs of the engine's other parts of core/src/audio_engine.c.
use audio_project.Base.{
  ℕ, ◌+◌, ◌-◌, ◌*◌, ◌%◌, ◌^◌, ◌<◌, ◌≤◌, min, List, [], ◌∷◌, ◌++◌, none, some, true, false, pos,
  replicate, length, get_elem?, drop, take, overlay, ◌≡◌, ◌⊎◌, ◌↔◌, refl, arith,
}
use audio_project.Samples.{numbers, toy_codec, toy_codec-Lawful}
use audio_project.Opus.{Request, OpusDecoder}
use audio_project.Network.{System, Net}
use audio_project.Rtp.{build_ping}
use audio_project.Rtp.Sequence.{cleared}
use audio_project.Ring.{RingBuf}
use audio_project.Ring.Valid.{IsValid}
use audio_project.Ring.Window.{contents, chunks}
use audio_project.Ring.Read.{interleave}
use audio_project.Streams.{Stream}
use audio_project.Streams.Search.{count}
use audio_project.Engine.{AeEngine, ErrorCode, Creation, create, ae_ok, err_full, unused}
use audio_project.Engine.Ready.{Granted, Ready, create_ready, idle_world}
use audio_project.Engine.Session.Valid.{Valid}
use audio_project.Engine.AudioIo.{write_capture, read_playback}
use audio_project.Engine.AudioIo.Frames.{write_capture_lem, read_playback_lem}
use audio_project.Engine.Receive.{Arrival, stream_for, deliver, handle_datagram}
use audio_project.Engine.Receive.Delivery.{Decoded, voice_delivered}
use audio_project.Streams.{find_stream, find_among}
use audio_project.Network.{failed}
use audio_project.Rtp.Layout.{IsHeader}
use audio_project.Crypto.Table.{Context, find_key, key_among, blank}
use audio_project.Voice.{voice_header, send_voice}
use audio_project.Voice.Delivery.{Sizes}
use audio_project.Engine.Capture.{capture_step}
use audio_project.Engine.Capture as Capture
use audio_project.Engine.Capture.Sending.{CanSend, Rooms, Safe}
use audio_project.Engine.Capture.Bounds.{capture_step-Safe}
use audio_project.Engine.Timers.{Answers, elapsed, ping_step, timers_step, pong}
use audio_project.Engine.Timers.Intervals.{timers_step_regular, pong-ping_step}
use audio_project.Engine.MixTick.{visit_from, visit, visit_active, mix_collected, mix_step}
use audio_project.Engine.MixTick.Fate.{Fate, mix_step-Fate}
use audio_project.Engine.Stats.{get_stats}
use audio_project.Engine.Stats.Loss.{get_stats_lem, all_lost, all_received}

abbrev all_granted : Creation (List Request)
all_granted = record {
  engine_memory = true;
  encoder_memory = true;
  opus_error = pos 0;
  opus = some [];
  capture_struct = true;
  capture_samples = true;
  playback_struct = true;
  playback_samples = true;
  mixer_memory = true;
  crypto_memory = true;
  network_memory = true;
}

granted : Granted all_granted []
granted = record {
  engine = refl;
  encoder = refl;
  no_error = refl;
  made = refl;
  capture_ok = (refl, refl);
  playback_ok = (refl, refl);
  mixer_ok = refl;
  crypto_ok = refl;
  network_ok = refl;
}

made :
    (e : AeEngine (toy_codec ℕ)) × (create numbers (toy_codec ℕ) none all_granted ≡ some e)
    × Valid e idle_world
    × Ready numbers (toy_codec ℕ) e
    × (e.connected ≡ false)
    × (e.channel.active ≡ false)
made = create_ready numbers (toy_codec ℕ) none all_granted [] granted

write_capture_lem_example :
    let stored = min 2 (made.3.capture.rb.capacity - 1 - length (contents made.3.capture.rb)) in
    (code : ErrorCode) × (rb' : RingBuf ℕ) × (write_capture
        (some made.0)
        (some (1 ∷ 2 ∷ 3 ∷ 4 ∷ []))
        (pos 2)
      ≡ some (code, some (record (made.0) { capture_ring = some rb' })))
    × IsValid rb'
    × (contents rb' ≡ contents made.3.capture.rb ++ chunks 2 (1 ∷ 2 ∷ 3 ∷ 4 ∷ []) 0 stored)
    × ((code ≡ ae_ok) × (stored ≡ 2) ⊎ (code ≡ err_full) × (stored < 2))
write_capture_lem_example =
    write_capture_lem made.0 made.3.capture (1 ∷ 2 ∷ 3 ∷ 4 ∷ []) 1 (omega arith)

read_playback_lem_example :
    (delivered : List (List ℕ)) × (rb' : RingBuf ℕ) × (read_playback numbers
        (some made.0)
        (some (7 ∷ 7 ∷ 7 ∷ 7 ∷ []))
        (pos 2)
      ≡ some (
        length delivered,
        some (interleave delivered ++ replicate ((2 - length delivered) * 2) 0),
        some (record (made.0) { playback_ring = some rb' }),
      ))
    × IsValid rb'
    × (length delivered ≡ min 2 (length (contents made.3.playback.rb)))
    × (contents made.3.playback.rb ≡ delivered ++ contents rb')
read_playback_lem_example =
    read_playback_lem numbers made.0 made.3.playback (7 ∷ 7 ∷ 7 ∷ 7 ∷ []) 1 refl (omega arith)

-- Six seconds after the clock's start.
abbrev timers : Answers
timers = record {
  now = 6000;
  ka_buf = replicate 20 0;
  ka_answer = pos 20;
  ka_sent_ms = 6001;
  ping_buf = replicate 28 0;
  ping_answer = pos 28;
  ping_sent_ms = 6002;
}

timers_step_regular_example :
    (e' : AeEngine (toy_codec ℕ)) × (sys' : System) × (timers_step made.0 timers idle_world.system
      ≡ some (e', sys'))
    × (elapsed 6000 e'.last_keepalive_ms < 5000)
    × (elapsed 6000 e'.last_ping_ms < 2000)
    × ((e'.last_keepalive_ms ≡ made.0.last_keepalive_ms)
        ⊎ (5000 ≤ elapsed 6000 made.0.last_keepalive_ms))
    × ((e'.last_ping_ms ≡ made.0.last_ping_ms) ⊎ (2000 ≤ elapsed 6000 made.0.last_ping_ms))
timers_step_regular_example =
    timers_step_regular made.0 made.2.net timers idle_world.system made.2.has_net refl refl

-- A handle with a socket, and the engine with it whose last ping was at the clock's start.
abbrev with_socket : Net
with_socket = record {
  sock = some 9;
  connected = true;
  last_send_time_ms = 0;
  last_keepalive_ms = 0;
  server_host = replicate 256 0;
  server_port = 8080;
  addr_storage = replicate 128 0;
  addr_len = 0;
}

abbrev pinging : AeEngine (toy_codec ℕ)
pinging = record (made.0) { last_ping_ms = 0; network = some with_socket }

pong-ping_step_example :
    (e' : AeEngine (toy_codec ℕ)) × (sys' : System) × (ping_step pinging timers idle_world.system
      ≡ some (e', sys'))
    × ((packet : List ℕ) × (build_ping pinging.server_id pinging.table.client_id 6000
            (some (replicate 28 0))
            (pos 28)
          ≡ some (pos 28, some packet))
        × (sys' ≡ record (idle_world.system) { outbox = packet ∷ [] }))
    × ((pong numbers e' 6043).rtt_ms ≡ elapsed 6043 6000)
    × (pong numbers (pong numbers e' 6043) 6050 ≡ pong numbers e' 6043)
pong-ping_step_example =
    pong-ping_step numbers pinging with_socket timers idle_world.system 6043 6050 9 refl refl refl
      (omega arith) (omega arith)

get_stats_lem_example :
    let lost = all_lost made.0.table.streams % 2 ^ 32 in
    let received = all_received made.0.table.streams % 2 ^ 32 in
    let stats = get_stats numbers (some made.0) in
    (stats.active_streams ≡ count made.0.table.streams)
    × (stats.active_streams ≤ 64)
    × ((stats.joined_channels ≡ 1) ↔ (made.0.channel.active ≡ true))
    × (((received ≡ 0) × (stats.packet_loss_pct ≡ 0))
        ⊎ (0 < received)
          × (stats.packet_loss_pct
              ≡ numbers.mul (numbers.div lost ((received + lost) % 2 ^ 32)) 100))
get_stats_lem_example = get_stats_lem numbers made.0 idle_world made.2

-- A stream that was heard a second ago, at the sixth second.
abbrev speaker : Stream ℕ (OpusDecoder ℕ)
speaker = record {
  client_id = 7;
  active = true;
  decoder = none;
  jitter = some (record {
    frames = [];
    write_pos = 0;
    read_pos = 0;
    fill_level = 0;
    target_depth = 3;
    min_depth = 2;
    max_depth = 10;
    needs_plc = false;
    crossfade_buf = [];
    crossfade_pending = false;
    last_seq = 0;
    total_pushed = 0;
    total_popped = 0;
    underruns = 0;
  });
  seq_tracker = cleared;
  volume = 1;
  volume_target = 1;
  last_recv_ms = 5000;
}

abbrev with_speaker : AeEngine (toy_codec ℕ)
with_speaker = record (made.0) {
  table = record {
    client_id = 5;
    jitter_buffer_frames = pos 3;
    streams = unused numbers (toy_codec ℕ) ∷ speaker ∷ replicate 62 (unused numbers (toy_codec ℕ));
    stream_count = 1;
    active_streams = 1;
  };
}

-- While it is not connected, nothing is played.
mixes : mix_step numbers (toy_codec ℕ) with_speaker false 6000 ≡ some with_speaker
unfolding mix_step mix_collected visit_from visit visit_active
mixes = refl

mix_step-Fate_example :
    (s' : Stream ℕ (OpusDecoder ℕ)) × (get_elem? with_speaker.table.streams 1 ≡ some s')
    × Fate numbers (toy_codec ℕ) 6000 speaker s'
mix_step-Fate_example =
    mix_step-Fate numbers (toy_codec ℕ) with_speaker with_speaker false 6000 1 speaker (omega arith)
      refl mixes

-- An engine in a channel that transmits, and its work buffers.
abbrev talking : AeEngine (toy_codec ℕ)
talking = record (made.0) { transmitting = true }

talking-CanSend : CanSend talking
talking-CanSend = record {
  net = made.2.net;
  has_net = made.2.has_net;
  keys = made.2.keys;
  has_keys = made.2.has_keys;
  capture = made.3.capture;
  frame_room = made.3.frame_room;
  encode_room = made.3.encode_room;
}

abbrev work_buffers : Capture.Answers
work_buffers = record {
  routing = replicate 20 0;
  encrypt_buf = replicate 1400 0;
  packet_buf = replicate 1400 0;
  answer = pos 50;
  sent_ms = 7000;
}

work_buffers-Rooms : Rooms work_buffers
work_buffers-Rooms = record { routing_room = refl; encrypt_room = refl; packet_room = refl }

capture_step-Safe_example :
    Safe talking idle_world.system (capture_step talking true work_buffers idle_world.system)
capture_step-Safe_example =
    capture_step-Safe (toy_codec-Lawful ℕ) talking true work_buffers idle_world.system
      talking-CanSend work_buffers-Rooms

-- A key for channel 7, which both sides have.
abbrev shared_key : List ℕ
shared_key = replicate 16 0x5a ++ replicate 16 0xc3

abbrev shared : Context
shared = record {
  keys = record { channel_id = 7; key = shared_key; active = true } ∷ replicate 63 blank;
  num_keys = 1;
}

shared-find_key : find_key shared 7 ≡ some shared_key
unfolding find_key key_among
shared-find_key = refl

abbrev voice_frame : List ℕ
voice_frame = 200 ∷ 17 ∷ 0 ∷ 255 ∷ []

-- The engine of client 5 in channel 7, which has heard client 7 before.
abbrev listening : AeEngine (toy_codec ℕ)
listening = record with_speaker {
  crypto = some shared;
  channel = record (made.0.channel) { active = true; channel_id_num = 7 };
}

abbrev arrival : Arrival ℕ
arrival = record {
  reply = failed 11;
  pong_ms = 6000;
  created_ms = 6000;
  arrived_ms = 6000;
  jitter_memory = true;
  decoder_memory = true;
  opus_error = pos 0;
  opus = some 0;
  header = voice_header 0 0 0;
  decrypted = replicate 1400 3;
}

speaker_found :
    stream_for numbers (toy_codec ℕ) listening.table 7 arrival ≡ (some 1, listening.table)
unfolding stream_for find_stream find_among
speaker_found = refl

seven-IsHeader : IsHeader (voice_header 1 7 7)
seven-IsHeader = omega arith

voice-Sizes :
    Sizes voice_frame (replicate 20 0) (replicate 1400 1) (replicate 1400 2) (replicate 1400 3)
voice-Sizes = record {
  some_bytes = omega arith;
  fits = omega arith;
  header_room = refl;
  encrypt_room = refl;
  packet_room = refl;
  decrypt_room = refl;
}

voice_delivered_example :
    (bytes : List ℕ) × (send_voice shared 1 7 7 42 voice_frame
        (pos 4)
        (replicate 20 0)
        (replicate 1400 1)
        (replicate 1400 2)
      ≡ some (some (52, bytes)))
    × (let buf = overlay listening.recv_buf 0 (take 52 bytes) in
        let frame = voice_frame ++ drop 4 (replicate 1400 3) in
        let e' =
          deliver numbers
            (toy_codec ℕ)
            (record listening { recv_buf = buf; table = listening.table })
            1
            4
            (some frame)
            6000 in
        (handle_datagram numbers (toy_codec ℕ) (record listening { recv_buf = buf }) 52 arrival
          ≡ some e')
        × Decoded numbers listening 1 speaker 4 frame e')
voice_delivered_example =
    voice_delivered numbers listening shared shared 1 7 7 42 shared_key voice_frame (replicate 20 0)
      (replicate 1400 1) (replicate 1400 2) arrival 1 listening.table speaker shared-find_key
      shared-find_key seven-IsHeader voice-Sizes made.3.recv_room refl refl
      (λ e. absurd (omega (arith, e))) speaker_found refl
