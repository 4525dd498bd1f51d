-- ===== src/Engine.antt =====
-- core/include/audio_engine.h and core/src/audio_engine.c: the engine that joins the parts of the core.
-- The float operations and libopus are parameters; the answers of the system, of `calloc` and of the
-- clock are arguments. A pointer that may be NULL is an `Option`, an `int` a `ℤ`, and an outer `none` is
-- an access outside a buffer.
pub mod Channel
pub mod Session
pub mod AudioIo
pub mod Timers
pub mod Capture
pub mod Receive
pub mod MixTick
pub mod Process
pub mod Stats
pub mod Run
pub mod Ready
mod Tests
use audio_project.Base.{
  ℕ, zero, suc, ◌+◌, ◌*◌, List, [], ◌∷◌, ◌++◌, Option, none, some, Bool, true, false, ℤ, pos,
  negsuc, if◌then◌else◌, replicate, ◌>>=◌,
}
use audio_project.Float.{Floats}
use audio_project.Opus.{Codec, OpusEncoder, OpusDecoder, encoder_create}
use audio_project.Network.{Net, System}
use audio_project.Network as Socket
use audio_project.Crypto.Table.{Context}
use audio_project.Crypto.Table as Keys
use audio_project.Mixer.{Mixer}
use audio_project.Mixer as Mixing
use audio_project.Ring.{RingBuf}
use audio_project.Ring as Ring
use audio_project.Rtp.Sequence.{cleared}
use audio_project.Streams.{Stream}
use audio_project.Streams as Streams

-- AE_FRAME_SIZE * AE_CHANNELS
abbrev pub frame_samples : ℕ
frame_samples = 960 * 2

-- `ae_error_t`
pub data ErrorCode : Type 0 where
  ae_ok err_invalid_param err_no_memory err_opus_init err_network err_crypto err_full : ErrorCode
  err_not_found err_not_connected : ErrorCode

-- The events that the engine fires, of `ae_event_type_t`.
pub data Event : Type 0 where
  event_connected event_disconnected : Event

-- `ae_config_t`
pub record Config : Type 0 where
  pub sample_rate : ℤ
  pub channels : ℤ
  pub frame_size : ℤ
  pub opus_bitrate : ℤ
  pub opus_fec : Bool
  pub opus_complexity : ℤ
  pub jitter_buffer_frames : ℤ

pub config_default : Config
config_default = record {
  sample_rate = pos 48000;
  channels = pos 2;
  frame_size = pos 960;
  opus_bitrate = pos 128000;
  opus_fec = true;
  opus_complexity = pos 10;
  jitter_buffer_frames = pos 10;
}

-- `if (field == 0) field = default;`
pub or_default : ℤ → ℤ → ℤ
or_default (pos zero) default = default
or_default (pos (suc n)) default = pos (suc n)
or_default (negsuc n) default = negsuc n

-- The configuration that `ae_engine_create` stores.
pub config_from : Option Config → Config
config_from none = config_default
config_from (some c) = record c {
  sample_rate = or_default c.sample_rate (pos 48000);
  channels = or_default c.channels (pos 2);
  frame_size = or_default c.frame_size (pos 960);
  opus_bitrate = or_default c.opus_bitrate (pos 128000);
  opus_complexity = or_default c.opus_complexity (pos 10);
  jitter_buffer_frames = or_default c.jitter_buffer_frames (pos 10);
}

-- `channel_state_t`
pub record ChannelState (F : Type 0) : Type 0 where
  pub channel_id_str : List ℕ
  pub channel_id_num : ℕ
  pub active : Bool
  pub transmitting : Bool
  pub volume : F

-- `struct ae_engine`. The streams, their counts, the client's number and the depth of the jitter buffers
-- are the fields of `table`. A callback is its address, with the address of its data.
-- `encrypt_buf` and `packet_buf`, which are written before they are read, are arguments of their use, and
-- the pointers and volumes for the mixer are collected in each tick.
pub record AeEngine {F : Type 0} (codec : Codec F) : Type 0 where
  pub config : Config
  pub connected : Bool
  pub server_host : List ℕ
  pub udp_port : ℤ
  pub capture_cb : Option ℕ
  pub capture_ud : Option ℕ
  pub playback_cb : Option ℕ
  pub playback_ud : Option ℕ
  pub event_cb : Option ℕ
  pub event_ud : Option ℕ
  pub encoder : Option (OpusEncoder codec.Encoder)
  pub network : Option Net
  pub crypto : Option Context
  pub mixer : Option (Mixer F)
  pub capture_ring : Option (RingBuf F)
  pub playback_ring : Option (RingBuf F)
  pub table : Streams.Engine F (OpusDecoder codec.Decoder)
  pub channel : ChannelState F
  pub transmitting : Bool
  pub tx_sequence : ℕ
  pub capture_frame : List F
  pub decode_frame : List F
  pub mix_output : List F
  pub encode_buf : List ℕ
  pub recv_buf : List ℕ
  pub stream_frames : List (List F)
  pub packets_sent : ℕ
  pub packets_received : ℕ
  pub buffer_underruns : ℕ
  pub rtt_ms : F
  pub last_keepalive_ms : ℕ
  pub last_ping_ms : ℕ
  pub ping_send_time_ms : ℕ
  pub master_volume : F
  pub server_id : ℕ

-- What the engine has in the system, and the events that it has fired.
pub record World : Type 0 where
  pub system : System
  pub fired : List Event

-- What the calls of `ae_engine_create` answer: which of its allocations succeed, and libopus.
pub record Creation (E : Type 0) : Type 0 where
  pub engine_memory : Bool
  pub encoder_memory : Bool
  pub opus_error : ℤ
  pub opus : Option E
  pub capture_struct : Bool
  pub capture_samples : Bool
  pub playback_struct : Bool
  pub playback_samples : Bool
  pub mixer_memory : Bool
  pub crypto_memory : Bool
  pub network_memory : Bool

module _ (floats : Floats) (codec : Codec floats.F) where
  open floats use {F, zero_f, one_f}

  -- An entry of the table that `calloc` cleared.
  abbrev pub unused : Stream F (OpusDecoder codec.Decoder)
  unused = record {
    client_id = 0;
    active = false;
    decoder = none;
    jitter = none;
    seq_tracker = cleared;
    volume = zero_f;
    volume_target = zero_f;
    last_recv_ms = 0;
  }

  abbrev silence : List F
  silence = replicate frame_samples zero_f

  -- The engine around its parts.
  pub assembled :
      Config
      → OpusEncoder codec.Encoder
      → RingBuf F
      → RingBuf F
      → Mixer F
      → Context
      → Net
      → AeEngine codec
  assembled config enc capture playback mixing keys net = record {
    config = config;
    connected = false;
    server_host = replicate 256 0;
    udp_port = pos 0;
    capture_cb = none;
    capture_ud = none;
    playback_cb = none;
    playback_ud = none;
    event_cb = none;
    event_ud = none;
    encoder = some enc;
    network = some net;
    crypto = some keys;
    mixer = some mixing;
    capture_ring = some capture;
    playback_ring = some playback;
    table = record {
      client_id = 0;
      jitter_buffer_frames = config.jitter_buffer_frames;
      streams = replicate 64 unused;
      stream_count = 0;
      active_streams = 0;
    };
    channel = record {
      channel_id_str = replicate 64 0;
      channel_id_num = 0;
      active = false;
      transmitting = false;
      volume = zero_f;
    };
    transmitting = false;
    tx_sequence = 0;
    capture_frame = silence;
    decode_frame = silence;
    mix_output = silence;
    encode_buf = replicate 1400 0;
    recv_buf = replicate 1400 0;
    stream_frames = replicate 64 silence;
    packets_sent = 0;
    packets_received = 0;
    buffer_underruns = 0;
    rtt_ms = zero_f;
    last_keepalive_ms = 0;
    last_ping_ms = 0;
    ping_send_time_ms = 0;
    master_volume = one_f;
    server_id = 0;
  }

  -- `ae_engine_create`, whose failing branches free what was made before.
  pub create : Option Config → Creation codec.Encoder → Option (AeEngine codec)
  create wanted answers = do
    let config = config_from wanted
    enc ←
        encoder_create codec config.opus_bitrate config.opus_complexity answers.encoder_memory
          answers.opus_error answers.opus
    capture ←
        Ring.create zero_f answers.capture_struct answers.capture_samples (pos (64 * 960)) (pos 2)
    playback ←
        Ring.create zero_f answers.playback_struct answers.playback_samples (pos (64 * 960)) (pos 2)
    mixing ← Mixing.create floats answers.mixer_memory (pos 64)
    keys ← Keys.init answers.crypto_memory
    net ← Socket.create answers.network_memory
    if answers.engine_memory
        then some (assembled config enc capture playback mixing keys net)
        else none
