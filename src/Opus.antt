-- ===== src/Opus.antt =====
-- core/src/opus_codec.h and core/src/opus_codec.c: the wrapper around libopus. The library is not part
-- of the repository: what its creating functions answer is an argument, and its other functions are the
-- fields of a `Codec`. A pointer that may be NULL is an `Option`, an `int` is a `ℤ`. Destroying a coder
-- only frees.
pub mod Config
pub mod Laws
mod Tests
use audio_project.Base.{
  ℕ, zero, suc, List, [], ◌∷◌, Option, none, some, Bool, true, false, ◌||◌, ℤ, pos, negsuc,
  minus_one, positive?, ltb, if◌then◌else◌,
}

-- AE_OPUS_BITRATE
abbrev pub default_bitrate : ℕ
default_bitrate = 128000

-- AE_FRAME_SIZE
abbrev pub frame_size : ℕ
frame_size = 960

-- The requests that `ae_opus_encoder_create` makes of `opus_encoder_ctl`.
pub data Request : Type 0 where
  set_bitrate : ℕ → Request
  set_complexity : ℕ → Request
  set_signal_music : Request
  set_bandwidth_fullband : Request
  set_inband_fec : ℕ → Request
  set_packet_loss_perc : ℕ → Request
  set_dtx : ℕ → Request

-- libopus. A call gives the returned `int`, the caller's array and the coder after it.
pub record Codec (F : Type 0) : Type 1 where
  pub Encoder : Type 0
  pub Decoder : Type 0
  pub encoder_ctl : Encoder → Request → Encoder
  -- pcm, frame_size, data, max_data_bytes
  pub encode_float : Encoder → List F → ℕ → List ℕ → ℤ → ℤ × List ℕ × Encoder
  -- data, len, pcm, frame_size, decode_fec
  pub decode_float : Decoder → Option (List ℕ) → ℤ → List F → ℕ → Bool → ℤ × List F × Decoder

-- `struct ae_opus_encoder`
pub record OpusEncoder (E : Type 0) : Type 0 where
  pub opus : Option E

-- `struct ae_opus_decoder`
pub record OpusDecoder (D : Type 0) : Type 0 where
  pub opus : Option D

-- `error != OPUS_OK`
pub opus_failed : ℤ → Bool
opus_failed (pos zero) = false
opus_failed (pos (suc n)) = true
opus_failed (negsuc n) = true

-- The wrapper's decoder around the library's answer: the error and the new object.
pub decoder_create : {D : Type 0} → Bool → ℤ → Option D → Option (OpusDecoder D)
decoder_create memory error none = none
decoder_create memory error (some opus) =
    if memory
    then (if opus_failed error then none else some (record { opus = some opus }))
    else none

-- The tests at the start of `ae_opus_encoder_create`.
pub bitrate_or_default : ℤ → ℕ
bitrate_or_default bitrate = elim (positive? bitrate) [ none ↦ default_bitrate | some n ↦ n ]

pub complexity_or_default : ℤ → ℕ
complexity_or_default complexity = elim (positive? complexity) [
  | none ↦ 10
  | some n ↦ if ltb 10 n then 10 else n
]

module _ {F : Type 0} (codec : Codec F) where
  open codec use {Encoder, Decoder, encoder_ctl, encode_float, decode_float}

  -- The seven calls of `opus_encoder_ctl`.
  pub configure : Encoder → ℕ → ℕ → Encoder
  configure opus bitrate complexity =
      let a = encoder_ctl opus (set_bitrate bitrate) in
      let b = encoder_ctl a (set_complexity complexity) in
      let c = encoder_ctl b set_signal_music in
      let d = encoder_ctl c set_bandwidth_fullband in
      let e = encoder_ctl d (set_inband_fec 1) in
      let f = encoder_ctl e (set_packet_loss_perc 5) in encoder_ctl f (set_dtx 0)

  pub encoder_create : ℤ → ℤ → Bool → ℤ → Option Encoder → Option (OpusEncoder Encoder)
  encoder_create bitrate complexity memory error none = none
  encoder_create bitrate complexity memory error (some opus) =
      let ready = configure opus (bitrate_or_default bitrate) (complexity_or_default complexity) in
      if memory
      then (if opus_failed error then none else some (record { opus = some ready }))
      else none

  -- The returned `int`, the output buffer and the encoder after the call.
  pub encode :
      Option (OpusEncoder Encoder)
      → Option (List F)
      → Option (List ℕ)
      → ℤ
      → ℤ × Option (List ℕ) × Option (OpusEncoder Encoder)
  encode (some enc) (some pcm) (some out) out_size = elim enc.opus [
    | none ↦ (minus_one, some out, some enc)
    | some opus ↦
        let (ret, out', opus') = encode_float opus pcm frame_size out out_size in
        (ret, some out', some (record { opus = some opus' }))
  ]
  encode enc pcm out out_size = (minus_one, out, enc)

  -- The returned `int`, the caller's frame and the decoder after the call.
  pub decode :
      Option (OpusDecoder Decoder)
      → Option (List ℕ)
      → ℤ
      → Option (List F)
      → ℤ × Option (List F) × Option (OpusDecoder Decoder)
  decode (some dec) (some packet) data_len (some pcm) = elim dec.opus [
    | none ↦ (minus_one, some pcm, some dec)
    | some opus ↦ elim (positive? data_len) [
      | none ↦ (minus_one, some pcm, some dec)
      | some n ↦
          let (ret, pcm', opus') = decode_float opus (some packet) data_len pcm frame_size false in
          (ret, some pcm', some (record { opus = some opus' }))
    ]
  ]
  decode dec packet data_len pcm = (minus_one, pcm, dec)

  pub decode_plc :
      Option (OpusDecoder Decoder)
      → Option (List F)
      → ℤ × Option (List F) × Option (OpusDecoder Decoder)
  decode_plc (some dec) (some pcm) = elim dec.opus [
    | none ↦ (minus_one, some pcm, some dec)
    | some opus ↦
        let (ret, pcm', opus') = decode_float opus none (pos 0) pcm frame_size false in
        (ret, some pcm', some (record { opus = some opus' }))
  ]
  decode_plc dec pcm = (minus_one, pcm, dec)
