-- ===== src/Voice.antt =====
-- The way of one voice packet through `ae_engine_process` of core/src/audio_engine.c, between the codec
-- and the socket: what the sending side does with an encoded frame, and how the receiving side decrypts
-- a payload. The codec and the socket stand outside: the encoded bytes and the datagram are arguments. An outer `none` is an access outside a buffer.
pub mod Delivery
pub mod Bounds
use mathlib.Core.Option
use audio_project.Base.{
  ℕ, zero, suc, List, [], ◌∷◌, Option, none, some, ℤ, pos, positive?, negsuc, Bool, not, ◌&&◌, ◌==◌,
  if◌then◌else◌, set, read_at, ◌>>=◌,
}
use audio_project.Rtp.{Header, header_size, type_audio, build_packet, parse_header, get_payload}
use audio_project.Crypto.{encrypt, decrypt}
use audio_project.Crypto.Table.{Context}

-- AE_MAX_PACKET_SIZE, the size of every work buffer.
abbrev pub buffer_size : ℕ
buffer_size = 1400

-- The routing header of a voice packet; the flag is AE_RTP_FLAG_STEREO.
abbrev pub voice_header : ℕ → ℕ → ℕ → Header
voice_header server channel client = record {
  server_id = server;
  channel_id = channel;
  client_id = client;
  packet_type = type_audio;
  flags = 1;
  payload_length = 0;
}

-- The second half of the sending side: the packet around the `n` encrypted bytes.
pub send_packet : Header → Option (List ℕ) → ℕ → List ℕ → Option (Option (ℕ × List ℕ))
send_packet hdr sealed n packet_buf = do
  (packet_len, packet) ← build_packet (some hdr) sealed (pos n) (some packet_buf) (pos buffer_size)
  elim (positive? packet_len) [
    | none ↦ some none
    | some m ↦ some (Option.map (λ bytes. (m, bytes)) packet)
  ]

-- From the encoded frame to the call of `ae_net_send`: the packet and its length, or nothing where a
-- step fails. The last three arguments are the contents of `routing_hdr`, `encrypt_buf` and
-- `packet_buf` before.
pub send_voice :
    Context → ℕ → ℕ → ℕ → ℕ → List ℕ → ℤ → List ℕ → List ℕ → List ℕ → Option (Option (ℕ × List ℕ))
send_voice crypto server channel client sequence encoded len routing encrypt_buf packet_buf = do
  let hdr = voice_header server channel client
  (ignored, aad) ← build_packet (some hdr) none (pos 0) (some routing) (pos header_size)
  (sealed_len, sealed) ←
      encrypt (some crypto) channel client sequence aad (pos header_size) (some encoded) len
        (some encrypt_buf) (pos buffer_size)
  elim (positive? sealed_len) [ none ↦ some none | some n ↦ send_packet hdr sealed n packet_buf ]

-- The receiving side's associated data: the header of the datagram without the payload's length.
pub received_aad : List ℕ → Option (List ℕ)
received_aad datagram = do head ← read_at datagram 0 header_size; some (set (set head 18 0) 19 0)

-- The decryption of a datagram's payload, with the header that was parsed.
pub open_payload : Context → List ℕ → ℤ → Header → List ℕ → Option (Option (ℕ × Option (List ℕ)))
open_payload crypto datagram recv_len hdr decrypted = elim (get_payload (some datagram) recv_len) [
  | none ↦ some none
  | some payload ↦ do
    aad ← received_aad datagram
    (n, bytes) ←
        decrypt (some crypto) hdr.channel_id (some aad) (pos header_size) (some payload)
          (pos hdr.payload_length) (some decrypted) (pos buffer_size)
    elim (positive? n) [ none ↦ some none | some m ↦ some (some (m, bytes)) ]
]
