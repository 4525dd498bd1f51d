-- ===== src/Rtp.antt =====
-- core/src/rtp.h and core/src/rtp.c: the packets with their routing header. Bytes are numbers below
-- 256 and buffers are lists of them. A pointer that may be NULL is an `Option`, an `int` is a `ℤ`, and
-- an outer `none` is an access outside a buffer, which C leaves undefined.
pub mod Bytes
pub mod Layout
pub mod Packet
pub mod Overrun
pub mod Control
pub mod Sequence
mod Tests
use audio_project.Base.{
  ℕ, zero, suc, ◌+◌, List, [], ◌∷◌, Option, none, some, ◌||◌, ℤ, pos, negsuc, minus_one, ◌+ℤ◌,
  ltb_ℤ, to_int, to_u16, leb, if◌then◌else◌, read_at, write_at, ◌>>=◌, get_elem?, drop, length,
}
use Bytes.{u16_be, u32_be, u64_be, read_u16_be, read_u32_be, read_u64_be}

-- AE_RTP_HEADER_SIZE
abbrev pub header_size : ℕ
header_size = 20

-- AE_RTP_MAX_PACKET
abbrev pub max_packet : ℕ
max_packet = 1500

-- The packet types, and the flag of a stereo stream.
abbrev pub type_audio : ℕ
type_audio = 0

abbrev pub type_keepalive : ℕ
type_keepalive = 1

abbrev pub type_ping : ℕ
type_ping = 2

abbrev pub type_pong : ℕ
type_pong = 3

-- `ae_rtp_header_t`
pub record Header : Type 0 where
  pub server_id : ℕ
  pub channel_id : ℕ
  pub client_id : ℕ
  pub packet_type : ℕ
  pub flags : ℕ
  pub payload_length : ℕ

pub serialize_header : Header → List ℕ → Option (List ℕ)
serialize_header h buf = do
  a ← write_at buf 0 (u32_be h.server_id)
  b ← write_at a 4 (u32_be h.channel_id)
  c ← write_at b 8 (u64_be h.client_id)
  d ← write_at c 16 (h.packet_type ∷ [])
  e ← write_at d 17 (h.flags ∷ [])
  write_at e 18 (u16_be h.payload_length)

-- `if (payload && payload_len > 0) memcpy(out + AE_RTP_HEADER_SIZE, payload, payload_len);`
pub copy_payload : Option (List ℕ) → ℤ → List ℕ → Option (List ℕ)
copy_payload (some payload) (pos (suc n)) out = do
  bytes ← read_at payload 0 (suc n)
  write_at out header_size bytes
copy_payload payload payload_len out = some out

-- The returned `int` and the output buffer after the call.
pub build_packet :
    Option Header → Option (List ℕ) → ℤ → Option (List ℕ) → ℤ → Option (ℤ × Option (List ℕ))
build_packet (some header) payload payload_len (some out) out_size =
    let total = to_int (header_size +ℤ payload_len) in
    if ltb_ℤ out_size total || ltb_ℤ (pos max_packet) total then some (minus_one, some out) else do
      head ← serialize_header (record header { payload_length = to_u16 payload_len }) out
      packet ← copy_payload payload payload_len head
      some (total, some packet)
build_packet header payload payload_len out out_size = some (minus_one, out)

abbrev no_header : Header
no_header = record {
  server_id = 0;
  channel_id = 0;
  client_id = 0;
  packet_type = 0;
  flags = 0;
  payload_length = 0;
}

-- The body of `ae_rtp_parse_header` once its arguments are accepted.
pub read_header : List ℕ → Option Header
read_header bytes = do
  server ← read_u32_be bytes 0
  channel ← read_u32_be bytes 4
  client ← read_u64_be bytes 8
  kind ← get_elem? bytes 16
  bits ← get_elem? bytes 17
  len ← read_u16_be bytes 18
  some (record {
    server_id = server;
    channel_id = channel;
    client_id = client;
    packet_type = kind;
    flags = bits;
    payload_length = len;
  })

-- The returned `int` and the caller's header after the call.
pub parse_header : Option (List ℕ) → ℤ → Option Header → Option (ℤ × Option Header)
parse_header (some bytes) data_len (some header) =
    if ltb_ℤ data_len (pos header_size)
    then some (minus_one, some header)
    else do parsed ← read_header bytes; some (pos 0, some parsed)
parse_header bytes data_len header = some (minus_one, header)

pub build_keepalive : ℕ → ℕ → ℕ → Option (List ℕ) → ℤ → Option (ℤ × Option (List ℕ))
build_keepalive server channel client out out_size =
    build_packet
      (some (record no_header {
        server_id = server;
        channel_id = channel;
        client_id = client;
        packet_type = type_keepalive;
      }))
      none (pos 0) out out_size

pub build_ping : ℕ → ℕ → ℕ → Option (List ℕ) → ℤ → Option (ℤ × Option (List ℕ))
build_ping server client timestamp out out_size =
    build_packet
      (some (record no_header { server_id = server; client_id = client; packet_type = type_ping }))
      (some (u64_be timestamp)) (pos 8) out out_size

-- `data + AE_RTP_HEADER_SIZE`: the bytes behind the header.
pub get_payload : Option (List ℕ) → ℤ → Option (List ℕ)
get_payload none data_len = none
get_payload (some bytes) data_len =
    if ltb_ℤ (pos header_size) data_len then some (drop header_size bytes) else none
