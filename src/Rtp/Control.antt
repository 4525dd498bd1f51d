-- ===== src/Rtp/Control.antt =====
-- The keepalive and ping packets of core/src/rtp.c, as the server reads them.
use audio_project.Base.{
  ℕ, ◌^◌, ◌<◌, List, ◌++◌, some, none, pos, length, drop, drop_all, ◌≡◌, refl, ap, arith,
}
use audio_project.Rtp.{
  Header, build_packet, build_keepalive, build_ping, copy_payload, parse_header, get_payload,
}
use audio_project.Rtp.Bytes.{u64_be, read_u64_be, join-u64_be}
use audio_project.Rtp.Layout.{IsHeader, header_bytes, serialize_header_lem, read-header_bytes}
use audio_project.Rtp.Packet.{
  parse-build_packet, build_packet-empty, build_packet_lem, packet_bytes,
}

abbrev pub keepalive_header : ℕ → ℕ → ℕ → Header
keepalive_header server channel client = record {
  server_id = server;
  channel_id = channel;
  client_id = client;
  packet_type = 1;
  flags = 0;
  payload_length = 0;
}

abbrev pub ping_header : ℕ → ℕ → Header
ping_header server client = record {
  server_id = server;
  channel_id = 0;
  client_id = client;
  packet_type = 2;
  flags = 0;
  payload_length = 8;
}

pub keepalive_built :
    (server channel client : ℕ) (out : List ℕ)
    → length out ≡ 20
    → build_keepalive server channel client (some out) (pos 20)
      ≡ some (pos 20, some (header_bytes (keepalive_header server channel client)))
unfolding build_keepalive
keepalive_built server channel client out size =
    build_packet-empty (keepalive_header server channel client) out size

-- A keepalive fills a buffer of 20 bytes, and is read back as one, with the identities it was built
-- from and no payload.
pub keepalive_read :
    (server channel client : ℕ) (out : List ℕ) (old : Header)
    → server < 2 ^ 32
    → channel < 2 ^ 32
    → client < 2 ^ 64
    → length out ≡ 20
    → (packet : List ℕ) × (build_keepalive server channel client (some out) (pos 20)
        ≡ some (pos 20, some packet))
      × (parse_header (some packet) (pos 20) (some old)
          ≡ some (pos 0, some (keepalive_header server channel client)))
      × (get_payload (some packet) (pos 20) ≡ none)
unfolding build_keepalive build_packet copy_payload parse_header get_payload
keepalive_read server channel client out old hs hc hi size = (
  header_bytes h ++ drop 20 out,
  ground (arith, serialize_header_lem h out),
  ground (arith, read-header_bytes h (drop 20 out) valid),
  refl,
)
  where
    h : Header
    h = keepalive_header server channel client

    valid : IsHeader h
    valid = omega arith

pub ping_built :
    (server client timestamp : ℕ) (out : List ℕ)
    → length out ≡ 28
    → (packet : List ℕ) × (build_ping server client timestamp (some out) (pos 28)
        ≡ some (pos 28, some packet))
      × (length packet ≡ 28)
unfolding build_ping
ping_built server client timestamp out size =
    let header = record (ping_header server client) { payload_length = 0 } in
    (
      packet_bytes header (u64_be timestamp) 8 out,
      build_packet_lem header (u64_be timestamp) 8 out 28 (omega arith) (omega (arith, size))
          (omega arith) (omega arith),
      omega (arith, ap length (drop_all 28 out (omega (arith, size)))),
    )

-- A ping fills a buffer of 28 bytes, is read back as one on channel 0, and its payload is read back as
-- the time that was put in.
pub ping_read :
    (server client timestamp : ℕ) (out : List ℕ) (old : Header)
    → server < 2 ^ 32
    → client < 2 ^ 64
    → timestamp < 2 ^ 64
    → length out ≡ 28
    → (packet payload : List ℕ) × (build_ping server client timestamp (some out) (pos 28)
        ≡ some (pos 28, some packet))
      × (parse_header (some packet) (pos 28) (some old)
          ≡ some (pos 0, some (ping_header server client)))
      × (get_payload (some packet) (pos 28) ≡ some payload)
      × (read_u64_be payload 0 ≡ some timestamp)
unfolding build_ping read_u64_be
ping_read server client timestamp out old hs hi ht size =
    let (packet, built, read, behind) =
      parse-build_packet (record (ping_header server client) { payload_length = 0 }) old
        (u64_be timestamp) 8 out 28 28 valid (omega arith) (omega arith) (omega arith) (omega arith)
        (omega arith) in
    (packet, _, built, read, behind, ap some (join-u64_be timestamp ht))
  where
    valid : IsHeader (record (ping_header server client) { payload_length = 0 })
    valid = omega arith
