-- ===== src/Rtp/Layout.antt =====
-- The twenty bytes of the routing header of core/src/rtp.c, and what reading them back gives.
use audio_project.Base.{
  ℕ, ◌+◌, ◌^◌, ◌≤◌, ◌<◌, List, [], ◌∷◌, ◌++◌, some, length, drop, length-drop, drop-drop,
  write_at-append, ◌>>=◌, ◌≡◌, arith,
}
use audio_project.Rtp.{Header, serialize_header, read_header}
use audio_project.Rtp.Bytes.{
  u16_be, u32_be, u64_be, read_u16_be, read_u32_be, read_u64_be, join-u16_be, join-u32_be,
  join-u64_be,
}

-- The fields fit the widths that the struct gives them.
pub record IsHeader (h : Header) : Type 0 where
  pub server_fits : h.server_id < 2 ^ 32
  pub channel_fits : h.channel_id < 2 ^ 32
  pub client_fits : h.client_id < 2 ^ 64
  pub type_fits : h.packet_type < 2 ^ 8
  pub flags_fit : h.flags < 2 ^ 8
  pub length_fits : h.payload_length < 2 ^ 16

abbrev pub header_bytes : Header → List ℕ
header_bytes h =
    u32_be h.server_id
    ++ (u32_be h.channel_id
        ++ (u64_be h.client_id ++ (h.packet_type ∷ h.flags ∷ u16_be h.payload_length)))

-- Serializing writes the header's bytes at the start of the buffer.
pub serialize_header_lem :
    (h : Header) (out : List ℕ)
    → 20 ≤ length out
    → serialize_header h out ≡ some (header_bytes h ++ drop 20 out)
unfolding serialize_header
serialize_header_lem h out room = rw (
  write_at-append [] out (u32_be h.server_id) (omega arith),
  ◌>>=◌,
  write_at-append (u32_be h.server_id) (drop 4 out) (u32_be h.channel_id) (left 4 4 (omega arith)),
  drop-drop 4 4 out,
  write_at-append (u32_be h.server_id ++ u32_be h.channel_id) (drop 8 out) (u64_be h.client_id)
      (left 8 8 (omega arith)),
  drop-drop 8 8 out,
  write_at-append (u32_be h.server_id ++ (u32_be h.channel_id ++ u64_be h.client_id)) (drop 16 out)
      (h.packet_type ∷ []) (left 16 1 (omega arith)),
  drop-drop 16 1 out,
  write_at-append
      (u32_be h.server_id ++ (u32_be h.channel_id ++ (u64_be h.client_id ++ h.packet_type ∷ [])))
      (drop 17 out) (h.flags ∷ []) (left 17 1 (omega arith)),
  drop-drop 17 1 out,
  write_at-append
      (u32_be h.server_id
        ++ (u32_be h.channel_id ++ (u64_be h.client_id ++ (h.packet_type ∷ h.flags ∷ []))))
      (drop 18 out) (u16_be h.payload_length) (left 18 2 (omega arith)),
  drop-drop 18 2 out,
)
  where
    left : (n m : ℕ) → n + m ≤ 20 → m ≤ length (drop n out)
    left n m within = omega (arith, length-drop n out)

-- Reading a buffer that starts with a header's bytes gives the header back.
pub read-header_bytes :
    (h : Header) (rest : List ℕ) → IsHeader h → read_header (header_bytes h ++ rest) ≡ some h
unfolding read_header read_u16_be read_u32_be read_u64_be
read-header_bytes h rest v = rw (
  join-u32_be h.server_id v.server_fits,
  join-u32_be h.channel_id v.channel_fits,
  join-u64_be h.client_id v.client_fits,
  join-u16_be h.payload_length v.length_fits,
)
