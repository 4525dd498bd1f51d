-- ===== src/Rtp/Packet.antt =====
-- Building and reading whole packets in core/src/rtp.c.
use mathlib.Core.Option.{some-injective}
use audio_project.Base.{
  ℕ, zero, suc, ◌+◌, ◌%◌, ◌^◌, ◌≤◌, ◌<◌, List, ◌++◌, some, pos, length, length-drop, length-take,
  drop, take, read_at-slice, write_at-append, drop-drop, ◌>>=◌, ◌≡◌, refl, ap, sym, ◌∙◌, arith, [],
  none, drop_all, ℤ, to_int_lem,
}
use audio_project.Rtp.{Header, build_packet, copy_payload, parse_header, get_payload}
use audio_project.Rtp.Layout.{IsHeader, header_bytes, serialize_header_lem, read-header_bytes}

-- The header that `ae_rtp_build_packet` sends: the caller's, with the length filled in.
abbrev pub sent_header : Header → ℕ → Header
sent_header h n = record h { payload_length = n % 2 ^ 16 }

-- The packet in the output buffer, with what the buffer held behind it.
abbrev pub packet_bytes : Header → List ℕ → ℕ → List ℕ → List ℕ
packet_bytes h payload n out =
    header_bytes (sent_header h n) ++ (take n payload ++ drop (20 + n) out)

copy_payload_lem :
    (h : Header) (payload : List ℕ) (n : ℕ) (out : List ℕ)
    → n ≤ length payload
    → 20 + n ≤ length out
    → copy_payload (some payload) (pos n) (header_bytes h ++ drop 20 out)
      ≡ some (header_bytes h ++ (take n payload ++ drop (20 + n) out))
unfolding copy_payload
copy_payload_lem h payload zero out long room = refl
copy_payload_lem h payload (suc n) out long room = rw (
  read_at-slice payload 0 (suc n) (omega arith),
  ◌>>=◌,
  write_at-append (header_bytes h) (drop 20 out) (take (suc n) payload)
      (omega (arith, taken, length-drop 20 out)),
  taken,
  drop-drop 20 (suc n) out,
)
  where
    taken : length (take (suc n) payload) ≡ suc n
    taken = omega (arith, length-take (suc n) payload)

pub build_packet_lem :
    (h : Header) (payload : List ℕ) (n : ℕ) (out : List ℕ) (size : ℕ)
    → n ≤ length payload
    → size ≤ length out
    → 20 + n ≤ size
    → 20 + n ≤ 1500
    → build_packet (some h) (some payload) (pos n) (some out) (pos size)
      ≡ some (pos (20 + n), some (packet_bytes h payload n out))
unfolding build_packet
build_packet_lem h payload n out size long within room small = ground (
  arith,
  to_int_lem (20 + n),
  serialize_header_lem (sent_header h n) out,
  copy_payload_lem (sent_header h n) payload n out long,
)

-- Reading the packet that was built gives back the caller's header, with the length of the payload
-- filled in, and behind the header the payload: for fields that fit their types, a payload of `n`
-- bytes and an output buffer with room for the packet. What the buffer held behind it stays.
pub parse-build_packet :
    (h old : Header) (payload : List ℕ) (n : ℕ) (out : List ℕ) (size data_len : ℕ)
    → IsHeader h
    → n ≤ length payload
    → size ≤ length out
    → 20 + n ≤ size
    → 20 + n ≤ 1500
    → 20 < data_len
    → (packet : List ℕ) × (build_packet (some h) (some payload) (pos n) (some out) (pos size)
        ≡ some (pos (20 + n), some packet))
      × (parse_header (some packet) (pos data_len) (some old)
          ≡ some (pos 0, some (record h { payload_length = n })))
      × (get_payload (some packet) (pos data_len) ≡ some (take n payload ++ drop (20 + n) out))
unfolding parse_header get_payload
parse-build_packet h old payload n out size data_len v long within room small enough = (
  packet_bytes h payload n out,
  build_packet_lem h payload n out size long within room small,
  ground (arith, read-header_bytes (sent_header h n) (take n payload ++ drop (20 + n) out) sent),
  ground arith,
)
  where
    sent : IsHeader (sent_header h n)
    sent = record {
      server_fits = v.server_fits;
      channel_fits = v.channel_fits;
      client_fits = v.client_fits;
      type_fits = v.type_fits;
      flags_fit = v.flags_fit;
      length_fits = omega arith;
    }

-- A header without a payload fills a buffer of its size.
pub build_packet-empty :
    (h : Header) (out : List ℕ)
    → length out ≡ 20
    → build_packet (some h) none (pos 0) (some out) (pos 20)
      ≡ some (pos 20, some (header_bytes (sent_header h 0)))
unfolding build_packet copy_payload
build_packet-empty h out size =
    let bytes = header_bytes (sent_header h 0) in
    let nothing : drop 20 out ≡ [] = drop_all 20 out (omega arith) in
    rw (serialize_header_lem (sent_header h 0) out (omega arith), nothing) refl

-- Any packet that was built, read back: its header and its payload.
pub packet_read :
    (h old : Header) (payload : List ℕ) (n : ℕ) (out packet : List ℕ) (size data_len : ℕ)
    (total : ℤ)
    → IsHeader h
    → n ≤ length payload
    → size ≤ length out
    → 20 + n ≤ size
    → 20 + n ≤ 1500
    → 20 < data_len
    → build_packet (some h) (some payload) (pos n) (some out) (pos size) ≡ some (total, some packet)
    → (parse_header (some packet) (pos data_len) (some old)
        ≡ some (pos 0, some (record h { payload_length = n })))
      × (get_payload (some packet) (pos data_len) ≡ some (take n payload ++ drop (20 + n) out))
packet_read h old payload n out packet size data_len total v long within room small enough e =
    let (other, built, parsed, behind) =
      parse-build_packet h old payload n out size data_len v long within room small enough in
    let same : other ≡ packet =
      some-injective _ _ (ap (λ t. t.1) (some-injective _ _ (sym built ∙ e))) in
    (
      ap (λ t. parse_header (some t) (pos data_len) (some old)) (sym same) ∙ parsed,
      ap (λ t. get_payload (some t) (pos data_len)) (sym same) ∙ behind,
    )
