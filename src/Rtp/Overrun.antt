-- ===== src/Rtp/Overrun.antt =====
-- Which calls of `ae_rtp_build_packet` in core/src/rtp.c stay inside the output buffer.
use native.Mathlib.Decide.{dec_lt}
use audio_project.Rtp.Packet.{packet_bytes, build_packet_lem}
use audio_project.Base.{
  take, drop, ◌%◌, ◌^◌, ℕ, ◌+◌, ◌-◌, ◌≤◌, ◌<◌, List, [], ◌∷◌, Option, some, none, pos, negsuc,
  minus_one, length, length-append, length-drop, length-take, length-write_at, write_at,
  write_at_outside, to_int_lem, Option-cases, ◌>>=◌, ◌≡◌, ◌⊎◌, inl, inr, arith,
}
use audio_project.Rtp.{Header, build_packet, serialize_header}
use audio_project.Rtp.Bytes.{u32_be, u64_be}

-- A chain of writes fails where what follows the first fails on every buffer of that size.
bind_none :
    {A : Type 0} (dst : List A) (off : ℕ) (xs : List A) (k : List A → Option (List A))
    → ((d : List A) → length d ≡ length dst → k d ≡ none)
    → (write_at dst off xs >>= k) ≡ none
bind_none dst off xs k fails = elim (Option-cases (write_at dst off xs)) [
  | inl e ↦ rw (e, ◌>>=◌)
  | inr (d, e) ↦ rw (e, ◌>>=◌) (fails d (length-write_at dst off xs e))
]

serialize_header_short :
    (h : Header) (out : List ℕ) → length out < 20 → serialize_header h out ≡ none
unfolding serialize_header
serialize_header_short h out short = bind_none out 0 (u32_be h.server_id) _ λ a ea.
    bind_none a 4 (u32_be h.channel_id) _ λ b eb. bind_none b 8 (u64_be h.client_id) _ λ c ec.
      bind_none c 16 (h.packet_type ∷ []) _
        λ d ed. bind_none d 17 (h.flags ∷ []) _ λ e ee. write_at_outside e 18 _ _ (omega arith)

-- A negative payload length from -1 to -20 passes the size check with an output buffer as long as the
-- total, which is shorter than the header: whatever the header and payload, the header's bytes leave
-- the buffer.
pub negative_length_overruns :
    (h : Header) (payload : Option (List ℕ)) (m : ℕ) (out : List ℕ)
    → m < 20
    → length out ≡ 19 - m
    → build_packet (some h) payload (negsuc m) (some out) (pos (length out)) ≡ none
unfolding build_packet
negative_length_overruns h payload m out few size =
    ground
      (arith, serialize_header_short (record h { payload_length = 2 ^ 16 - 1 - m % 2 ^ 16 }) out)

-- With a length from 0 on for which the total is an `int`, and a payload of at least that many bytes,
-- the call stays inside both
-- buffers: it returns -1 and leaves the output buffer alone exactly where the total exceeds the buffer
-- or 1500, and else returns the total.
pub build_packet_safe :
    (h : Header) (payload : List ℕ) (n : ℕ) (out : List ℕ) (size : ℕ)
    → n < 2 ^ 31 - 20
    → n ≤ length payload
    → size ≤ length out
    → (((size < 20 + n) ⊎ (1500 < 20 + n))
        × (build_packet (some h) (some payload) (pos n) (some out) (pos size)
            ≡ some (minus_one, some out)))
      ⊎ ((20 + n ≤ size)
          × (20 + n ≤ 1500)
          × (build_packet (some h) (some payload) (pos n) (some out) (pos size)
              ≡ some (pos (20 + n), some (packet_bytes h payload n out)))
          × (length (packet_bytes h payload n out) ≡ length out))
unfolding build_packet
build_packet_safe h payload n out size small long within = elim (dec_lt size (20 + n)) [
  | yes p ↦ inl (inl p, ground (arith, to_int_lem (20 + n)))
  | no p ↦ elim (dec_lt 1500 (20 + n)) [
    | yes q ↦ inl (inr q, ground (arith, to_int_lem (20 + n)))
    | no q ↦ inr (
      omega arith,
      omega arith,
      build_packet_lem h payload n out size long within (omega arith) (omega arith),
      omega (
        arith,
        length-append {0} (take n payload) (drop (20 + n) out),
        length-take {0} n payload,
        length-drop {0} (20 + n) out,
      ),
    )
  ]
]
