-- ===== src/Voice/Bounds.antt =====
-- The sending of a voice packet in core/src/audio_engine.c stays within the engine's buffers.
use audio_project.Base.{
  ℕ, ◌+◌, ◌<◌, ◌≤◌, List, Option, none, some, pos, positive?_lem, length, ◌⊎◌, inl, inr, ◌≡◌, refl,
  ap, ◌∙◌, sym, arith, ◌>>=◌,
}
use audio_project.Rtp.{Header}
use audio_project.Rtp.Layout.{header_bytes}
use audio_project.Rtp.Packet.{build_packet-empty, packet_bytes}
use audio_project.Rtp.Overrun.{build_packet_safe}
use audio_project.Crypto.{encrypt}
use audio_project.Crypto.Table.{Context}
use audio_project.Crypto.Tamper.{all_aad}
use audio_project.Crypto.Bounds.{encrypt_safe}
use audio_project.Voice.{voice_header, send_voice, send_packet}

-- Nothing to send, or a packet of 48 bytes more than the encoded frame, within a work buffer.
abbrev pub Sendable : ℕ → Option (ℕ × List ℕ) → Type 0
Sendable n made =
    (made ≡ none)
    ⊎ (packet : List ℕ) × (made ≡ some (20 + (28 + n), packet))
      × (20 + (28 + n) ≤ 1400)
      × (length packet ≡ 1400)

send_packet_safe :
    (h : Header) (sealed : List ℕ) (n : ℕ) (packet_buf : List ℕ)
    → 28 + n ≤ length sealed
    → 28 + n ≤ 1400
    → length packet_buf ≡ 1400
    → (made : Option (ℕ × List ℕ)) × (send_packet h (some sealed) (28 + n) packet_buf ≡ some made)
      × Sendable n made
unfolding send_packet
send_packet_safe h sealed n packet_buf enough few room =
    elim (build_packet_safe h sealed (28 + n) packet_buf 1400 (omega (arith, few)) enough
      (omega (arith, room))) [
        | inl (small, refused) ↦ (none, rw (send_packet, refused) refl, inl refl)
        | inr (fits, legal, built, long) ↦
            let packet = packet_bytes h sealed (28 + n) packet_buf in
            (
              some (20 + (28 + n), packet),
              rw (send_packet, built, ◌>>=◌, positive?_lem (20 + (28 + n)) (omega arith)) refl,
              inr (packet, refl, fits, long ∙ room),
            )
      ]

-- For an encoded frame of `n` bytes in a buffer of at least as many, and work buffers at their sizes,
-- the sending side never leaves a buffer: it gives a packet of 48 bytes more that fits into 1400, or
-- nothing where the channel has no key or the packet would not fit.
pub send_voice_safe :
    (crypto : Context) (server channel client sequence : ℕ) (encoded : List ℕ) (n : ℕ)
    (routing encrypt_buf packet_buf : List ℕ)
    → 0 < n
    → n ≤ length encoded
    → length routing ≡ 20
    → length encrypt_buf ≡ 1400
    → length packet_buf ≡ 1400
    → (made : Option (ℕ × List ℕ)) × (send_voice crypto server channel client sequence encoded
          (pos n)
          routing
          encrypt_buf
          packet_buf
        ≡ some made)
      × Sendable n made
unfolding send_voice
send_voice_safe crypto server channel client sequence encoded n routing encrypt_buf packet_buf
      some_bytes enough header_room encrypt_room packet_room =
    let hdr = voice_header server channel client in
    let aad = header_bytes hdr in
    elim (encrypt_safe crypto channel client sequence (some aad) (pos 20) aad encoded n encrypt_buf
      (all_aad aad 20 refl) enough) [
        | inl (why, refused) ↦
            let refused' =
              ap
                (λ t.
                  encrypt (some crypto) channel client sequence (some aad) (pos 20) (some encoded)
                    (pos n) (some encrypt_buf) (pos t))
                (sym encrypt_room)
              ∙ refused in
            (
              none,
              rw (send_voice, build_packet-empty hdr routing header_room, refused', ◌>>=◌) refl,
              inl refl,
            )
        | inr (c, fits, sealed, long) ↦
            let sealed' =
              ap
                (λ t.
                  encrypt (some crypto) channel client sequence (some aad) (pos 20) (some encoded)
                    (pos n) (some encrypt_buf) (pos t))
                (sym encrypt_room)
              ∙ sealed in
            let (made, sent, what) =
              send_packet_safe hdr c n packet_buf (omega (arith, long, fits)) (omega (arith, fits))
                packet_room in
            (
              made,
              rw
                  (
                    send_voice,
                    build_packet-empty hdr routing header_room,
                    sealed',
                    ◌>>=◌,
                    positive?_lem (28 + n) (omega arith),
                  )
                  sent,
              what,
            )
      ]
