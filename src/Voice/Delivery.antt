-- ===== src/Voice/Delivery.antt =====
-- A voice packet of core/src/audio_engine.c: what the sender makes of an encoded frame, and what the
-- receiver reads out of it.
use mathlib.Core.List.{append_assoc}
use audio_project.Base.{
  overlay, overlay_start, length-take, ℕ, ◌+◌, ◌%◌, ◌^◌, ◌≤◌, ◌<◌, List, ◌++◌, ◌≡◌, refl, sym, ap,
  ◌∙◌, arith, length, take, drop, length-append, some, pos, read_at, ◌>>=◌, take_behind,
  positive?_lem,
}
use audio_project.Rtp.{Header, build_packet, parse_header, get_payload}
use audio_project.Rtp.Layout.{IsHeader, header_bytes}
use audio_project.Rtp.Packet.{build_packet_lem, packet_bytes, packet_read, build_packet-empty}
use audio_project.Crypto.{encrypt, decrypt, build_nonce, compute_tag, xor_stream}
use audio_project.Crypto.Table.{Context, find_key}
use audio_project.Crypto.Packet.{sealed, length-sealed, accepted}
use audio_project.Crypto.Stream.{xor_stream_twice}
use audio_project.Crypto.Tag.{length-compute_tag}
use audio_project.Crypto.Tamper.{all_aad}
use audio_project.Crypto.Nonce.{length-build_nonce}
use audio_project.Crypto.Exchange.{encrypt_lem, decrypt_lem}
use audio_project.Voice.{voice_header, send_voice, send_packet, received_aad, open_payload}

received_aad_lem :
    (h : Header) (n : ℕ) (rest : List ℕ)
    → received_aad (header_bytes (record h { payload_length = n }) ++ rest)
      ≡ some (header_bytes (record h { payload_length = 0 }))
unfolding received_aad read_at
received_aad_lem h n rest = refl

-- The sizes of the engine's buffers, and the fields of a packet that a `uint32_t` or `uint64_t` holds.
pub record Sizes (encoded routing encrypt_buf packet_buf decrypted : List ℕ) : Type 0 where
  pub some_bytes : 0 < length encoded
  pub fits : 48 + length encoded ≤ 1400
  pub header_room : length routing ≡ 20
  pub encrypt_room : length encrypt_buf ≡ 1400
  pub packet_room : length packet_buf ≡ 1400
  pub decrypt_room : length decrypted ≡ 1400

module _ (sender receiver : Context) (server channel client sequence : ℕ) (key : List ℕ)
    (encoded routing encrypt_buf packet_buf decrypted : List ℕ)
    (sends : find_key sender channel ≡ some key) (receives : find_key receiver channel ≡ some key)
    (valid : IsHeader (voice_header server channel client))
    (sizes : Sizes encoded routing encrypt_buf packet_buf decrypted) where
  abbrev pub hdr : Header
  hdr = voice_header server channel client

  abbrev aad : List ℕ
  aad = header_bytes hdr

  -- What is encrypted, in front of what the buffer held.
  cipher : List ℕ
  cipher =
      sealed key (build_nonce channel client sequence) encoded aad
      ++ drop (28 + length encoded) encrypt_buf

  pub packet : List ℕ
  packet = packet_bytes hdr cipher (28 + length encoded) packet_buf

  long : 28 + length encoded ≤ length cipher
  unfolding cipher
  long =
      let nonce = build_nonce channel client sequence in
      omega (
        arith,
        length-append (sealed key nonce encoded aad) (drop (28 + length encoded) encrypt_buf),
        length-sealed key nonce encoded aad (length-build_nonce channel client sequence),
      )

  encrypts :
      encrypt
        (some sender)
        channel
        client
        sequence
        (some aad)
        (pos 20)
        (some encoded)
        (pos (length encoded))
        (some encrypt_buf)
        (pos 1400)
      ≡ some (pos (28 + length encoded), some cipher)
  unfolding cipher
  encrypts =
      ap
        (λ t.
          encrypt (some sender) channel client sequence (some aad) (pos 20) (some encoded)
            (pos (length encoded)) (some encrypt_buf) (pos t))
        (sym sizes.encrypt_room)
      ∙ encrypt_lem sender receiver channel client sequence key sends receives (some aad) (pos 20)
          aad encoded encrypt_buf (all_aad aad 20 refl)
          (omega (arith, sizes.fits, sizes.encrypt_room))

  builds :
      build_packet (some hdr) (some cipher) (pos (28 + length encoded)) (some packet_buf) (pos 1400)
      ≡ some (pos (20 + (28 + length encoded)), some packet)
  unfolding packet
  builds =
      build_packet_lem hdr cipher (28 + length encoded) packet_buf 1400 long
        (omega (arith, sizes.packet_room)) (omega (arith, sizes.fits)) (omega (arith, sizes.fits))

  pub sent :
      send_voice sender server channel client sequence encoded
        (pos (length encoded))
        routing
        encrypt_buf
        packet_buf
      ≡ some (some (20 + (28 + length encoded), packet))
  unfolding send_voice send_packet
  sent =
      rw
        (
          send_voice,
          build_packet-empty hdr routing sizes.header_room,
          encrypts,
          ◌>>=◌,
          positive?_lem (28 + length encoded) (omega arith),
          send_packet,
          builds,
          ◌>>=◌,
          positive?_lem (20 + (28 + length encoded)) (omega arith),
        )
        refl

  -- The header as the receiver reads it.
  abbrev pub got : Header
  got = record hdr { payload_length = 28 + length encoded }

  abbrev rest : List ℕ
  rest = drop (20 + (28 + length encoded)) packet_buf

  pub parses :
      (old : Header)
      → parse_header (some packet) (pos (20 + (28 + length encoded))) (some old)
        ≡ some (pos 0, some got)
  parses old =
      (packet_read hdr old cipher (28 + length encoded) packet_buf packet 1400
        (20 + (28 + length encoded)) _ valid long (omega (arith, sizes.packet_room))
        (omega (arith, sizes.fits)) (omega (arith, sizes.fits)) (omega (arith, sizes.some_bytes))
        builds).0

  payload :
      get_payload (some packet) (pos (20 + (28 + length encoded)))
      ≡ some (sealed key (build_nonce channel client sequence) encoded aad ++ rest)
  unfolding cipher
  payload =
      let nonce = build_nonce channel client sequence in
      (packet_read hdr hdr cipher (28 + length encoded) packet_buf packet 1400
        (20 + (28 + length encoded)) _ valid long (omega (arith, sizes.packet_room))
        (omega (arith, sizes.fits)) (omega (arith, sizes.fits)) (omega (arith, sizes.some_bytes))
        builds).1
      ∙ ap (λ t. some (t ++ rest))
          (take_behind (sealed key nonce encoded aad) (drop (28 + length encoded) encrypt_buf)
            (28 + length encoded)
            (sym
              (length-sealed key nonce encoded aad (length-build_nonce channel client sequence))))

  same_aad : received_aad packet ≡ some aad
  unfolding packet
  same_aad =
      received_aad_lem hdr ((28 + length encoded) % 2 ^ 16)
        (take (28 + length encoded) cipher ++ rest)

  decrypts :
      decrypt
        (some receiver)
        channel
        (some aad)
        (pos 20)
        (some (sealed key (build_nonce channel client sequence) encoded aad ++ rest))
        (pos (28 + length encoded))
        (some decrypted)
        (pos 1400)
      ≡ some (pos (length encoded), some (encoded ++ drop (length encoded) decrypted))
  unfolding sealed
  decrypts =
      let nonce = build_nonce channel client sequence in
      let tag = compute_tag key encoded aad in
      ap
        (λ t.
          decrypt (some receiver) channel (some aad) (pos 20)
            (some (sealed key nonce encoded aad ++ rest)) (pos (28 + length encoded))
            (some decrypted) (pos t))
        (sym sizes.decrypt_room)
      ∙ decrypt_lem sender receiver channel client sequence key sends receives (some aad) (pos 20)
          nonce (xor_stream key nonce encoded) tag rest decrypted encoded aad
          (length-build_nonce channel client sequence) (length-compute_tag key encoded aad)
          (xor_stream_twice key nonce encoded) (all_aad aad 20 refl)
          (omega (arith, sizes.fits, sizes.decrypt_room))
      ∙ ap some (accepted key encoded aad tag decrypted refl)

  pub opens :
      open_payload receiver packet (pos (20 + (28 + length encoded))) got decrypted
      ≡ some (some (length encoded, some (encoded ++ drop (length encoded) decrypted)))
  unfolding open_payload
  opens =
      rw
        (
          open_payload,
          payload,
          same_aad,
          ◌>>=◌,
          decrypts,
          ◌>>=◌,
          positive?_lem (length encoded) sizes.some_bytes,
        )
        refl

  -- The datagram at the start of a buffer of 1400 bytes.
  landed :
      (buf : List ℕ)
      → length buf ≡ 1400
      → overlay buf 0 (take (20 + (28 + length encoded)) packet)
        ≡ packet_bytes hdr cipher (28 + length encoded) buf
  unfolding packet
  landed buf room =
      let n = 28 + length encoded in
      let head = header_bytes (record hdr { payload_length = n % 2 ^ 16 }) in
      let body = take n cipher in
      let size : length (head ++ body) ≡ 20 + n =
        omega (arith, length-append head body, length-take n cipher, long) in
      let front : take (20 + n) packet ≡ head ++ body =
        ap (take (20 + n)) (sym (append_assoc head body rest))
        ∙ take_behind (head ++ body) rest (20 + n) (sym size) in
      ap (overlay buf 0) front
      ∙ overlay_start buf (head ++ body) (omega (arith, size, room, sizes.fits))
      ∙ ap (λ k. (head ++ body) ++ drop k buf) size
      ∙ append_assoc head body (drop (20 + n) buf)

-- What the receiver reads out of its buffer when the datagram has come in, whatever the buffer held.
module _ (sender receiver : Context) (server channel client sequence : ℕ) (key : List ℕ)
    (encoded routing encrypt_buf packet_buf decrypted recv_buf : List ℕ)
    (sends : find_key sender channel ≡ some key) (receives : find_key receiver channel ≡ some key)
    (valid : IsHeader (voice_header server channel client))
    (sizes : Sizes encoded routing encrypt_buf packet_buf decrypted)
    (recv_room : length recv_buf ≡ 1400) where
  abbrev pub total : ℕ
  total = 20 + (28 + length encoded)

  abbrev pub sent_packet : List ℕ
  sent_packet =
      packet sender receiver server channel client sequence key encoded routing encrypt_buf
        packet_buf decrypted sends receives valid sizes

  abbrev here_sizes : Sizes encoded routing encrypt_buf recv_buf decrypted
  here_sizes = record {
    some_bytes = sizes.some_bytes;
    fits = sizes.fits;
    header_room = sizes.header_room;
    encrypt_room = sizes.encrypt_room;
    packet_room = recv_room;
    decrypt_room = sizes.decrypt_room;
  }

  -- The receiver's buffer is what the sender's would be with the same bytes behind the packet.
  same_packet :
      overlay recv_buf 0 (take total sent_packet)
      ≡ packet sender receiver server channel client sequence key encoded routing encrypt_buf
          recv_buf decrypted sends receives valid here_sizes
  unfolding packet cipher
  same_packet =
      landed sender receiver server channel client sequence key encoded routing encrypt_buf
        packet_buf decrypted sends receives valid sizes recv_buf recv_room

  pub arrives :
      (old : Header)
      → (parse_header (some (overlay recv_buf 0 (take total sent_packet))) (pos total) (some old)
          ≡ some (
            pos 0,
            some (record (voice_header server channel client) {
              payload_length = 28 + length encoded;
            }),
          ))
        × (open_payload receiver
              (overlay recv_buf 0 (take total sent_packet))
              (pos total)
              (record (voice_header server channel client) { payload_length = 28 + length encoded })
              decrypted
            ≡ some (some (length encoded, some (encoded ++ drop (length encoded) decrypted))))
  arrives old = (
    ap (λ t. parse_header (some t) (pos total) (some old)) same_packet
        ∙ parses sender receiver server channel client sequence key encoded routing encrypt_buf
            recv_buf decrypted sends receives valid here_sizes old,
    ap
          (λ t.
            open_payload receiver t (pos total)
              (record (voice_header server channel client) { payload_length = 28 + length encoded })
              decrypted)
          same_packet
        ∙ opens sender receiver server channel client sequence key encoded routing encrypt_buf
            recv_buf decrypted sends receives valid here_sizes,
  )
