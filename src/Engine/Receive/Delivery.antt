-- ===== src/Engine/Receive/Delivery.antt =====
-- A voice packet of core/src/audio_engine.c from the sender's codec to the receiver's.
use mathlib.Core.Path.{subst}
use audio_project.Base.{
  positive?, Option-cases, inl, inr, get_elem?, set, ℕ, ◌+◌, List, ◌++◌, Option, none, some, Bool,
  true, false, ◌||◌, not, ◌==◌, if◌then◌else◌, ℤ, pos, negsuc, length, take, drop, overlay, ◌>>=◌,
  ◌≡◌, ◌≢◌, refl, ap, ◌∙◌, arith,
}
use audio_project.Float.{Floats}
use audio_project.Opus.{Codec, OpusDecoder, decode}
use audio_project.Streams.{Stream, Engine}
use audio_project.Streams.Update.{get_elem?-set_at}
use audio_project.Engine.Capture.{given_back}
use audio_project.Rtp.{Header}
use audio_project.Rtp.Layout.{IsHeader}
use audio_project.Crypto.Table.{Context, find_key}
use audio_project.Voice.{voice_header, send_voice, open_payload}
use audio_project.Voice.Delivery.{Sizes, sent, packet, arrives}
use audio_project.Engine.{AeEngine}
use audio_project.Engine.Timers.{pong}
use audio_project.Engine.Receive.{
  Arrival, stream_for, deliver, deliver_to, audio_packet, dispatch, handle_datagram,
}

module _ (floats : Floats) (codec : Codec floats.F) where
  open floats use {F}
  open codec use {Decoder}

  -- Where the decoder of a stream comes from.
  deliver_to_lem :
      (s : Stream F (OpusDecoder Decoder)) (n : ℕ) (bytes : Option (List ℕ)) (frame : List F)
      (arrived_ms : ℕ)
      → let decoded = decode codec s.decoder bytes (pos n) (some frame) in
        let (s', frame') = deliver_to floats codec s n bytes frame arrived_ms in
        (s'.decoder ≡ decoded.2)
        × (s'.client_id ≡ s.client_id)
        × (frame' ≡ given_back decoded.1 frame)
  unfolding deliver_to
  deliver_to_lem s n bytes frame arrived_ms =
      let decoded = decode codec s.decoder bytes (pos n) (some frame) in
      elim (Option-cases (positive? (decoded.0))) [
        | inl q ↦ rw (deliver_to, q) (refl, refl, refl)
        | inr (k, q) ↦ rw (deliver_to, q) (refl, refl, refl)
      ]

module _ (floats : Floats) {codec : Codec floats.F} where
  open floats use {F}
  open codec use {Decoder}

  audio_packet_lem :
      (e : AeEngine codec) (n : ℕ) (hdr : Header) (arrival : Arrival Decoder) (i m : ℕ)
      (table : Engine F (OpusDecoder Decoder)) (keys : Context) (bytes : Option (List ℕ))
      → (hdr.payload_length == 0 || not e.channel.active) ≡ false
      → stream_for floats codec e.table hdr.client_id arrival ≡ (some i, table)
      → e.crypto ≡ some keys
      → open_payload keys e.recv_buf (pos n) hdr arrival.decrypted ≡ some (some (m, bytes))
      → audio_packet floats codec e n hdr arrival
        ≡ some (deliver floats codec (record e { table = table }) i m bytes arrival.arrived_ms)
  unfolding audio_packet
  audio_packet_lem e n hdr arrival i m table keys bytes wanted stream has opened =
      let at : Engine F (OpusDecoder Decoder) → AeEngine codec = λ t. record e { table = t } in
      let finish : Engine F (OpusDecoder Decoder)
          → ℕ
          → Option (ℕ × Option (List ℕ))
          → Option (AeEngine codec) =
        λ t i found. elim found [
          | none ↦ some (at t)
          | some p ↦ some (deliver floats codec (at t) i p.0 p.1 arrival.arrived_ms)
        ] in
      let with_keys : Engine F (OpusDecoder Decoder)
          → ℕ
          → Option Context
          → Option (AeEngine codec) =
        λ t i o. elim o [
          | none ↦ some (at t)
          | some k ↦ open_payload k e.recv_buf (pos n) hdr arrival.decrypted >>= finish t i
        ] in
      let from_slot : Option ℕ × Engine F (OpusDecoder Decoder) → Option (AeEngine codec) =
        λ p. elim p.0 [ none ↦ some (at p.1) | some i ↦ with_keys p.1 i e.crypto ] in
      ap
        (λ b.
          if b then some e else from_slot (stream_for floats codec e.table hdr.client_id arrival))
        wanted
      ∙ ap from_slot stream
      ∙ ap (with_keys table i) has
      ∙ ap (λ o. o >>= finish table i) opened

  dispatch_audio :
      (e : AeEngine codec) (n : ℕ) (hdr : Header) (arrival : Arrival Decoder)
      → hdr.packet_type ≡ 0
      → hdr.client_id ≢ e.table.client_id
      → dispatch floats codec e n hdr arrival ≡ audio_packet floats codec e n hdr arrival
  unfolding dispatch
  dispatch_audio e n hdr arrival voice other =
      let choose : Bool → Bool → Bool → Option (AeEngine codec) = λ a b c.
        if a
        then some (pong floats e arrival.pong_ms)
        else if b
        then some e
        else if c
        then audio_packet floats codec e n hdr arrival
        else some e in
      let no_pong : (hdr.packet_type == 3) ≡ false = ground (arith, voice) in
      let not_own : (hdr.client_id == e.table.client_id) ≡ false = ground (arith, other) in
      let is_voice : (hdr.packet_type == 0) ≡ true = ground (arith, voice) in
      ap (λ b. choose b (hdr.client_id == e.table.client_id) (hdr.packet_type == 0)) no_pong
      ∙ ap (λ b. choose false b (hdr.packet_type == 0)) not_own
      ∙ ap (choose false false) is_voice

  -- The stream at `i` afterwards: its decoder has been given the bytes, and what it decoded is in
  -- `decode_frame`.
  abbrev pub Decoded :
      AeEngine codec → ℕ → Stream F (OpusDecoder Decoder) → ℕ → List ℕ → AeEngine codec → Type 0
  Decoded e i s n bytes e' =
      let decoded = decode codec s.decoder (some bytes) (pos n) (some e.decode_frame) in
      (s' : Stream F (OpusDecoder Decoder)) × (get_elem? e'.table.streams i ≡ some s')
      × (s'.decoder ≡ decoded.2)
      × (s'.client_id ≡ s.client_id)
      × (e'.decode_frame ≡ given_back decoded.1 e.decode_frame)

  deliver-Decoded :
      (e : AeEngine codec) (i n : ℕ) (bytes : List ℕ) (arrived_ms : ℕ)
      (s : Stream F (OpusDecoder Decoder))
      → get_elem? e.table.streams i ≡ some s
      → Decoded e i s n bytes (deliver floats codec e i n (some bytes) arrived_ms)
  unfolding deliver
  deliver-Decoded e i n bytes arrived_ms s found =
      let (s', frame) = deliver_to floats codec s n (some bytes) e.decode_frame arrived_ms in
      let (decoder, client, pcm) =
        deliver_to_lem floats codec s n (some bytes) e.decode_frame arrived_ms in
      let next : Option (Stream F (OpusDecoder Decoder)) → AeEngine codec = λ o. elim o [
        | none ↦ e
        | some s ↦
            let (s', frame) = deliver_to floats codec s n (some bytes) e.decode_frame arrived_ms in
            record e {
              decode_frame = frame;
              table = record (e.table) { streams = set e.table.streams i s' };
            }
      ] in
      (
        s',
        ap (λ o. get_elem? ((next o).table.streams) i) found
            ∙ get_elem?-set_at e.table.streams i s' s found,
        decoder,
        client,
        ap (λ o. (next o).decode_frame) found ∙ pcm,
      )

  -- A voice packet arrives: for an encoded frame of at least one byte whose packet fits the engine's
  -- buffers of 1400 bytes, and header fields that fit their types, the sending side hands a packet of
  -- 48 bytes more to the socket. A receiving engine of another client that has the same key and is in a
  -- channel, and that has or gets a stream for the sender, takes that datagram out of its buffer and
  -- delivers exactly the encoded frame to that stream: its decoder is called on it, and what it decodes
  -- is in the engine's frame. What the buffers held before does not matter.
  pub voice_delivered :
      (e : AeEngine codec) (sender receiver : Context) (server channel client sequence : ℕ)
      (key encoded routing encrypt_buf packet_buf : List ℕ) (arrival : Arrival Decoder) (i : ℕ)
      (table : Engine F (OpusDecoder Decoder)) (s : Stream F (OpusDecoder Decoder))
      → find_key sender channel ≡ some key
      → find_key receiver channel ≡ some key
      → IsHeader (voice_header server channel client)
      → Sizes encoded routing encrypt_buf packet_buf arrival.decrypted
      → length e.recv_buf ≡ 1400
      → e.crypto ≡ some receiver
      → e.channel.active ≡ true
      → client ≢ e.table.client_id
      → stream_for floats codec e.table client arrival ≡ (some i, table)
      → get_elem? table.streams i ≡ some s
      → (bytes : List ℕ) × (send_voice sender server channel client sequence encoded
            (pos (length encoded))
            routing
            encrypt_buf
            packet_buf
          ≡ some (some (48 + length encoded, bytes)))
        × (let buf = overlay e.recv_buf 0 (take (48 + length encoded) bytes) in
            let frame = encoded ++ drop (length encoded) arrival.decrypted in
            let e' =
              deliver floats codec
                (record e { recv_buf = buf; table = table })
                i
                (length encoded)
                (some frame)
                arrival.arrived_ms in
            (handle_datagram floats codec
                (record e { recv_buf = buf })
                (48 + length encoded)
                arrival
              ≡ some e')
            × Decoded e i s (length encoded) frame e')
  unfolding handle_datagram
  voice_delivered e sender receiver server channel client sequence key encoded routing encrypt_buf
        packet_buf arrival i table s sends receives valid sizes room has active other stream there =
      let bytes =
        packet sender receiver server channel client sequence key encoded routing encrypt_buf
          packet_buf arrival.decrypted sends receives valid sizes in
      let count : 20 + (28 + length encoded) ≡ 48 + length encoded = omega arith in
      let at : ℕ → AeEngine codec =
        λ k. record e { recv_buf = overlay e.recv_buf 0 (take k bytes) } in
      let k = 20 + (28 + length encoded) in
      let got = record (voice_header server channel client) {
        payload_length = 28 + length encoded;
      } in
      let (parsed, opened) =
        arrives sender receiver server channel client sequence key encoded routing encrypt_buf
          packet_buf arrival.decrypted e.recv_buf sends receives valid sizes room arrival.header in
      let wanted : (28 + length encoded == 0 || not e.channel.active) ≡ false =
        ap (λ b. 28 + length encoded == 0 || not b) active ∙ ground arith in
      let finish : ℤ × Option Header → Option (AeEngine codec) = λ p. elim p.0 [
        | negsuc j ↦ some (at k)
        | pos j ↦ elim p.1 [
          | none ↦ some (at k)
          | some hdr ↦ dispatch floats codec (at k) k hdr arrival
        ]
      ] in
      let handled : handle_datagram floats codec (at k) k arrival
          ≡ some (
              deliver floats codec (record (at k) { table = table }) i (length encoded)
                (some (encoded ++ drop (length encoded) arrival.decrypted)) arrival.arrived_ms) =
        ap (λ o. o >>= finish) parsed
        ∙ dispatch_audio (at k) k got arrival refl other
        ∙ audio_packet_lem (at k) k got arrival i (length encoded) table receiver
            (some (encoded ++ drop (length encoded) arrival.decrypted)) wanted stream has opened in
      (
        bytes,
        sent sender receiver server channel client sequence key encoded routing encrypt_buf
              packet_buf arrival.decrypted sends receives valid sizes
            ∙ ap (λ n. some (some (n, bytes))) count,
        (
          subst
              (λ n.
                handle_datagram floats codec (at n) n arrival
                ≡ some (
                    deliver floats codec (record (at n) { table = table }) i (length encoded)
                      (some (encoded ++ drop (length encoded) arrival.decrypted))
                      arrival.arrived_ms))
              count handled,
          deliver-Decoded (record (at (48 + length encoded)) { table = table }) i (length encoded)
              (encoded ++ drop (length encoded) arrival.decrypted) arrival.arrived_ms s there,
        ),
      )
