-- ===== src/Engine/Capture/Sending.antt =====
-- A frame behind the encoder in the capture step of core/src/audio_engine.c, within the engine's buffers.
use audio_project.Base.{
  ℕ, zero, suc, ◌+◌, ◌*◌, ◌%◌, ◌^◌, ◌≤◌, ◌∷◌, ◌++◌, [], List, Option, none, some, ℤ, pos, negsuc,
  ◌≡◌, refl, ap, ◌∙◌, arith, inl, inr, ◌⊎◌, ◌>>=◌, length, take, length-take,
}
use audio_project.Opus.{Codec, OpusEncoder}
use audio_project.Network.{Net, System, send}
use audio_project.Network.Outcome.{send_lem}
use audio_project.Crypto.Table.{Context}
use audio_project.Voice.{send_voice}
use audio_project.Voice.Bounds.{Sendable, send_voice_safe}
use audio_project.Engine.{AeEngine}
use audio_project.Engine.Ready.{Stereo}
use audio_project.Engine.Capture.{Answers, send_frame, send_encoded}

-- The scratch buffers at their sizes.
pub record Rooms (answers : Answers) : Type 0 where
  pub routing_room : length answers.routing ≡ 20
  pub encrypt_room : length answers.encrypt_buf ≡ 1400
  pub packet_room : length answers.packet_buf ≡ 1400

-- What the sending needs: the handles of the socket and of the keys, the capture ring of stereo frames,
-- and the buffers at their sizes.
pub record CanSend {F : Type 0} {codec : Codec F} (e : AeEngine codec) : Type 0 where
  pub net : Net
  pub has_net : e.network ≡ some net
  pub keys : Context
  pub has_keys : e.crypto ≡ some keys
  pub capture : Stereo e.capture_ring
  pub frame_room : length e.capture_frame ≡ 960 * 2
  pub encode_room : length e.encode_buf ≡ 1400

module _ {F : Type 0} {codec : Codec F} where
  -- Nothing is sent, or one packet is counted and the outbox has at most one datagram more.
  abbrev pub Progress : AeEngine codec → System → AeEngine codec → System → Type 0
  Progress e sys e' sys' =
      ((sys' ≡ sys) × (e'.packets_sent ≡ e.packets_sent) × (e'.tx_sequence ≡ e.tx_sequence))
      ⊎ (e'.packets_sent ≡ (e.packets_sent + 1) % 2 ^ 64)
        × (e'.tx_sequence ≡ (e.tx_sequence + 1) % 2 ^ 32)
        × ((sys' ≡ sys)
            ⊎ (packet : List ℕ) × (sys' ≡ record sys { outbox = sys.outbox ++ (packet ∷ []) })
              × (length packet ≤ 1400))

  -- A run that stays inside the buffers and can be followed by another.
  abbrev pub Safe : AeEngine codec → System → Option (AeEngine codec × System) → Type 0
  Safe e sys run =
      (e' : AeEngine codec) × (sys' : System) × (run ≡ some (e', sys'))
      × CanSend e'
      × Progress e sys e' sys'

  send_frame-Safe :
      (e : AeEngine codec) (n : ℕ) (made : Option (ℕ × List ℕ)) (answers : Answers) (sys : System)
      → CanSend e
      → Sendable n made
      → Safe e sys (send_frame e made answers sys)
  unfolding send_frame
  send_frame-Safe e n made answers sys c (inl nothing) =
      (e, sys, ap (λ m. send_frame e m answers sys) nothing, c, inl (refl, refl, refl))
  send_frame-Safe e n made answers sys c (inr (packet, something, fits, long)) =
      let (status, net', sys', sent, what) =
        send_lem c.net sys packet (19 + (28 + n)) answers.answer answers.sent_ms
          (omega (arith, fits, long)) in
      let after : ℤ × Option Net × System → Option (AeEngine codec × System) = λ p. some (
        record e {
          network = p.1;
          tx_sequence = (e.tx_sequence + 1) % 2 ^ 32;
          packets_sent = (e.packets_sent + 1) % 2 ^ 64;
        },
        p.2,
      ) in
      (
        record e {
          network = some net';
          tx_sequence = (e.tx_sequence + 1) % 2 ^ 32;
          packets_sent = (e.packets_sent + 1) % 2 ^ 64;
        },
        sys',
        ap (λ m. send_frame e m answers sys) something
            ∙ ap
                (λ o.
                  send o (some packet) (pos (20 + (28 + n))) answers.answer answers.sent_ms sys
                  >>= after)
                c.has_net
            ∙ ap
                (λ k.
                  send (some c.net) (some packet) (pos k) answers.answer answers.sent_ms sys
                  >>= after)
                (omega arith)
            ∙ ap (λ o. o >>= after) sent,
        record {
          net = net';
          has_net = refl;
          keys = c.keys;
          has_keys = c.has_keys;
          capture = c.capture;
          frame_room = c.frame_room;
          encode_room = c.encode_room;
        },
        inr (
          refl,
          refl,
          elim what [
            | inl (no_socket, bad, same, quiet) ↦ inl quiet
            | inr (fd, has_socket, went, rest) ↦ inr (
              take (suc (19 + (28 + n))) packet,
              went,
              omega (arith, length-take (suc (19 + (28 + n))) packet, long),
            )
          ],
        ),
      )

  encoded_can :
      (e : AeEngine codec) (out : List ℕ) (enc : Option (OpusEncoder codec.Encoder))
      → CanSend e
      → length out ≡ 1400
      → CanSend (record e { encoder = enc; encode_buf = out })
  encoded_can e out enc c room = record {
    net = c.net;
    has_net = c.has_net;
    keys = c.keys;
    has_keys = c.has_keys;
    capture = c.capture;
    frame_room = c.frame_room;
    encode_room = room;
  }

  pub send_encoded-Safe :
      (e : AeEngine codec) (ret : ℤ) (out : List ℕ) (enc : Option (OpusEncoder codec.Encoder))
      (answers : Answers) (sys : System)
      → CanSend e
      → Rooms answers
      → length out ≡ 1400
      → ((n : ℕ) → ret ≡ pos (suc n) → suc n ≤ 1400)
      → Safe e sys (send_encoded e (ret, some out, enc) answers sys)
  unfolding send_encoded
  send_encoded-Safe e (pos zero) out enc answers sys c rooms room fits = (
    record e { encoder = enc; encode_buf = out },
    sys,
    refl,
    encoded_can e out enc c room,
    inl (refl, refl, refl),
  )
  send_encoded-Safe e (negsuc n) out enc answers sys c rooms room fits = (
    record e { encoder = enc; encode_buf = out },
    sys,
    refl,
    encoded_can e out enc c room,
    inl (refl, refl, refl),
  )
  send_encoded-Safe e (pos (suc n)) out enc answers sys c rooms room fits =
      let (made, sealed, sendable) =
        send_voice_safe c.keys e.server_id e.channel.channel_id_num e.table.client_id e.tx_sequence
          out (suc n) answers.routing answers.encrypt_buf answers.packet_buf (omega arith)
          (omega (arith, fits n refl, room)) rooms.routing_room rooms.encrypt_room
          rooms.packet_room in
      let (e', sys', went, can, progress) =
        send_frame-Safe (record e { encoder = enc; encode_buf = out }) (suc n) made answers sys
          (encoded_can e out enc c room) sendable in
      let next = record e { encoder = enc; encode_buf = out } in
      (
        e',
        sys',
        ap
              (λ o. elim o [
                | none ↦ some (next, sys)
                | some keys ↦
                    send_voice keys e.server_id e.channel.channel_id_num e.table.client_id
                      e.tx_sequence out (pos (suc n)) answers.routing answers.encrypt_buf
                      answers.packet_buf
                    >>= (λ m. send_frame next m answers sys)
              ])
              c.has_keys
            ∙ ap (λ o. o >>= (λ m. send_frame next m answers sys)) sealed
            ∙ went,
        can,
        progress,
      )
