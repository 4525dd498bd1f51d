-- ===== src/Engine/Capture.antt =====
-- Step 1 of `ae_engine_process` in core/src/audio_engine.c: a captured frame goes out.
pub mod Kept
pub mod Sending
pub mod Bounds
use audio_project.Base.{
  ℕ, zero, suc, ◌+◌, ◌%◌, ◌^◌, List, Option, none, some, Bool, ◌&&◌, ℤ, pos, positive?, leb, ◌==◌,
  if◌then◌else◌, ◌>>=◌,
}
use audio_project.Opus.{Codec, encode, OpusEncoder}
use audio_project.Network.{System}
use audio_project.Network as Socket
use audio_project.Ring as Ring
use audio_project.Voice.{send_voice}
use audio_project.Engine.{AeEngine}

-- What `routing_hdr`, `encrypt_buf` and `packet_buf` held, and what `send` and the clock answer.
pub record Answers : Type 0 where
  pub routing : List ℕ
  pub encrypt_buf : List ℕ
  pub packet_buf : List ℕ
  pub answer : ℤ
  pub sent_ms : ℕ

-- The array that a call was given and gives back.
abbrev pub given_back {ℓ} : {A : Type ℓ} → Option A → A → A
given_back none old = old
given_back (some new) old = new

module _ {F : Type 0} {codec : Codec F} where
  -- A packet that `send_voice` made goes out, and is counted whatever `send` answers.
  pub send_frame :
      AeEngine codec → Option (ℕ × List ℕ) → Answers → System → Option (AeEngine codec × System)
  send_frame e none answers sys = some (e, sys)
  send_frame e (some (packet_len, packet)) answers sys = do
    (status, net', sys') ←
        Socket.send e.network (some packet) (pos packet_len) answers.answer answers.sent_ms sys
    some (
      record e {
        network = net';
        tx_sequence = (e.tx_sequence + 1) % 2 ^ 32;
        packets_sent = (e.packets_sent + 1) % 2 ^ 64;
      },
      sys',
    )

  -- Behind the encoder: what it returned, its buffer and its state. Without keys `ae_crypto_encrypt` fails.
  pub send_encoded :
      AeEngine codec
      → ℤ × Option (List ℕ) × Option (OpusEncoder codec.Encoder)
      → Answers
      → System
      → Option (AeEngine codec × System)
  send_encoded e (encoded_len, encoded, enc') answers sys =
      let e' = record e { encoder = enc'; encode_buf = given_back encoded e.encode_buf } in
      elim (positive? encoded_len) [
        | none ↦ some (e', sys)
        | some n ↦ elim e.crypto [
          | none ↦ some (e', sys)
          | some keys ↦ do
            made ←
                send_voice keys e.server_id e.channel.channel_id_num e.table.client_id e.tx_sequence
                  e'.encode_buf (pos n) answers.routing answers.encrypt_buf answers.packet_buf
            send_frame e' made answers sys
        ]
      ]

  -- The frame that was read, from the encoder to the socket.
  pub encode_frame : AeEngine codec → Answers → System → Option (AeEngine codec × System)
  encode_frame e answers sys =
      send_encoded e (encode codec e.encoder (some e.capture_frame) (some e.encode_buf) (pos 1400))
        answers sys

  -- A whole frame is taken out of the ring.
  pub read_frame : AeEngine codec → Answers → System → Option (AeEngine codec × System)
  read_frame e answers sys = do
    (cap_frames, frame, ring') ← Ring.read e.capture_ring (some e.capture_frame) (pos 960)
    let e' = record e { capture_ring = ring'; capture_frame = given_back frame e.capture_frame }
    let sent = encode_frame e' answers sys
    if cap_frames == 960 then sent else some (e', sys)

  pub capture_step : AeEngine codec → Bool → Answers → System → Option (AeEngine codec × System)
  capture_step e is_connected answers sys =
      let sent = read_frame e answers sys in
      if is_connected && e.transmitting
      then (if leb 960 (Ring.available e.capture_ring) then sent else some (e, sys))
      else some (e, sys)
