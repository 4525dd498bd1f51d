-- ===== src/Engine/Capture/Bounds.antt =====
-- The capture step of core/src/audio_engine.c stays within the engine's buffers.
use audio_project.Base.{
  ℕ, ◌*◌, List, Option, some, Bool, ◌&&◌, pos, leb, ◌==◌, ◌≡◌, refl, sym, ap, ◌∙◌, arith, inl, inr,
  ◌>>=◌, if◌then◌else◌, Bool-cases, length, overlay, length-overlay,
}
use audio_project.Opus.{Codec, encode}
use audio_project.Opus.Laws.{Lawful, encode_lem}
use audio_project.Network.{System}
use audio_project.Ring as Ring
use audio_project.Ring.{RingBuf}
use audio_project.Ring.Read.{read_refines, interleave}
use audio_project.Engine.{AeEngine}
use audio_project.Engine.Capture.{
  Answers, given_back, send_encoded, encode_frame, read_frame, capture_step,
}
use audio_project.Engine.Capture.Sending.{Rooms, CanSend, Safe, send_encoded-Safe}

module _ {F : Type 0} {codec : Codec F} where
  module _ (lawful : Lawful codec) where
    encode_frame-Safe :
        (e : AeEngine codec) (answers : Answers) (sys : System)
        → CanSend e
        → Rooms answers
        → Safe e sys (encode_frame e answers sys)
    unfolding encode_frame
    encode_frame-Safe e answers sys c rooms =
        let (ret, out, enc, q, room, fits) =
          encode_lem codec lawful e.encoder e.capture_frame e.encode_buf in
        let (e', sys', went, can, progress) =
          send_encoded-Safe e ret out enc answers sys c rooms (room ∙ c.encode_room)
            (λ n r. omega (arith, fits n r, c.encode_room)) in
        (
          e',
          sys',
          ap
                (λ k.
                  send_encoded e
                    (encode codec e.encoder (some e.capture_frame) (some e.encode_buf) (pos k))
                    answers sys)
                (sym c.encode_room)
              ∙ ap (λ r. send_encoded e r answers sys) q
              ∙ went,
          can,
          progress,
        )

    -- The frame that is read out of the ring leaves a stereo ring behind it.
    read_frame-Safe :
        (e : AeEngine codec) (answers : Answers) (sys : System)
        → CanSend e
        → Rooms answers
        → Safe e sys (read_frame e answers sys)
    unfolding read_frame
    read_frame-Safe e answers sys c rooms =
        let (delivered, ring', reads, valid, same, count, queue) =
          read_refines c.capture.rb c.capture.ring_valid e.capture_frame 959
            (omega (arith, ap (λ n. 960 * n) c.capture.stereo, c.frame_room)) in
        let frame = overlay e.capture_frame 0 (interleave delivered) in
        let next = record e { capture_ring = some ring'; capture_frame = frame } in
        let can : CanSend next = record {
          net = c.net;
          has_net = c.has_net;
          keys = c.keys;
          has_keys = c.has_keys;
          capture = record {
            rb = ring';
            has_ring = refl;
            ring_valid = valid;
            stereo = same ∙ c.capture.stereo;
          };
          frame_room = length-overlay e.capture_frame 0 (interleave delivered) ∙ c.frame_room;
          encode_room = c.encode_room;
        } in
        let (e', sys', went, can', progress) = encode_frame-Safe next answers sys can rooms in
        let after : ℕ × Option (List F) × Option (RingBuf F) → Option (AeEngine codec × System) =
          λ r.
            let t = record e {
              capture_ring = r.2;
              capture_frame = given_back r.1 e.capture_frame;
            } in
            if r.0 == 960 then encode_frame t answers sys else some (t, sys) in
        let read : read_frame e answers sys ≡ after (length delivered, some frame, some ring') =
          ap (λ o. Ring.read o (some e.capture_frame) (pos 960) >>= after) c.capture.has_ring
          ∙ ap (λ o. o >>= after) reads in
        elim (Bool-cases (length delivered == 960)) [
          | inl whole ↦ (
            e',
            sys',
            read
                ∙ ap (λ b. if b then encode_frame next answers sys else some (next, sys)) whole
                ∙ went,
            can',
            progress,
          )
          | inr part ↦ (
            next,
            sys,
            read ∙ ap (λ b. if b then encode_frame next answers sys else some (next, sys)) part,
            can,
            inl (refl, refl, refl),
          )
        ]

    -- With a lawful codec, from an engine that has its socket handle, its keys, a valid capture ring of
    -- stereo frames and its buffers at their sizes, the sending step of a tick with work buffers at their
    -- sizes returns, whether connected and transmitting or not, and whatever the encoder and the system
    -- answer: it leaves no buffer. Either nothing is sent and no counter moves, or one packet is counted,
    -- the sequence number is one further, and the outbox has nothing more or one datagram of at most 1400
    -- bytes. The engine has all of this again after it.
    pub capture_step-Safe :
        (e : AeEngine codec) (connected : Bool) (answers : Answers) (sys : System)
        → CanSend e
        → Rooms answers
        → Safe e sys (capture_step e connected answers sys)
    unfolding capture_step
    capture_step-Safe e connected answers sys c rooms =
        let idle : Safe e sys (some (e, sys)) = (e, sys, refl, c, inl (refl, refl, refl)) in
        elim (Bool-cases (connected && e.transmitting)) [
          | inl on ↦ elim (Bool-cases (leb 960 (Ring.available e.capture_ring))) [
            | inl enough ↦ rw (capture_step, on, enough) (read_frame-Safe e answers sys c rooms)
            | inr few ↦ rw (capture_step, on, few) idle
          ]
          | inr off ↦ rw (capture_step, off) idle
        ]
