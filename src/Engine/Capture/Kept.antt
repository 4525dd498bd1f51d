-- ===== src/Engine/Capture/Kept.antt =====
-- What the capture step of core/src/audio_engine.c keeps.
use mathlib.Core.Path.{subst}
use audio_project.Base.{
  ℕ, List, Option, none, some, Bool, ◌&&◌, pos, positive?, leb, ◌==◌, ◌≡◌, sym, ap, ◌∙◌, inl, inr,
  bind-some, if-some, elim-some, ◌%◌, ◌+◌, ◌^◌, if◌then◌else◌,
}
use audio_project.Opus.{Codec, encode}
use audio_project.Network.{Net, System, send}
use audio_project.Network.Reach.{sent-IsValid}
use audio_project.Ring as Ring
use audio_project.Voice.{send_voice}
use audio_project.Engine.{AeEngine, World}
use audio_project.Engine.Session.Valid.{Valid, with_net, moved_with}
use audio_project.Engine.Capture.{
  Answers, given_back, send_frame, send_encoded, encode_frame, read_frame, capture_step,
}

module _ {F : Type 0} {codec : Codec F} where
  send_frame-Valid :
      (e : AeEngine codec) (made : Option (ℕ × List ℕ)) (answers : Answers) (world : World)
      (e' : AeEngine codec) (sys' : System)
      → Valid e world
      → send_frame e made answers world.system ≡ some (e', sys')
      → Valid e' (record world { system = sys' })
  unfolding send_frame
  send_frame-Valid e none answers world e' sys' v q = moved_with _ _ world _ _ q v
  send_frame-Valid e (some (n, packet)) answers world e' sys' v q =
      let after : Option Net → AeEngine codec = λ net. record e {
        network = net;
        tx_sequence = (e.tx_sequence + 1) % 2 ^ 32;
        packets_sent = (e.packets_sent + 1) % 2 ^ 64;
      } in
      let (p, went, rest) =
        bind-some (send e.network (some packet) (pos n) answers.answer answers.sent_ms world.system)
          (λ p. some (after p.1, p.2)) (e', sys') q in
      let (net, has, valid) =
        sent-IsValid v.net world.system (some packet) (pos n) answers.answer answers.sent_ms p.0 p.1
          p.2 v.net_valid
          (ap (λ o. send o (some packet) (pos n) answers.answer answers.sent_ms world.system)
              (sym v.has_net)
            ∙ went) in
      moved_with _ _ world _ _ rest (
        subst (λ o. Valid (after o) (record world { system = p.2 })) (sym has)
          (with_net e world net p.2 v valid))

  encode_frame-Valid :
      (e : AeEngine codec) (answers : Answers) (world : World) (e' : AeEngine codec) (sys' : System)
      → Valid e world
      → encode_frame e answers world.system ≡ some (e', sys')
      → Valid e' (record world { system = sys' })
  unfolding encode_frame send_encoded
  encode_frame-Valid e answers world e' sys' v q =
      let (encoded_len, encoded, enc') =
        encode codec e.encoder (some e.capture_frame) (some e.encode_buf) (pos 1400) in
      let next = record e { encoder = enc'; encode_buf = given_back encoded e.encode_buf } in
      elim (elim-some (positive? encoded_len) _ _ (e', sys') q) [
        | inl (t, h) ↦ moved_with _ _ world _ _ h v
        | inr (n, t, h) ↦ elim (elim-some e.crypto _ _ (e', sys') h) [
          | inl (k, g) ↦ moved_with _ _ world _ _ g v
          | inr (keys, k, g) ↦
              let (made, sealed, rest) =
                bind-some
                  (send_voice keys e.server_id e.channel.channel_id_num e.table.client_id
                    e.tx_sequence next.encode_buf (pos n) answers.routing answers.encrypt_buf
                    answers.packet_buf)
                  (λ made. send_frame next made answers world.system) (e', sys') g in
              send_frame-Valid next made answers world e' sys' v rest
        ]
      ]

  read_frame-Valid :
      (e : AeEngine codec) (answers : Answers) (world : World) (e' : AeEngine codec) (sys' : System)
      → Valid e world
      → read_frame e answers world.system ≡ some (e', sys')
      → Valid e' (record world { system = sys' })
  unfolding read_frame
  read_frame-Valid e answers world e' sys' v q =
      let next : List F × Option (Ring.RingBuf F) → AeEngine codec =
        λ p. record e { capture_ring = p.1; capture_frame = p.0 } in
      let (p, read, rest) =
        bind-some (Ring.read e.capture_ring (some e.capture_frame) (pos 960))
          (λ p.
            if p.0 == 960
            then encode_frame (next (given_back p.1 e.capture_frame, p.2)) answers world.system
            else some (next (given_back p.1 e.capture_frame, p.2), world.system))
          (e', sys') q in
      elim (if-some (p.0 == 960) _ _ (e', sys') rest) [
        | inl (t, h) ↦
            encode_frame-Valid (next (given_back p.1 e.capture_frame, p.2)) answers world e' sys' v
              h
        | inr (t, h) ↦ moved_with _ _ world _ _ h v
      ]

  pub capture_step-Valid :
      (e : AeEngine codec) (is_connected : Bool) (answers : Answers) (world : World)
      (e' : AeEngine codec) (sys' : System)
      → Valid e world
      → capture_step e is_connected answers world.system ≡ some (e', sys')
      → Valid e' (record world { system = sys' })
  unfolding capture_step
  capture_step-Valid e is_connected answers world e' sys' v q =
      elim (if-some (is_connected && e.transmitting) _ _ (e', sys') q) [
        | inl (t, h) ↦ elim (if-some (leb 960 (Ring.available e.capture_ring)) _ _ (e', sys') h) [
          | inl (k, g) ↦ read_frame-Valid e answers world e' sys' v g
          | inr (k, g) ↦ moved_with _ _ world _ _ g v
        ]
        | inr (t, h) ↦ moved_with _ _ world _ _ h v
      ]
