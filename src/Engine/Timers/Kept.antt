-- ===== src/Engine/Timers/Kept.antt =====
-- What the timers of core/src/audio_engine.c keep, and when they send.
use mathlib.Core.Path.{subst}
use audio_project.Base.{
  Bool-cases, ℕ, ◌+◌, ◌-◌, ◌%◌, ◌^◌, List, Option, none, some, ℤ, pos, positive?, leb, ltb, ◌≡◌,
  sym, ap, ◌∙◌, inl, inr, bind-some, if-some, ◌>>=◌, if◌then◌else◌,
}
use audio_project.Float.{Floats}
use audio_project.Opus.{Codec}
use audio_project.Network.{Net, System}
use audio_project.Rtp.{build_ping}
use audio_project.Engine.{AeEngine, World}
use audio_project.Engine.Session.{send_keepalive, send_built}
use audio_project.Engine.Session.Valid.{Valid, with_net, moved_with}
use audio_project.Engine.Session.Keepalive.{send_keepalive-Valid, send_built-IsValid}
use audio_project.Engine.Timers.{
  Answers, elapsed, keepalive_step, send_ping, ping_step, timers_step, pong,
}

module _ {F : Type 0} {codec : Codec F} where
  keepalive_step-Valid :
      (e : AeEngine codec) (answers : Answers) (world : World) (e' : AeEngine codec) (sys' : System)
      → Valid e world
      → keepalive_step e answers world.system ≡ some (e', sys')
      → Valid e' (record world { system = sys' })
  unfolding keepalive_step
  keepalive_step-Valid e answers world e' sys' v q =
      let channel = if e.channel.active then e.channel.channel_id_num else 0 in
      let after : Option Net → AeEngine codec =
        λ net. record e { network = net; last_keepalive_ms = answers.now } in
      elim (if-some (leb 5000 (elapsed answers.now e.last_keepalive_ms)) _ _ (e', sys') q) [
        | inl (t, h) ↦
            let (p, sent, rest) =
              bind-some
                (send_keepalive e channel answers.ka_buf answers.ka_answer answers.ka_sent_ms
                  world.system)
                (λ p. some (after p.0, p.1)) (e', sys') h in
            let (net, has, valid) =
              send_keepalive-Valid e channel answers.ka_buf answers.ka_answer answers.ka_sent_ms
                world p.0 p.1 v sent in
            moved_with _ _ world _ _ rest (
              subst (λ o. Valid (after o) (record world { system = p.1 })) (sym has)
                (with_net e world net p.1 v valid))
        | inr (t, h) ↦ moved_with _ _ world _ _ h v
      ]

  ping_step-Valid :
      (e : AeEngine codec) (answers : Answers) (world : World) (e' : AeEngine codec) (sys' : System)
      → Valid e world
      → ping_step e answers world.system ≡ some (e', sys')
      → Valid e' (record world { system = sys' })
  unfolding ping_step send_ping
  ping_step-Valid e answers world e' sys' v q =
      let after : ℤ × Option (List ℕ) → Option Net → AeEngine codec = λ built net. record e {
        network = net;
        ping_send_time_ms = elim (positive? built.0) [
          | none ↦ e.ping_send_time_ms
          | some n ↦ answers.now
        ];
        last_ping_ms = answers.now;
      } in
      elim (if-some (leb 2000 (elapsed answers.now e.last_ping_ms)) _ _ (e', sys') q) [
        | inl (t, h) ↦
            let (built, made, more) =
              bind-some
                (build_ping e.server_id e.table.client_id answers.now (some answers.ping_buf)
                  (pos 28))
                (λ built.
                  send_built e.network built answers.ping_answer answers.ping_sent_ms world.system
                  >>= (λ p. some (after built p.0, p.1)))
                (e', sys') h in
            let (p, sent, rest) =
              bind-some
                (send_built e.network built answers.ping_answer answers.ping_sent_ms world.system)
                (λ p. some (after built p.0, p.1)) (e', sys') more in
            let (net, has, valid) =
              send_built-IsValid v.net world.system built answers.ping_answer answers.ping_sent_ms
                p.0 p.1 v.net_valid
                (ap (λ o. send_built o built answers.ping_answer answers.ping_sent_ms world.system)
                    (sym v.has_net)
                  ∙ sent) in
            moved_with _ _ world _ _ rest (
              subst (λ o. Valid (after built o) (record world { system = p.1 })) (sym has)
                (with_net e world net p.1 v valid))
        | inr (t, h) ↦ moved_with _ _ world _ _ h v
      ]

  pub timers_step-Valid :
      (e : AeEngine codec) (answers : Answers) (world : World) (e' : AeEngine codec) (sys' : System)
      → Valid e world
      → timers_step e answers world.system ≡ some (e', sys')
      → Valid e' (record world { system = sys' })
  unfolding timers_step
  timers_step-Valid e answers world e' sys' v q =
      let (p, kept, rest) =
        bind-some (keepalive_step e answers world.system) (λ p. ping_step p.0 answers p.1)
          (e', sys') q in
      ping_step-Valid p.0 answers (record world { system = p.1 }) e' sys'
        (keepalive_step-Valid e answers world p.0 p.1 v kept) rest

pub pong-Valid :
    (floats : Floats) {codec : Codec floats.F} (e : AeEngine codec) (now : ℕ) (world : World)
    → Valid e world
    → Valid (pong floats e now) world
unfolding pong
pong-Valid floats e now world v =
    let answered = record e {
      rtt_ms = floats.of_int ((now + 2 ^ 64 - e.ping_send_time_ms) % 2 ^ 64);
      ping_send_time_ms = 0;
    } in
    elim (Bool-cases (ltb 0 e.ping_send_time_ms)) [
      | inl q ↦ subst (λ b. Valid (if b then answered else e) world) (sym q) v
      | inr q ↦ subst (λ b. Valid (if b then answered else e) world) (sym q) v
    ]
