-- ===== src/Engine/Timers/Intervals.antt =====
-- When the keepalive and the ping of core/src/audio_engine.c go out.
use audio_project.Base.{
  ◌++◌, ◌∷◌, [], ℕ, ◌<◌, ◌≤◌, List, Option, none, some, Bool, ℤ, pos, positive?, leb, lt→ltb,
  length, ◌≡◌, refl, sym, ap, ◌∙◌, arith, inl, inr, ◌⊎◌, ◌>>=◌, if◌then◌else◌, Bool-cases,
}
use audio_project.Float.{Floats}
use audio_project.Opus.{Codec}
use audio_project.Network.{Net, System}
use audio_project.Rtp.{build_ping}
use audio_project.Rtp.Control.{ping_built}
use audio_project.Engine.{AeEngine}
use audio_project.Engine.Session.{send_keepalive, send_built}
use audio_project.Engine.Session.Total.{Went, send_keepalive_total, send_built_total}
use audio_project.Engine.Timers.{
  Answers, elapsed, keepalive_step, send_ping, ping_step, timers_step, pong,
}

module _ {F : Type 0} {codec : Codec F} where
  -- A keepalive goes out exactly where 5000 milliseconds have passed since the last one.
  keepalive_step_total :
      (e : AeEngine codec) (net : Net) (answers : Answers) (sys : System)
      → e.network ≡ some net
      → length answers.ka_buf ≡ 20
      → (net' : Net) × (sys' : System) × (((5000 ≤ elapsed answers.now e.last_keepalive_ms)
            × (keepalive_step e answers sys
                ≡ some (record e { network = some net'; last_keepalive_ms = answers.now }, sys')))
          ⊎ (elapsed answers.now e.last_keepalive_ms < 5000)
            × (keepalive_step e answers sys ≡ some (e, sys)))
  unfolding keepalive_step
  keepalive_step_total e net answers sys has room =
      let channel = if e.channel.active then e.channel.channel_id_num else 0 in
      let (net', sys', sent) =
        send_keepalive_total e net channel answers.ka_buf answers.ka_answer answers.ka_sent_ms sys
          has room in
      let finish : Option Net × System → Option (AeEngine codec × System) =
        λ p. some (record e { network = p.0; last_keepalive_ms = answers.now }, p.1) in
      let choose : Bool → Option (AeEngine codec × System) = λ b.
        if b
        then send_keepalive e channel answers.ka_buf answers.ka_answer answers.ka_sent_ms sys
          >>= finish
        else some (e, sys) in
      (
        net',
        sys',
        elim (Bool-cases (leb 5000 (elapsed answers.now e.last_keepalive_ms))) [
          | inl q ↦ inl (ground arith, ap choose q ∙ ap (λ o. o >>= finish) sent)
          | inr q ↦ inr (ground arith, ap choose q)
        ],
      )

  -- The same for the ping and 2000 milliseconds; the time of the ping is kept for its answer.
  ping_step_total :
      (e : AeEngine codec) (net : Net) (answers : Answers) (sys : System)
      → e.network ≡ some net
      → length answers.ping_buf ≡ 28
      → (net' : Net) × (sys' : System) × (((2000 ≤ elapsed answers.now e.last_ping_ms)
            × (ping_step e answers sys
                ≡ some (
                  record e {
                    network = some net';
                    ping_send_time_ms = answers.now;
                    last_ping_ms = answers.now;
                  },
                  sys',
                ))
            × ((packet : List ℕ) × (build_ping e.server_id e.table.client_id answers.now
                    (some answers.ping_buf)
                    (pos 28)
                  ≡ some (pos 28, some packet))
                × Went net sys packet sys'))
          ⊎ (elapsed answers.now e.last_ping_ms < 2000) × (ping_step e answers sys ≡ some (e, sys)))
  unfolding ping_step send_ping
  ping_step_total e net answers sys has room =
      let (packet, built, long) =
        ping_built e.server_id e.table.client_id answers.now answers.ping_buf room in
      let (net', sys', sent, went) =
        send_built_total net 28 packet answers.ping_answer answers.ping_sent_ms sys long
          (omega arith) in
      let after : ℤ × Option (List ℕ) → Option Net × System → Option (AeEngine codec × System) =
        λ built p. some (
          record e {
            network = p.0;
            ping_send_time_ms = elim (positive? built.0) [
              | none ↦ e.ping_send_time_ms
              | some n ↦ answers.now
            ];
            last_ping_ms = answers.now;
          },
          p.1,
        ) in
      let finish : ℤ × Option (List ℕ) → Option (AeEngine codec × System) = λ built.
        send_built e.network built answers.ping_answer answers.ping_sent_ms sys >>= after built in
      let choose : Bool → Option (AeEngine codec × System) = λ b.
        if b
        then build_ping e.server_id e.table.client_id answers.now (some answers.ping_buf) (pos 28)
          >>= finish
        else some (e, sys) in
      (
        net',
        sys',
        elim (Bool-cases (leb 2000 (elapsed answers.now e.last_ping_ms))) [
          | inl q ↦ inl (
            ground arith,
            ap choose q
                ∙ ap (λ o. o >>= finish) built
                ∙ ap
                    (λ o.
                      send_built o (pos 28, some packet) answers.ping_answer answers.ping_sent_ms
                        sys
                      >>= after (pos 28, some packet))
                    has
                ∙ ap (λ o. o >>= after (pos 28, some packet)) sent,
            (packet, built, went),
          )
          | inr q ↦ inr (ground arith, ap choose q)
        ],
      )

  -- A step of the timers, for buffers of 20 and 28 bytes, always gives a result. It changes the time of
  -- the last keepalive only where 5000 milliseconds have passed, and that of the last ping only where
  -- 2000 have; after it fewer than 5000 and 2000 milliseconds have passed since them.
  pub timers_step_regular :
      (e : AeEngine codec) (net : Net) (answers : Answers) (sys : System)
      → e.network ≡ some net
      → length answers.ka_buf ≡ 20
      → length answers.ping_buf ≡ 28
      → (e' : AeEngine codec) × (sys' : System) × (timers_step e answers sys ≡ some (e', sys'))
        × (elapsed answers.now e'.last_keepalive_ms < 5000)
        × (elapsed answers.now e'.last_ping_ms < 2000)
        × ((e'.last_keepalive_ms ≡ e.last_keepalive_ms)
            ⊎ (5000 ≤ elapsed answers.now e.last_keepalive_ms))
        × ((e'.last_ping_ms ≡ e.last_ping_ms) ⊎ (2000 ≤ elapsed answers.now e.last_ping_ms))
  unfolding timers_step
  timers_step_regular e net answers sys has ka ping =
      let (net', sys', kept) = keepalive_step_total e net answers sys has ka in
      let now_fresh : elapsed answers.now answers.now ≡ 0 = omega arith in
      elim kept [
        | inl (due, q) ↦
            let e' = record e { network = some net'; last_keepalive_ms = answers.now } in
            let (net'', sys'', pinged) = ping_step_total e' net' answers sys' refl ping in
            elim pinged [
              | inl (due', r, sends) ↦ (
                record e' {
                  network = some net'';
                  ping_send_time_ms = answers.now;
                  last_ping_ms = answers.now;
                },
                sys'',
                ap (λ o. o >>= (λ p. ping_step p.0 answers p.1)) q ∙ r,
                omega (arith, now_fresh),
                omega (arith, now_fresh),
                inr due,
                inr due',
              )
              | inr (early, r) ↦ (
                e',
                sys',
                ap (λ o. o >>= (λ p. ping_step p.0 answers p.1)) q ∙ r,
                omega (arith, now_fresh),
                early,
                inr due,
                inl refl,
              )
            ]
        | inr (soon, q) ↦
            let (net'', sys'', pinged) = ping_step_total e net answers sys has ping in
            elim pinged [
              | inl (due', r, sends) ↦ (
                record e {
                  network = some net'';
                  ping_send_time_ms = answers.now;
                  last_ping_ms = answers.now;
                },
                sys'',
                ap (λ o. o >>= (λ p. ping_step p.0 answers p.1)) q ∙ r,
                soon,
                omega (arith, now_fresh),
                inl refl,
                inr due',
              )
              | inr (early, r) ↦ (
                e,
                sys,
                ap (λ o. o >>= (λ p. ping_step p.0 answers p.1)) q ∙ r,
                soon,
                early,
                inl refl,
                inl refl,
              )
            ]
      ]

module _ (floats : Floats) {codec : Codec floats.F} where
  open floats use {F, of_int}

  -- A ping and its answer: where a ping is due at a time after 0, and there is a socket, the ping packet
  -- with that time is the next datagram of the outbox, and the first PONG after it, at any time, gives that time less the ping's as the round trip; a second PONG changes nothing.
  pub pong-ping_step :
      (e : AeEngine codec) (net : Net) (answers : Answers) (sys : System) (later other fd : ℕ)
      → e.network ≡ some net
      → net.sock ≡ some fd
      → length answers.ping_buf ≡ 28
      → 0 < answers.now
      → 2000 ≤ elapsed answers.now e.last_ping_ms
      → (e' : AeEngine codec) × (sys' : System) × (ping_step e answers sys ≡ some (e', sys'))
        × ((packet : List ℕ) × (build_ping e.server_id e.table.client_id answers.now
                (some answers.ping_buf)
                (pos 28)
              ≡ some (pos 28, some packet))
            × (sys' ≡ record sys { outbox = sys.outbox ++ (packet ∷ []) }))
        × ((pong floats e' later).rtt_ms ≡ of_int (elapsed later answers.now))
        × (pong floats (pong floats e' later) other ≡ pong floats e' later)
  unfolding pong
  pong-ping_step e net answers sys later other fd has socket room positive due =
      let (net', sys', pinged) = ping_step_total e net answers sys has room in
      elim pinged [
        | inl (due', q, (packet, built, what)) ↦
            let e' = record e {
              network = some net';
              ping_send_time_ms = answers.now;
              last_ping_ms = answers.now;
            } in
            let answered : AeEngine codec = record e' {
              rtt_ms = of_int (elapsed later answers.now);
              ping_send_time_ms = 0;
            } in
            let first : pong floats e' later ≡ answered =
              ap (λ b. if b then answered else e') (lt→ltb 0 answers.now positive) in
            (
              e',
              sys',
              q,
              (
                packet,
                built,
                elim what [
                  | inl (no_socket, quiet) ↦ absurd (cc (no_socket, socket))
                  | inr (other_fd, has_socket, went) ↦ went
                ],
              ),
              ap (λ t. t.rtt_ms) first,
              ap (λ t. pong floats t other) first ∙ sym first,
            )
        | inr (early, q) ↦ absurd (omega (arith, due, early))
      ]
