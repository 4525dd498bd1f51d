-- ===== src/Engine/Session/Total.antt =====
-- The calls of core/src/audio_engine.c that send control packets stay within their buffers.
use audio_project.Base.{
  none, take, take_all, ◌++◌, ◌∷◌, [], ◌⊎◌, zero, suc, true, ℕ, List, some, ℤ, pos, length, ◌≡◌,
  refl, ap, ◌∙◌, arith, ◌>>=◌, inl, inr, to_u16, ◌<◌,
}
use audio_project.Opus.{Codec}
use audio_project.Network.{Net, System, Answers, send}
use audio_project.Network as Socket
use audio_project.Network.Outcome.{send_lem, connect-Outcome}
use audio_project.Rtp.Layout.{header_bytes}
use audio_project.Rtp.Control.{keepalive_header, keepalive_built}
use audio_project.Engine.{AeEngine, World, ErrorCode, ae_ok, err_network, event_connected}
use audio_project.Engine.Session.{
  Greeting, fire, send_built, send_keepalive, greet, connect, after_dial, dialled,
}
use audio_project.Engine.Session.Valid.{Valid}

-- Where there is a socket, the packet is the next datagram of the outbox.
abbrev pub Went : Net → System → List ℕ → System → Type 0
Went net sys packet sys' =
    ((net.sock ≡ none) × (sys' ≡ sys))
    ⊎ (fd : ℕ) × (net.sock ≡ some fd) × (sys' ≡ record sys { outbox = sys.outbox ++ (packet ∷ []) })

-- A packet of `n` bytes goes out.
pub send_built_total :
    (net : Net) (n : ℕ) (packet : List ℕ) (answer : ℤ) (now : ℕ) (sys : System)
    → length packet ≡ n
    → 0 < n
    → (net' : Net) × (sys' : System) × (send_built (some net) (pos n, some packet) answer now sys
        ≡ some (some net', sys'))
      × Went net sys packet sys'
unfolding send_built
send_built_total net zero packet answer now sys long some_bytes = absurd (omega arith)
send_built_total net (suc n) packet answer now sys long some_bytes =
    let (status, net', sys', sent, what) =
      send_lem net sys packet n answer now (omega (arith, long)) in
    let whole : take (suc n) packet ≡ packet = take_all (suc n) packet (omega (arith, long)) in
    (
      net',
      sys',
      rw (send_built, sent, ◌>>=◌) refl,
      elim what [
        | inl (no_socket, bad, same, quiet) ↦ inl (no_socket, quiet)
        | inr (fd, has_socket, went, rest) ↦
            inr (
              fd,
              has_socket,
              went ∙ ap (λ t. record sys { outbox = sys.outbox ++ (t ∷ []) }) whole,
            )
      ],
    )

length-keepalive :
    (server channel client : ℕ)
    → length (header_bytes (keepalive_header server channel client)) ≡ 20
length-keepalive server channel client = refl

module _ {F : Type 0} {codec : Codec F} where
  pub send_keepalive_total :
      (e : AeEngine codec) (net : Net) (channel : ℕ) (ka_buf : List ℕ) (answer : ℤ) (sent_ms : ℕ)
      (sys : System)
      → e.network ≡ some net
      → length ka_buf ≡ 20
      → (net' : Net) × (sys' : System) × (send_keepalive e channel ka_buf answer sent_ms sys
          ≡ some (some net', sys'))
  unfolding send_keepalive
  send_keepalive_total e net channel ka_buf answer sent_ms sys has room =
      let header = keepalive_header e.server_id channel e.table.client_id in
      let (net', sys', sent, went) =
        send_built_total net 20 (header_bytes header) answer sent_ms sys
          (length-keepalive e.server_id channel e.table.client_id) (omega arith) in
      (
        net',
        sys',
        ap (λ b. b >>= (λ built. send_built e.network built answer sent_ms sys))
              (keepalive_built e.server_id channel e.table.client_id ka_buf room)
            ∙ ap (λ o. send_built o (pos 20, some (header_bytes header)) answer sent_ms sys) has
            ∙ sent,
      )

  greet_total :
      (e : AeEngine codec) (net : Net) (greeting : Greeting) (world : World)
      → e.network ≡ some net
      → length greeting.ka_buf ≡ 20
      → (e' : AeEngine codec) × (world' : World) × (greet e greeting world ≡ some (e', world'))
  unfolding greet
  greet_total e net greeting world has room =
      let online = record e { connected = true } in
      let (net', sys', sent) =
        send_keepalive_total online net 0 greeting.ka_buf greeting.answer greeting.sent_ms
          world.system has room in
      let e' = record online {
        network = some net';
        last_keepalive_ms = greeting.now;
        last_ping_ms = greeting.now;
      } in
      (e', fire e' event_connected (record world { system = sys' }), simp (greet, sent, ◌>>=◌))

  -- With a buffer of 20 bytes for the keepalive, connecting always gives a result.
  pub connect_total :
      (e : AeEngine codec) (host : List ℕ) (udp_port : ℤ) (answers : Answers) (greeting : Greeting)
      (world : World)
      → Valid e world
      → length greeting.ka_buf ≡ 20
      → (code : ErrorCode) × (e' : AeEngine codec) × (world' : World) × (connect
            (some e)
            (some host)
            udp_port
            answers
            greeting
            world
          ≡ some (code, some e', world'))
  unfolding connect after_dial greet dialled
  connect_total e host udp_port answers greeting world v room =
      let (net, sys, status, answered, valid, outcome) =
        connect-Outcome v.net world.system host (to_u16 udp_port) answers v.net_valid in
      let dial = ap (after_dial e host udp_port greeting world) (
        ap (λ o. Socket.connect o (some host) (to_u16 udp_port) answers world.system) v.has_net
        ∙ answered) in
      elim outcome [
        | inl (fd, reachable, ok, has, on) ↦
            let at = dialled e host udp_port (some net) in
            let (e', world', greeted) =
              greet_total at net greeting (record world { system = sys }) refl room in
            (
              ae_ok,
              e',
              world',
              dial
                  ∙ ap (λ t. after_dial e host udp_port greeting world (t, some net, sys)) ok
                  ∙ ap (λ o. o >>= (λ p. some (ae_ok, some p.0, p.1))) greeted,
            )
        | inr (bad, minus, no_socket, off) ↦ (
          err_network,
          dialled e host udp_port (some net),
          record world { system = sys },
          dial ∙ ap (λ t. after_dial e host udp_port greeting world (t, some net, sys)) minus,
        )
      ]
