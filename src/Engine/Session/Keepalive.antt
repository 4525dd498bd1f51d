-- ===== src/Engine/Session/Keepalive.antt =====
-- The control packets of core/src/audio_engine.c and what they leave of the engine's socket.
use mathlib.Core.Path.{subst, subst₂}
use mathlib.Core.Option.{some-injective}
use audio_project.Base.{
  ℕ, List, Option, some, true, ℤ, pos, ◌≡◌, refl, sym, ap, ◌∙◌, Option-cases, bind-some, positive?,
  inl, inr, ◌>>=◌,
}
use audio_project.Opus.{Codec}
use audio_project.Network.{Net, System, send}
use audio_project.Network.Reach.{sent-IsValid}
use audio_project.Network.Valid as Sockets
use audio_project.Rtp.{build_keepalive}
use audio_project.Engine.{AeEngine, World, event_connected}
use audio_project.Engine.Session.{Greeting, fire, send_built, send_keepalive, greet}
use audio_project.Engine.Session.Valid.{Valid, fire-Valid}

pub send_built-IsValid :
    (net : Net) (sys : System) (built : ℤ × Option (List ℕ)) (answer : ℤ) (sent_ms : ℕ)
    (after : Option Net) (sys' : System)
    → Sockets.IsValid net sys
    → send_built (some net) built answer sent_ms sys ≡ some (after, sys')
    → (net' : Net) × (after ≡ some net') × Sockets.IsValid net' sys'
unfolding send_built
send_built-IsValid net sys (len, packet) answer sent_ms after sys' v q =
    elim (Option-cases (positive? len)) [
      | inl t ↦
          let same = some-injective _ _ (sym (rw (send_built, t) refl) ∙ q) in
          (net, ap (λ p. p.0) (sym same), subst (λ s. Sockets.IsValid net s) (ap (λ p. p.1) same) v)
      | inr (n, t) ↦
          let sent : (send (some net) packet len answer sent_ms sys >>= λ p. some (p.1, p.2))
              ≡ some (after, sys') =
            sym (rw (send_built, t) refl) ∙ q in
          let (p, made, rest) =
            bind-some (send (some net) packet len answer sent_ms sys) (λ p. some (p.1, p.2))
              (after, sys') sent in
          let same = some-injective _ _ rest in
          sent-IsValid net sys packet len answer sent_ms p.0 after sys' v
            (made ∙ ap (λ r. some (p.0, r.0, r.1)) same)
    ]

module _ {F : Type 0} {codec : Codec F} where
  pub send_keepalive-Valid :
      (e : AeEngine codec) (channel : ℕ) (ka_buf : List ℕ) (answer : ℤ) (sent_ms : ℕ)
      (world : World) (after : Option Net) (sys' : System)
      → Valid e world
      → send_keepalive e channel ka_buf answer sent_ms world.system ≡ some (after, sys')
      → (net : Net) × (after ≡ some net) × Sockets.IsValid net sys'
  unfolding send_keepalive
  send_keepalive-Valid e channel ka_buf answer sent_ms world after sys' v q =
      let (built, made, sends) =
        bind-some (build_keepalive e.server_id channel e.table.client_id (some ka_buf) (pos 20))
          (λ built. send_built e.network built answer sent_ms world.system) (after, sys') q in
      send_built-IsValid v.net world.system built answer sent_ms after sys' v.net_valid
        (ap (λ o. send_built o built answer sent_ms world.system) (sym v.has_net) ∙ sends)

  pub greet-Valid :
      (e : AeEngine codec) (greeting : Greeting) (world : World) (e' : AeEngine codec)
      (world' : World)
      → Valid e world
      → greet e greeting world ≡ some (e', world')
      → Valid e' world' × (e'.connected ≡ true)
  unfolding greet
  greet-Valid e greeting world e' world' v q =
      let online = record e { connected = true } in
      let final : Option Net → AeEngine codec = λ net. record online {
        network = net;
        last_keepalive_ms = greeting.now;
        last_ping_ms = greeting.now;
      } in
      let finish : Option Net × System → AeEngine codec × World =
        λ p. (final p.0, fire (final p.0) event_connected (record world { system = p.1 })) in
      let (p, sent, rest) =
        bind-some
          (send_keepalive online 0 greeting.ka_buf greeting.answer greeting.sent_ms world.system)
          (λ p. some (finish p)) (e', world') q in
      let same : finish p ≡ (e', world') = some-injective _ _ rest in
      let (net, found, valid) =
        send_keepalive-Valid online 0 greeting.ka_buf greeting.answer greeting.sent_ms world p.0 p.1
          (record {
            net = v.net;
            has_net = v.has_net;
            net_valid = v.net_valid;
            table_valid = v.table_valid;
            keys = v.keys;
            has_keys = v.has_keys;
            keys_valid = v.keys_valid;
            keyed = v.keyed;
            sends = v.sends;
            joined = λ on. refl;
            host_room = v.host_room;
            host_ends = v.host_ends;
            name_room = v.name_room;
            name_ends = v.name_ends;
          })
          sent in
      let before : Valid (final p.0) (record world { system = p.1 }) = record {
        net = net;
        has_net = found;
        net_valid = valid;
        table_valid = v.table_valid;
        keys = v.keys;
        has_keys = v.has_keys;
        keys_valid = v.keys_valid;
        keyed = v.keyed;
        sends = v.sends;
        joined = λ on. refl;
        host_room = v.host_room;
        host_ends = v.host_ends;
        name_room = v.name_room;
        name_ends = v.name_ends;
      } in
      (
        subst₂ Valid (ap (λ r. r.0) same) (ap (λ r. r.1) same)
            (fire-Valid (final p.0) event_connected (record world { system = p.1 }) before),
        ap (λ r. r.0.connected) (sym same),
      )
