-- ===== src/Engine/Session/Outcome.antt =====
-- What `ae_engine_connect` of core/src/audio_engine.c reports and leaves on each of its branches.
use mathlib.Core.Path.{subst₂}
use mathlib.Core.Option.{some-injective}
use audio_project.Base.{
  ℕ, List, none, some, true, ℤ, to_u16, ◌⊎◌, inl, inr, ◌≡◌, refl, sym, ap, arith, ◌∙◌, bind-some,
}
use audio_project.Opus.{Codec}
use audio_project.Network.{Net, System, Answers, strncpy}
use audio_project.Network as Socket
use audio_project.Network.Strings.{length-strncpy, strncpy_behind}
use audio_project.Network.Valid as Sockets
use audio_project.Network.Outcome.{Reachable, connect-Outcome}
use audio_project.Engine.{AeEngine, World, ErrorCode, ae_ok, err_network}
use audio_project.Engine.Session.{Greeting, connect, after_dial, dialled, greet, is_connected}
use audio_project.Engine.Session.Valid.{Valid}
use audio_project.Engine.Session.Keepalive.{greet-Valid}

module _ {F : Type 0} {codec : Codec F} where
  dialled-Valid :
      (e : AeEngine codec) (host : List ℕ) (udp_port : ℤ) (world : World) (net : Net) (sys : System)
      → Valid e world
      → Sockets.IsValid net sys
      → Valid (dialled e host udp_port (some net)) (record world { system = sys })
  unfolding dialled
  dialled-Valid e host udp_port world net sys v valid = record {
    net = net;
    has_net = refl;
    net_valid = valid;
    table_valid = v.table_valid;
    keys = v.keys;
    has_keys = v.has_keys;
    keys_valid = v.keys_valid;
    keyed = v.keyed;
    sends = v.sends;
    joined = v.joined;
    host_room = length-strncpy e.server_host host 255 (omega (arith, v.host_room)) ∙ v.host_room;
    host_ends = strncpy_behind e.server_host host 255 ∙ v.host_ends;
    name_room = v.name_room;
    name_ends = v.name_ends;
  }

  -- AE_OK with a connected engine, or AE_ERR_NETWORK with the flag as it was and no socket.
  abbrev pub Dialled : AeEngine codec → Answers → ErrorCode → AeEngine codec → Type 0
  Dialled e answers code e' =
      ((fd : ℕ) × Reachable answers fd × (code ≡ ae_ok) × (is_connected (some e') ≡ true))
      ⊎ ((fd : ℕ) → ¬ Reachable answers fd)
        × (code ≡ err_network)
        × (is_connected (some e') ≡ is_connected (some e))
        × ((net : Net) × (e'.network ≡ some net) × (net.sock ≡ none))

  -- `ae_engine_connect` on a valid engine returns AE_OK exactly where `ae_net_connect` succeeds, that is
  -- where the host resolves and a usable socket is given, and then the engine is connected. Otherwise it
  -- returns AE_ERR_NETWORK, the engine's handle has no socket, and the engine counts as connected where
  -- it did before the call: a failed second connection leaves it connected without a socket. The engine
  -- stays valid on each branch.
  pub connect_reports :
      (e : AeEngine codec) (host : List ℕ) (udp_port : ℤ) (answers : Answers) (greeting : Greeting)
      (world : World) (code : ErrorCode) (e' : AeEngine codec) (world' : World)
      → Valid e world
      → connect (some e) (some host) udp_port answers greeting world ≡ some (code, some e', world')
      → Valid e' world' × Dialled e answers code e'
  unfolding connect after_dial dialled is_connected
  connect_reports e host udp_port answers greeting world code e' world' v q =
      let (net, sys, status, answered, valid, outcome) =
        connect-Outcome v.net world.system host (to_u16 udp_port) answers v.net_valid in
      let call : after_dial e host udp_port greeting world (status, some net, sys)
          ≡ some (code, some e', world') =
        ap (after_dial e host udp_port greeting world) (
          sym (
            ap (λ o. Socket.connect o (some host) (to_u16 udp_port) answers world.system) v.has_net
            ∙ answered))
        ∙ q in
      elim outcome [
        | inl (fd, reachable, zero_status, has, on) ↦
            let (p, greeted, rest) =
              bind-some
                (greet (dialled e host udp_port (some net)) greeting
                  (record world { system = sys }))
                (λ p. some (ae_ok, some p.0, p.1)) (code, some e', world')
                (ap (λ t. after_dial e host udp_port greeting world (t, some net, sys))
                    (sym zero_status)
                  ∙ call) in
            let same = some-injective _ _ rest in
            let (kept, online) =
              greet-Valid (dialled e host udp_port (some net)) greeting
                (record world { system = sys }) p.0 p.1
                (dialled-Valid e host udp_port world net sys v valid) greeted in
            let engine : p.0 ≡ e' = some-injective _ _ (ap (λ r. r.1) same) in
            (
              subst₂ Valid engine (ap (λ r. r.2) same) kept,
              inl (
                fd,
                reachable,
                sym (ap (λ r. r.0) same),
                ap (λ t. t.connected) (sym engine) ∙ online,
              ),
            )
        | inr (bad, minus, no_socket, off) ↦
            let refused : some (
              err_network,
              some (dialled e host udp_port (some net)),
              record world { system = sys },
            )
                ≡ some (code, some e', world') =
              ap (λ t. after_dial e host udp_port greeting world (t, some net, sys)) (sym minus)
              ∙ call in
            let same = some-injective _ _ refused in
            let engine : dialled e host udp_port (some net) ≡ e' =
              some-injective _ _ (ap (λ r. r.1) same) in
            (
              subst₂ Valid engine (ap (λ r. r.2) same)
                  (dialled-Valid e host udp_port world net sys v valid),
              inr (
                bad,
                sym (ap (λ r. r.0) same),
                ap (λ t. t.connected) (sym engine),
                (net, ap (λ t. t.network) (sym engine), no_socket),
              ),
            )
      ]
