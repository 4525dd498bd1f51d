-- ===== src/Engine/Session/Join.antt =====
-- What `ae_engine_disconnect` and `ae_engine_join_channel` of core/src/audio_engine.c leave.
use mathlib.Core.Path.{subst, subst₂}
use mathlib.Core.Option.{some-injective}
use audio_project.Base.{
  [], pos, minus_one, ℕ, List, Option, none, some, true, false, ℤ, ◌≡◌, refl, sym, ap, ◌∙◌, arith,
  ◌>>=◌, bind-some, Bool-cases, inl, inr, if◌then◌else◌, ◌⊎◌,
}
use audio_project.Float.{Floats}
use audio_project.Opus.{Codec}
use audio_project.Network.{Net, System, disconnect}
use audio_project.Network as Socket
use audio_project.Network.Reach as Sockets
use audio_project.Network.Reach.{disconnect_gives}
use audio_project.Network.Strings.{length-strncpy, strncpy_behind}
use audio_project.Crypto.Table.{Context, derive_key, set_channel_key}
use audio_project.Crypto.Table.Lookup as Lookup
use audio_project.Engine.{AeEngine, World, ErrorCode, ae_ok, err_not_connected, event_disconnected}
use audio_project.Engine.Session as Call
use audio_project.Engine.Session.{Greeting, fire, enter_channel, joined, leave_active}
use audio_project.Engine.Channel.{channel_str_to_id}
use audio_project.Engine.Session.Leave.{Left, leave_active-Left}
use audio_project.Engine.Session.Valid.{
  Valid, Keyed, leave_active_connected, leave_active-Valid, fire-Valid, fire_system,
}

-- The table of keys after a join.
keyed_after :
    (keys : Context) (number : ℕ)
    → Lookup.IsValid keys
    → (status : ℤ) × (keys' : Context) × (set_channel_key (some keys) number none
        ≡ some (status, some keys'))
      × Lookup.IsValid keys'
      × Keyed keys' number
keyed_after keys number v =
    elim (Lookup.set_channel_key_refines keys number none (derive_key number) v
      (Lookup.key_or_derived-none number)) [
        | inl (keys', set, valid, found) ↦
            (pos 0, keys', set, valid, inl (derive_key number, found number ∙ ground arith))
        | inr (set, full, no_key) ↦ (minus_one, keys, set, v, inr full)
      ]

module _ (floats : Floats) {codec : Codec floats.F} where
  open floats use {F}

  pub disconnect-Valid :
      (e e' : AeEngine codec) (world world' : World)
      → Valid e world
      → Call.disconnect (some e) world ≡ (some e', world')
      → Valid e' world'
  unfolding Call.disconnect
  disconnect-Valid e e' world world' v q =
      let (net', sys', gives, valid) = disconnect_gives v.net world.system v.net_valid in
      let off : Option Net → AeEngine codec = λ net. record e {
        transmitting = false;
        connected = false;
        network = net;
        channel = record (e.channel) { active = false };
      } in
      let after : Option Net × System → Option (AeEngine codec) × World =
        λ r. (some (off r.0), fire (off r.0) event_disconnected (record world { system = r.1 })) in
      let same : after (some net', sys') ≡ (some e', world') =
        sym (ap (λ o. after (disconnect o world.system)) v.has_net ∙ ap after gives) ∙ q in
      let before : Valid (off (some net')) (record world { system = sys' }) = record {
        net = net';
        has_net = refl;
        net_valid = valid;
        table_valid = v.table_valid;
        keys = v.keys;
        has_keys = v.has_keys;
        keys_valid = v.keys_valid;
        keyed = λ on. absurd (cc on);
        sends = λ on. on;
        joined = λ on. on;
        host_room = v.host_room;
        host_ends = v.host_ends;
        name_room = v.name_room;
        name_ends = v.name_ends;
      } in
      subst₂ Valid (some-injective _ _ (ap (λ t. t.0) same)) (ap (λ t. t.1) same)
        (fire-Valid (off (some net')) event_disconnected (record world { system = sys' }) before)

  -- `ae_engine_destroy` on a valid engine leaves no socket open.
  pub destroy_closes :
      (e : AeEngine codec) (world : World)
      → Valid e world
      → (Call.destroy (some e) world).system.open_sockets ≡ []
  unfolding Call.destroy Call.disconnect
  destroy_closes e world v =
      let (net', sys', gives, valid) = disconnect_gives v.net world.system v.net_valid in
      let off : Option Net → AeEngine codec = λ net. record e {
        transmitting = false;
        connected = false;
        network = net;
        channel = record (e.channel) { active = false };
      } in
      let left : Option Net × System → List ℕ = λ r.
        (Socket.destroy r.0
          (fire (off r.0) event_disconnected
            (record world { system = r.1 })).system).open_sockets in
      ap (λ o. left (disconnect o world.system)) v.has_net
      ∙ ap left gives
      ∙ ap (λ s. (Socket.destroy (some net') s).open_sockets)
          (sym (fire_system (off (some net')) event_disconnected (record world { system = sys' })))
      ∙ Sockets.destroy_closes net' sys' valid

  -- The engine in its new channel, with the keys that `ae_crypto_set_channel_key` left.
  joined-Valid :
      (e : AeEngine codec) (channel_id : List ℕ) (number : ℕ) (keys : Context) (world : World)
      → Valid e world
      → e.connected ≡ true
      → e.transmitting ≡ false
      → Lookup.IsValid keys
      → Keyed keys number
      → Valid (joined floats e channel_id number (some keys)) world
  unfolding joined
  joined-Valid e channel_id number keys world v on silent valid keyed = record {
    net = v.net;
    has_net = v.has_net;
    net_valid = v.net_valid;
    table_valid = v.table_valid;
    keys = keys;
    has_keys = refl;
    keys_valid = valid;
    keyed = λ q. keyed;
    sends = λ q. absurd (cc (silent, q));
    joined = λ q. on;
    host_room = v.host_room;
    host_ends = v.host_ends;
    name_room =
        length-strncpy e.channel.channel_id_str channel_id 63 (omega (arith, v.name_room))
        ∙ v.name_room;
    name_ends = strncpy_behind e.channel.channel_id_str channel_id 63 ∙ v.name_ends;
  }

  -- In the channel of that name, without transmitting.
  abbrev pub Entered : List ℕ → AeEngine codec → Type 0
  Entered channel_id e =
      (e.channel.active ≡ true)
      × (e.transmitting ≡ false)
      × (channel_str_to_id (some channel_id) ≡ some e.channel.channel_id_num)

  enter_channel-Valid :
      (e e' : AeEngine codec) (channel_id : List ℕ) (world : World)
      → Valid e world
      → e.connected ≡ true
      → enter_channel floats e channel_id ≡ some e'
      → Valid e' world × Entered channel_id e' × Left e e'
  unfolding enter_channel joined
  enter_channel-Valid e e' channel_id world v on q =
      let left = leave_active e in
      let (valid, silent) = leave_active-Valid e world v in
      let (number, named, rest) =
        bind-some (channel_str_to_id (some channel_id))
          (λ number.
            set_channel_key left.crypto number none
            >>= (λ p. some (joined floats left channel_id number p.1)))
          e' q in
      let (status, keys', set, keys_valid, keyed) =
        keyed_after valid.keys number valid.keys_valid in
      let set' : set_channel_key left.crypto number none ≡ some (status, some keys') =
        ap (λ o. set_channel_key o number none) valid.has_keys ∙ set in
      let same : some (joined floats left channel_id number (some keys')) ≡ some e' =
        sym (ap (λ o. o >>= (λ p. some (joined floats left channel_id number p.1))) set') ∙ rest in
      subst (λ t. Valid t world × Entered channel_id t × Left e t) (some-injective _ _ same)
        (
          joined-Valid left channel_id number keys' world valid (leave_active_connected e ∙ on)
              silent keys_valid keyed,
          (refl, silent, named),
          leave_active-Left e world v,
        )

  -- `ae_engine_join_channel` on a valid engine that is connected returns AE_OK, leaves the channel that
  -- the engine was in, ends its transmission, and leaves the engine in the channel whose number belongs
  -- to the name; the table has a key for it unless it holds 64 keys. On one that is not connected it
  -- returns AE_ERR_NOT_CONNECTED and changes nothing.
  pub join_channel_reports :
      (e e' : AeEngine codec) (channel_id : List ℕ) (world : World) (code : ErrorCode)
      → Valid e world
      → Call.join_channel floats (some e) (some channel_id) ≡ some (code, some e')
      → Valid e' world
        × (((e.connected ≡ true) × (code ≡ ae_ok) × Entered channel_id e')
            ⊎ (e.connected ≡ false) × (code ≡ err_not_connected) × (e' ≡ e))
  unfolding Call.join_channel
  join_channel_reports e e' channel_id world code v q =
      let entered : Option (ErrorCode × Option (AeEngine codec)) =
        enter_channel floats e channel_id >>= (λ t. some (ae_ok, some t)) in
      let refused : Option (ErrorCode × Option (AeEngine codec)) =
        some (err_not_connected, some e) in
      elim (Bool-cases e.connected) [
        | inl on ↦
            let (t, enters, rest) =
              bind-some (enter_channel floats e channel_id) (λ t. some (ae_ok, some t))
                (code, some e') (sym (ap (λ b. if b then entered else refused) on) ∙ q) in
            let same = some-injective _ _ rest in
            let (valid, what, ended) =
              subst (λ t. Valid t world × Entered channel_id t × Left e t)
                (some-injective _ _ (ap (λ r. r.1) same))
                (enter_channel-Valid e t channel_id world v on enters) in
            (valid, inl (on, sym (ap (λ r. r.0) same), what))
        | inr off ↦
            let same =
              some-injective _ _ (sym (ap (λ b. if b then entered else refused) off) ∙ q) in
            let engine : e ≡ e' = some-injective _ _ (ap (λ r. r.1) same) in
            (subst (λ t. Valid t world) engine v, inr (off, sym (ap (λ r. r.0) same), sym engine))
      ]

  enter_channel_gives :
      (e : AeEngine codec) (channel_id : List ℕ) (number : ℕ) (world : World)
      → Valid e world
      → channel_str_to_id (some channel_id) ≡ some number
      → (e' : AeEngine codec) × (enter_channel floats e channel_id ≡ some e')
  unfolding enter_channel
  enter_channel_gives e channel_id number world v named =
      let left = leave_active e in
      let (valid, silent) = leave_active-Valid e world v in
      let (status, keys', set, keys_valid, keyed) =
        keyed_after valid.keys number valid.keys_valid in
      (
        joined floats left channel_id number (some keys'),
        ap
              (λ o. o >>= (λ n.
                set_channel_key left.crypto n none
                >>= (λ p. some (joined floats left channel_id n p.1))))
              named
            ∙ ap
                (λ o.
                  set_channel_key o number none
                  >>= (λ p. some (joined floats left channel_id number p.1)))
                valid.has_keys
            ∙ ap (λ o. o >>= (λ p. some (joined floats left channel_id number p.1))) set,
      )

  -- `ae_engine_join_channel` on a valid engine, for a name that has a number: an engine that is connected
  -- gives AE_OK, does not transmit, and is in the channel with that number, with every stream ended where
  -- it was in a channel before and the streams as they were where it was in none; the table has a key for it unless it holds 64 keys. An engine that is not connected gives
  -- AE_ERR_NOT_CONNECTED and is unchanged.
  pub join_channel_gives :
      (e : AeEngine codec) (channel_id : List ℕ) (number : ℕ) (world : World)
      → Valid e world
      → channel_str_to_id (some channel_id) ≡ some number
      → (code : ErrorCode) × (e' : AeEngine codec) × (Call.join_channel floats
            (some e)
            (some channel_id)
          ≡ some (code, some e'))
        × Valid e' world
        × (((e.connected ≡ true)
              × (code ≡ ae_ok)
              × Entered channel_id e'
              × (e'.channel.channel_id_num ≡ number)
              × Left e e')
            ⊎ (e.connected ≡ false) × (code ≡ err_not_connected) × (e' ≡ e))
  unfolding Call.join_channel
  join_channel_gives e channel_id number world v named =
      let (t, enters) = enter_channel_gives e channel_id number world v named in
      let entered : Option (ErrorCode × Option (AeEngine codec)) =
        enter_channel floats e channel_id >>= (λ t. some (ae_ok, some t)) in
      let refused : Option (ErrorCode × Option (AeEngine codec)) =
        some (err_not_connected, some e) in
      elim (Bool-cases e.connected) [
        | inl on ↦
            let (valid, what, ended) = enter_channel-Valid e t channel_id world v on enters in
            (
              ae_ok,
              t,
              ap (λ b. if b then entered else refused) on
                  ∙ ap (λ o. o >>= (λ t. some (ae_ok, some t))) enters,
              valid,
              inl (on, refl, what, some-injective _ _ (sym what.2 ∙ named), ended),
            )
        | inr off ↦ (
          err_not_connected,
          e,
          ap (λ b. if b then entered else refused) off,
          v,
          inr (off, refl, refl),
        )
      ]
