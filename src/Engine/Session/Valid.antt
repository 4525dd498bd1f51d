-- ===== src/Engine/Session/Valid.antt =====
-- What holds of an engine of core/src/audio_engine.c between any two calls.
use mathlib.Core.Path.{subst, subst₂}
use mathlib.Core.Option.{some-injective}
use audio_project.Base.{
  ℕ, List, Option, some, Bool, true, false, length, get_elem?, if◌then◌else◌, ◌≡◌, refl, sym, ap,
  ◌∙◌, Bool-cases, Option-cases, inl, inr, ◌⊎◌,
}
use audio_project.Opus.{Codec, OpusDecoder}
use audio_project.Network.{Net, System}
use audio_project.Network.Valid as Sockets
use audio_project.Crypto.Table.{Context, find_key}
use audio_project.Crypto.Table.Lookup as Lookup
use audio_project.Streams as Streams
use audio_project.Streams.{Engine, destroy_all}
use audio_project.Streams.Count as Table
use audio_project.Engine.{AeEngine, World, Event}
use audio_project.Engine.Session.{fire, leave_channel_body, leave_active}

-- There is a key for the channel, or the table holds 64 keys.
abbrev pub Keyed : Context → ℕ → Type 0
Keyed keys channel = ((key : List ℕ) × (find_key keys channel ≡ some key)) ⊎ (keys.num_keys ≡ 64)

-- The handle of the socket is there and valid, and so are the table of streams and the table of keys, in
-- which the channel that the engine is in has a key unless the table is full. The engine transmits only
-- in a channel, and is in a channel only while it counts as connected. Both stored names end within
-- their arrays.
pub record Sound {F D : Type 0} (system : System) (network : Option Net) (crypto : Option Context)
    (table : Streams.Engine F D) (connected transmitting active : Bool) (number : ℕ)
    (host name : List ℕ) : Type 0 where
  pub net : Net
  pub has_net : network ≡ some net
  pub net_valid : Sockets.IsValid net system
  pub table_valid : Table.IsValid table
  pub keys : Context
  pub has_keys : crypto ≡ some keys
  pub keys_valid : Lookup.IsValid keys
  pub keyed : active ≡ true → Keyed keys number
  pub sends : transmitting ≡ true → active ≡ true
  pub joined : active ≡ true → connected ≡ true
  pub host_room : length host ≡ 256
  pub host_ends : get_elem? host 255 ≡ some 0
  pub name_room : length name ≡ 64
  pub name_ends : get_elem? name 63 ≡ some 0

-- The parts of an engine that this is about.
abbrev pub Valid : {F : Type 0} {codec : Codec F} → AeEngine codec → World → Type 0
Valid e world =
    Sound world.system e.network e.crypto e.table e.connected e.transmitting e.channel.active
      e.channel.channel_id_num e.server_host e.channel.channel_id_str

module _ {F : Type 0} {codec : Codec F} where
  pub moved :
      (x y : AeEngine codec) (world : World) → some x ≡ some y → Valid x world → Valid y world
  moved x y world q v = subst (λ e. Valid e world) (some-injective _ _ q) v

  -- The result of a step, with the system after it.
  pub moved_with :
      (x y : AeEngine codec) (world : World) (sys sys' : System)
      → ◌≡◌ {A = Option (AeEngine codec × System)} (some (x, sys)) (some (y, sys'))
      → Valid x (record world { system = sys })
      → Valid y (record world { system = sys' })
  moved_with x y world sys sys' q v =
      subst₂ (λ t s. Valid t (record world { system = s })) (ap (λ r. r.0) (some-injective _ _ q))
        (ap (λ r. r.1) (some-injective _ _ q)) v

  pub fire_system :
      (e : AeEngine codec) (event : Event) (world : World)
      → world.system ≡ (fire e event world).system
  unfolding fire
  fire_system e event world = elim (Option-cases e.event_cb) [
    | inl q ↦ rw (fire, q) refl
    | inr (cb, q) ↦ rw (fire, q) refl
  ]

  -- An event leaves the engine and its sockets as they are.
  pub fire-Valid :
      (e : AeEngine codec) (event : Event) (world : World)
      → Valid e world
      → Valid e (fire e event world)
  fire-Valid e event world v =
      subst
        (λ s.
          Sound s e.network e.crypto e.table e.connected e.transmitting e.channel.active
            e.channel.channel_id_num e.server_host e.channel.channel_id_str)
        (fire_system e event world) v

  pub leave_channel_body-Valid :
      (e : AeEngine codec) (world : World) → Valid e world → Valid (leave_channel_body e) world
  unfolding leave_channel_body
  leave_channel_body-Valid e world v = record {
    net = v.net;
    has_net = v.has_net;
    net_valid = v.net_valid;
    table_valid = (Table.destroy_all_lem e.table v.table_valid).0;
    keys = v.keys;
    has_keys = v.has_keys;
    keys_valid = v.keys_valid;
    keyed = λ q. absurd (cc q);
    sends = λ q. q;
    joined = λ q. absurd (cc q);
    host_room = v.host_room;
    host_ends = v.host_ends;
    name_room = v.name_room;
    name_ends = v.name_ends;
  }

  pub leave_active-Valid :
      (e : AeEngine codec) (world : World)
      → Valid e world
      → Valid (leave_active e) world × ((leave_active e).transmitting ≡ false)
  unfolding leave_active leave_channel_body
  leave_active-Valid e world v = elim (Bool-cases e.channel.active) [
    | inl q ↦
        let left : leave_channel_body e ≡ leave_active e =
          ap (λ b. if b then leave_channel_body e else e) (sym q) in
        (
          subst (λ t. Valid t world) left (leave_channel_body-Valid e world v),
          ap (λ t. t.transmitting) (sym left),
        )
    | inr q ↦
        let left : e ≡ leave_active e = ap (λ b. if b then leave_channel_body e else e) (sym q) in
        (
          subst (λ t. Valid t world) left v,
          elim (Bool-cases e.transmitting) [
            | inl on ↦ absurd (cc (v.sends on, q))
            | inr off ↦ ap (λ t. t.transmitting) (sym left) ∙ off
          ],
        )
  ]

  pub leave_active_connected : (e : AeEngine codec) → (leave_active e).connected ≡ e.connected
  unfolding leave_active leave_channel_body
  leave_active_connected e = elim (Bool-cases e.channel.active) [
    | inl q ↦ ap (λ b. (if b then leave_channel_body e else e).connected) q
    | inr q ↦ ap (λ b. (if b then leave_channel_body e else e).connected) q
  ]

  -- A handle and a system put in place of the engine's.
  pub with_net :
      (e : AeEngine codec) (world : World) (net : Net) (sys : System)
      → Valid e world
      → Sockets.IsValid net sys
      → Valid (record e { network = some net }) (record world { system = sys })
  with_net e world net sys v valid = record {
    net = net;
    has_net = refl;
    net_valid = valid;
    table_valid = v.table_valid;
    keys = v.keys;
    has_keys = v.has_keys;
    keys_valid = v.keys_valid;
    keyed = v.keyed;
    sends = v.sends;
    joined = v.joined;
    host_room = v.host_room;
    host_ends = v.host_ends;
    name_room = v.name_room;
    name_ends = v.name_ends;
  }

  -- Another flag for the transmission, which is set only in a channel.
  pub switched-Valid :
      (e : AeEngine codec) (on : Bool) (world : World)
      → (on ≡ true → e.channel.active ≡ true)
      → Valid e world
      → Valid (record e { transmitting = on }) world
  switched-Valid e on world allowed v = record {
    net = v.net;
    has_net = v.has_net;
    net_valid = v.net_valid;
    table_valid = v.table_valid;
    keys = v.keys;
    has_keys = v.has_keys;
    keys_valid = v.keys_valid;
    keyed = v.keyed;
    sends = allowed;
    joined = v.joined;
    host_room = v.host_room;
    host_ends = v.host_ends;
    name_room = v.name_room;
    name_ends = v.name_ends;
  }

  -- Another table of streams that is valid.
  pub table-Valid :
      (e : AeEngine codec) (table : Streams.Engine F (OpusDecoder codec.Decoder)) (world : World)
      → Table.IsValid table
      → Valid e world
      → Valid (record e { table = table }) world
  table-Valid e table world t v = record {
    net = v.net;
    has_net = v.has_net;
    net_valid = v.net_valid;
    table_valid = t;
    keys = v.keys;
    has_keys = v.has_keys;
    keys_valid = v.keys_valid;
    keyed = v.keyed;
    sends = v.sends;
    joined = v.joined;
    host_room = v.host_room;
    host_ends = v.host_ends;
    name_room = v.name_room;
    name_ends = v.name_ends;
  }
