-- ===== src/Engine/Session.antt =====
-- The calls of core/src/audio_engine.c that connect, join, leave, transmit and set volumes.
pub mod Valid
pub mod Leave
pub mod Outcome
pub mod Total
pub mod Join
pub mod Keepalive
mod Tests
use audio_project.Base.{
  ℕ, zero, suc, List, [], ◌∷◌, ◌++◌, Option, none, some, Bool, true, false, ℤ, pos, negsuc,
  positive?, to_u16, if◌then◌else◌, ◌>>=◌,
}
use audio_project.Float.{Floats}
use audio_project.Opus.{Codec}
use audio_project.Network.{Net, System, Answers, strncpy}
use audio_project.Network as Socket
use audio_project.Rtp.{build_keepalive}
use audio_project.Crypto.Table.{Context, set_channel_key}
use audio_project.Mixer.{clamp}
use audio_project.Mixer as Mixing
use audio_project.Streams.{destroy_all}
use audio_project.Engine.{
  AeEngine, World, ErrorCode, ae_ok, err_invalid_param, err_network, err_not_connected, Event,
  event_connected, event_disconnected,
}
use audio_project.Engine.Channel.{channel_str_to_id}

-- What the calls of `ae_engine_connect` answer behind those of `ae_net_connect`: the clock twice, the
-- result of `send`, and what `ka_buf` held.
pub record Greeting : Type 0 where
  pub now : ℕ
  pub sent_ms : ℕ
  pub answer : ℤ
  pub ka_buf : List ℕ

-- A packet that was built goes out: `if (len > 0) ae_net_send(engine->network, buf, len);`
pub send_built : Option Net → ℤ × Option (List ℕ) → ℤ → ℕ → System → Option (Option Net × System)
send_built network (len, packet) answer sent_ms sys = elim (positive? len) [
  | none ↦ some (network, sys)
  | some n ↦ do
    (status, net', sys') ← Socket.send network packet len answer sent_ms sys
    some (net', sys')
]

module _ {F : Type 0} {codec : Codec F} where
  -- The event callback is called where one is set.
  pub fire : AeEngine codec → Event → World → World
  fire e event world = elim e.event_cb [
    | none ↦ world
    | some callback ↦ record world { fired = world.fired ++ (event ∷ []) }
  ]

  -- The keepalive of a channel.
  pub send_keepalive : AeEngine codec → ℕ → List ℕ → ℤ → ℕ → System → Option (Option Net × System)
  send_keepalive e channel ka_buf answer sent_ms sys = do
    built ← build_keepalive e.server_id channel e.table.client_id (some ka_buf) (pos 20)
    send_built e.network built answer sent_ms sys

  -- `ae_engine_connect` once the socket is connected.
  pub greet : AeEngine codec → Greeting → World → Option (AeEngine codec × World)
  greet e greeting world = do
    let online = record e { connected = true }
    (net', sys') ←
        send_keepalive online 0 greeting.ka_buf greeting.answer greeting.sent_ms world.system
    let e' = record online {
      network = net';
      last_keepalive_ms = greeting.now;
      last_ping_ms = greeting.now;
    }
    some (e', fire e' event_connected (record world { system = sys' }))

  -- The engine with the arguments of the call and the socket's handle.
  pub dialled : AeEngine codec → List ℕ → ℤ → Option Net → AeEngine codec
  dialled e host udp_port net = record e {
    server_host = strncpy e.server_host host 255;
    udp_port = udp_port;
    network = net;
  }

  -- `ae_engine_connect` behind the call of `ae_net_connect`.
  pub after_dial :
      AeEngine codec
      → List ℕ
      → ℤ
      → Greeting
      → World
      → ℤ × Option Net × System
      → Option (ErrorCode × Option (AeEngine codec) × World)
  after_dial e host udp_port greeting world (pos zero, net, sys) = do
    (e', world') ← greet (dialled e host udp_port net) greeting (record world { system = sys })
    some (ae_ok, some e', world')
  after_dial e host udp_port greeting world (status, net, sys) =
      some (err_network, some (dialled e host udp_port net), record world { system = sys })

  unfoldable pub connect :
      Option (AeEngine codec)
      → Option (List ℕ)
      → ℤ
      → Answers
      → Greeting
      → World
      → Option (ErrorCode × Option (AeEngine codec) × World)
  connect (some e) (some host) udp_port answers greeting world =
      after_dial e host udp_port greeting world
        (Socket.connect e.network (some host) (to_u16 udp_port) answers world.system)
  connect e host udp_port answers greeting world = some (err_invalid_param, e, world)

  pub disconnect : Option (AeEngine codec) → World → Option (AeEngine codec) × World
  disconnect none world = (none, world)
  disconnect (some e) world =
      let (net', sys') = Socket.disconnect e.network world.system in
      let e' = record e {
        transmitting = false;
        connected = false;
        network = net';
        channel = record (e.channel) { active = false };
      } in
      (some e', fire e' event_disconnected (record world { system = sys' }))

  -- `ae_engine_destroy`: what it leaves in the system. Ending the streams and freeing the parts leaves
  -- nothing there.
  pub destroy : Option (AeEngine codec) → World → World
  destroy none world = world
  destroy (some e) world =
      let (e', world') = disconnect (some e) world in
      elim e' [
        | none ↦ world'
        | some ended ↦ record world' { system = Socket.destroy ended.network world'.system }
      ]

  pub is_connected : Option (AeEngine codec) → Bool
  is_connected none = false
  is_connected (some e) = e.connected

  -- `ae_engine_leave_channel` for arguments that are there; the channel's name is not read.
  pub leave_channel_body : AeEngine codec → AeEngine codec
  leave_channel_body e = record e {
    transmitting = false;
    channel = record (e.channel) { transmitting = false; active = false };
    table = destroy_all e.table;
  }

  unfoldable pub leave_channel :
      Option (AeEngine codec) → Option (List ℕ) → ErrorCode × Option (AeEngine codec)
  leave_channel (some e) (some channel_id) = (ae_ok, some (leave_channel_body e))
  leave_channel e channel_id = (err_invalid_param, e)

  -- `if (engine->channel.active) ae_engine_leave_channel(engine, engine->channel.channel_id_str);`
  pub leave_active : AeEngine codec → AeEngine codec
  leave_active e = if e.channel.active then leave_channel_body e else e

  unfoldable pub leave_all_channels : Option (AeEngine codec) → Option (AeEngine codec)
  leave_all_channels none = none
  leave_all_channels (some e) = some (leave_active e)

  unfoldable pub start_transmit :
      Option (AeEngine codec) → Option (List ℕ) → ErrorCode × Option (AeEngine codec)
  start_transmit (some e) (some channel_id) =
      if e.channel.active
      then (
        ae_ok,
        some (record e {
          channel = record (e.channel) { transmitting = true };
          transmitting = true;
        }),
      )
      else (err_not_connected, some e)
  start_transmit e channel_id = (err_invalid_param, e)

  unfoldable pub stop_transmit :
      Option (AeEngine codec) → Option (List ℕ) → ErrorCode × Option (AeEngine codec)
  stop_transmit (some e) (some channel_id) = (
    ae_ok,
    some (record e { channel = record (e.channel) { transmitting = false }; transmitting = false }),
  )
  stop_transmit e channel_id = (err_invalid_param, e)

  unfoldable pub set_client_id : Option (AeEngine codec) → ℕ → Option (AeEngine codec)
  set_client_id none client = none
  set_client_id (some e) client =
      some (record e { table = record (e.table) { client_id = client } })

  unfoldable pub set_capture_callback :
      Option (AeEngine codec) → Option ℕ → Option ℕ → Option (AeEngine codec)
  set_capture_callback none cb user_data = none
  set_capture_callback (some e) cb user_data =
      some (record e { capture_cb = cb; capture_ud = user_data })

  unfoldable pub set_playback_callback :
      Option (AeEngine codec) → Option ℕ → Option ℕ → Option (AeEngine codec)
  set_playback_callback none cb user_data = none
  set_playback_callback (some e) cb user_data =
      some (record e { playback_cb = cb; playback_ud = user_data })

  unfoldable pub set_event_callback :
      Option (AeEngine codec) → Option ℕ → Option ℕ → Option (AeEngine codec)
  set_event_callback none cb user_data = none
  set_event_callback (some e) cb user_data = some (record e { event_cb = cb; event_ud = user_data })

module _ (floats : Floats) {codec : Codec floats.F} where
  open floats use {F, zero_f, one_f}

  -- The channel's fields and the table of keys after a join.
  pub joined : AeEngine codec → List ℕ → ℕ → Option Context → AeEngine codec
  joined e channel_id number keys = record e {
    channel = record (e.channel) {
      channel_id_str = strncpy e.channel.channel_id_str channel_id 63;
      channel_id_num = number;
      active = true;
      transmitting = false;
      volume = one_f;
    };
    crypto = keys;
  }

  -- `ae_engine_join_channel` behind the guards. The result of `ae_crypto_set_channel_key` is not read.
  pub enter_channel : AeEngine codec → List ℕ → Option (AeEngine codec)
  enter_channel e channel_id = do
    let left = leave_active e
    number ← channel_str_to_id (some channel_id)
    (status, keys) ← set_channel_key left.crypto number none
    some (joined left channel_id number keys)

  unfoldable pub join_channel :
      Option (AeEngine codec) → Option (List ℕ) → Option (ErrorCode × Option (AeEngine codec))
  join_channel (some e) (some channel_id) =
      let entered = enter_channel e channel_id in
      if e.connected
      then (do e' ← entered; some (ae_ok, some e'))
      else some (err_not_connected, some e)
  join_channel e channel_id = some (err_invalid_param, e)

  unfoldable pub set_channel_volume :
      Option (AeEngine codec) → Option (List ℕ) → F → ErrorCode × Option (AeEngine codec)
  set_channel_volume (some e) (some channel_id) volume =
      (ae_ok, some (record e { channel = record (e.channel) { volume = clamp floats volume } }))
  set_channel_volume e channel_id volume = (err_invalid_param, e)

  unfoldable pub set_master_volume : Option (AeEngine codec) → F → Option (AeEngine codec)
  set_master_volume none volume = none
  set_master_volume (some e) volume =
      let level = clamp floats volume in
      some
        (record e { master_volume = level; mixer = Mixing.set_master_volume floats e.mixer level })

  unfoldable pub set_channel_muted :
      Option (AeEngine codec) → Option (List ℕ) → Bool → ErrorCode × Option (AeEngine codec)
  set_channel_muted (some e) (some channel_id) muted = (
    ae_ok,
    some (record e { channel = record (e.channel) { volume = if muted then zero_f else one_f } }),
  )
  set_channel_muted e channel_id muted = (err_invalid_param, e)
