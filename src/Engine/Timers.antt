-- ===== src/Engine/Timers.antt =====
-- Step 3 of `ae_engine_process` in core/src/audio_engine.c, the keepalive and the ping, with the answer
-- to the ping. A difference of two `uint64_t` wraps.
pub mod Kept
pub mod Intervals
use audio_project.Base.{
  ℕ, ◌+◌, ◌-◌, ◌%◌, ◌^◌, List, Option, none, some, ℤ, pos, positive?, leb, ltb, if◌then◌else◌,
  ◌>>=◌,
}
use audio_project.Float.{Floats}
use audio_project.Opus.{Codec}
use audio_project.Network.{Net, System}
use audio_project.Rtp.{build_ping}
use audio_project.Engine.{AeEngine, World}
use audio_project.Engine.Session.{send_keepalive, send_built}

-- KEEPALIVE_INTERVAL_MS and PING_INTERVAL_MS
abbrev pub keepalive_interval : ℕ
keepalive_interval = 5000

abbrev pub ping_interval : ℕ
ping_interval = 2000

-- `now - then` for `uint64_t`.
abbrev pub elapsed : ℕ → ℕ → ℕ
elapsed now before = (now + 2 ^ 64 - before) % 2 ^ 64

-- The content of the two buffers before, and what `send` and the clock behind it answer.
pub record Answers : Type 0 where
  pub now : ℕ
  pub ka_buf : List ℕ
  pub ka_answer : ℤ
  pub ka_sent_ms : ℕ
  pub ping_buf : List ℕ
  pub ping_answer : ℤ
  pub ping_sent_ms : ℕ

module _ {F : Type 0} {codec : Codec F} where
  pub keepalive_step : AeEngine codec → Answers → System → Option (AeEngine codec × System)
  keepalive_step e answers sys =
      let channel = if e.channel.active then e.channel.channel_id_num else 0 in
      let sent = send_keepalive e channel answers.ka_buf answers.ka_answer answers.ka_sent_ms sys in
      if leb keepalive_interval (elapsed answers.now e.last_keepalive_ms)
      then (do
        (net', sys') ← sent
        some (record e { network = net'; last_keepalive_ms = answers.now }, sys'))
      else some (e, sys)

  pub send_ping : AeEngine codec → Answers → System → Option (AeEngine codec × System)
  send_ping e answers sys = do
    built ← build_ping e.server_id e.table.client_id answers.now (some answers.ping_buf) (pos 28)
    (net', sys') ← send_built e.network built answers.ping_answer answers.ping_sent_ms sys
    let started : ℕ = elim (positive? built.0) [ none ↦ e.ping_send_time_ms | some n ↦ answers.now ]
    some
        (record e { network = net'; ping_send_time_ms = started; last_ping_ms = answers.now }, sys')

  pub ping_step : AeEngine codec → Answers → System → Option (AeEngine codec × System)
  ping_step e answers sys =
      let sent = send_ping e answers sys in
      if leb ping_interval (elapsed answers.now e.last_ping_ms) then sent else some (e, sys)

  pub timers_step : AeEngine codec → Answers → System → Option (AeEngine codec × System)
  timers_step e answers sys = do
    (e', sys') ← keepalive_step e answers sys
    ping_step e' answers sys'

-- A PONG: the round trip, where a ping is out.
pub pong : (floats : Floats) {codec : Codec floats.F} → AeEngine codec → ℕ → AeEngine codec
pong floats e now =
    if ltb 0 e.ping_send_time_ms
    then record e {
      rtt_ms = floats.of_int (elapsed now e.ping_send_time_ms);
      ping_send_time_ms = 0;
    }
    else e
