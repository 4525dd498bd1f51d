-- ===== src/Engine/Stats.antt =====
-- `ae_engine_get_stats` of core/src/audio_engine.c.
pub mod Loss
use audio_project.Base.{
  ℕ, zero, suc, ◌+◌, ◌%◌, ◌^◌, List, [], ◌∷◌, Option, none, some, Bool, ltb, if◌then◌else◌,
}
use audio_project.Float.{Floats}
use audio_project.Opus.{Codec}
use audio_project.Streams.{Stream}
use audio_project.Engine.{AeEngine}

-- `ae_stats_t`
pub record Stats (F : Type 0) : Type 0 where
  pub rtt_ms : F
  pub jitter_ms : F
  pub packet_loss_pct : F
  pub buffer_underruns : ℕ
  pub active_streams : ℕ
  pub joined_channels : ℕ
  pub packets_sent : ℕ
  pub packets_received : ℕ

-- The loop over the streams: `total_lost` and `total_received`.
pub add_totals : {F D : Type 0} → ℕ × ℕ → List (Stream F D) → ℕ × ℕ
add_totals totals [] = totals
add_totals (lost, received) (s ∷ streams) =
    let counted : ℕ × ℕ =
      ((lost + s.seq_tracker.lost) % 2 ^ 32, (received + s.seq_tracker.received) % 2 ^ 32) in
    let rest = add_totals (if s.active then counted else (lost, received)) streams in rest

-- `(float)total_lost / (float)(total_received + total_lost) * 100.0f`, where anything was received.
pub loss_percent : (floats : Floats) → ℕ × ℕ → floats.F
loss_percent floats (lost, received) =
    if ltb 0 received
    then floats.mul (floats.div (floats.of_int lost) (floats.of_int ((received + lost) % 2 ^ 32)))
        (floats.of_int 100)
    else floats.zero_f

module _ (floats : Floats) {codec : Codec floats.F} where
  open floats use {F, zero_f}

  pub get_stats : Option (AeEngine codec) → Stats F
  get_stats none = record {
    rtt_ms = zero_f;
    jitter_ms = zero_f;
    packet_loss_pct = zero_f;
    buffer_underruns = 0;
    active_streams = 0;
    joined_channels = 0;
    packets_sent = 0;
    packets_received = 0;
  }
  get_stats (some e) = record {
    rtt_ms = e.rtt_ms;
    jitter_ms = zero_f;
    packet_loss_pct = loss_percent floats (add_totals (0, 0) e.table.streams);
    buffer_underruns = e.buffer_underruns;
    active_streams = e.table.active_streams;
    joined_channels = if e.channel.active then 1 else 0;
    packets_sent = e.packets_sent;
    packets_received = e.packets_received;
  }
