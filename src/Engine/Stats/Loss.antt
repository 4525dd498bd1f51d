-- ===== src/Engine/Stats/Loss.antt =====
-- What `ae_engine_get_stats` of core/src/audio_engine.c reports.
use mathlib.Core.Path.{subst}
use audio_project.Base.{
  ℕ, ◌+◌, ◌%◌, ◌^◌, ◌<◌, ◌≤◌, List, [], ◌∷◌, some, Bool, true, ltb, ◌≡◌, sym, ap, ap₂, ltb→lt, ◌↔◌,
  ◌∙◌, arith, inl, inr, ◌⊎◌, if◌then◌else◌, Bool-cases, length,
}
use audio_project.Float.{Floats}
use audio_project.Opus.{Codec}
use audio_project.Streams.{Stream}
use audio_project.Streams.Search.{count}
use audio_project.Engine.{AeEngine, World}
use audio_project.Engine.Session.Valid.{Valid}
use audio_project.Engine.Stats.{add_totals, loss_percent, get_stats}

module _ {F D : Type 0} where
  count_bound : (streams : List (Stream F D)) → count streams ≤ length streams
  unfolding count
  count_bound [] = omega arith
  count_bound (s ∷ streams) = elim (Bool-cases s.active) [
    | inl q ↦ ground (arith, count_bound streams)
    | inr q ↦ ground (arith, count_bound streams)
  ]

  -- The losses and the packets of the active streams, added up without a bound.
  abbrev pub all_lost : List (Stream F D) → ℕ
  all_lost [] = 0
  all_lost (s ∷ streams) = (if s.active then s.seq_tracker.lost else 0) + all_lost streams

  abbrev pub all_received : List (Stream F D) → ℕ
  all_received [] = 0
  all_received (s ∷ streams) =
      (if s.active then s.seq_tracker.received else 0) + all_received streams

  -- The loop's `uint32_t` sums are the remainders of these.
  add_totals_lem :
      (lost received : ℕ) (streams : List (Stream F D))
      → lost < 2 ^ 32
      → received < 2 ^ 32
      → add_totals (lost, received) streams
        ≡ ((lost + all_lost streams) % 2 ^ 32, (received + all_received streams) % 2 ^ 32)
  unfolding add_totals
  add_totals_lem lost received [] l r = ap₂ (λ a b. (a, b)) (omega (arith, l)) (omega (arith, r))
  add_totals_lem lost received (s ∷ streams) l r =
      let t = s.seq_tracker in
      let looped : Bool → ℕ × ℕ = λ b.
        add_totals
          (if b
            then ((lost + t.lost) % 2 ^ 32, (received + t.received) % 2 ^ 32)
            else (lost, received))
          streams in
      let added : Bool → ℕ × ℕ = λ b. (
        (lost + ((if b then t.lost else 0) + all_lost streams)) % 2 ^ 32,
        (received + ((if b then t.received else 0) + all_received streams)) % 2 ^ 32,
      ) in
      elim (Bool-cases s.active) [
        | inl q ↦
            subst (λ b. looped b ≡ added b) (sym q)
              (add_totals_lem ((lost + t.lost) % 2 ^ 32) ((received + t.received) % 2 ^ 32) streams
                  (omega arith) (omega arith)
                ∙ ap₂ (λ a b. (a, b)) (omega arith) (omega arith))
        | inr q ↦
            subst (λ b. looped b ≡ added b) (sym q)
              (add_totals_lem lost received streams l r
                ∙ ap₂ (λ a b. (a, b)) (omega arith) (omega arith))
      ]

module _ (floats : Floats) {codec : Codec floats.F} where
  open floats use {F, zero_f, of_int, mul, div}

  -- The statistics of a valid engine: `active_streams` is the number of active entries, `joined_channels`
  -- is 1 exactly in a channel, and the loss is 0 where no packet was received, and else 100 times the
  -- quotient of the lost packets and all packets of the active streams, each added up modulo 2 ^ 32.
  pub get_stats_lem :
      (e : AeEngine codec) (world : World)
      → Valid e world
      → let lost = all_lost e.table.streams % 2 ^ 32 in
        let received = all_received e.table.streams % 2 ^ 32 in
        let stats = get_stats floats (some e) in
        (stats.active_streams ≡ count e.table.streams)
        × (stats.active_streams ≤ 64)
        × ((stats.joined_channels ≡ 1) ↔ (e.channel.active ≡ true))
        × (((received ≡ 0) × (stats.packet_loss_pct ≡ zero_f))
            ⊎ (0 < received)
              × (stats.packet_loss_pct
                  ≡ mul (div (of_int lost) (of_int ((received + lost) % 2 ^ 32))) (of_int 100)))
  unfolding get_stats loss_percent
  get_stats_lem e world v =
      let lost = all_lost e.table.streams % 2 ^ 32 in
      let received = all_received e.table.streams % 2 ^ 32 in
      let totals : add_totals (0, 0) e.table.streams ≡ (lost, received) =
        add_totals_lem 0 0 e.table.streams (omega arith) (omega arith)
        ∙ ap₂ (λ a b. (a, b)) (omega arith) (omega arith) in
      let percent = ap (loss_percent floats) totals in
      let quotient = mul (div (of_int lost) (of_int ((received + lost) % 2 ^ 32))) (of_int 100) in
      let counted = v.table_valid.published ∙ v.table_valid.counted in
      (
        counted,
        omega (arith, counted, count_bound e.table.streams, v.table_valid.room),
        elim (Bool-cases e.channel.active) [
          | inl q ↦ (λ h. q, λ h. ap (λ b. if b then 1 else 0) q)
          | inr q ↦ (
            λ h. absurd (omega (arith, h, ap {B = ℕ} (λ b. if b then 1 else 0) q)),
            λ h. absurd (cc (h, q)),
          )
        ],
        elim (Bool-cases (ltb 0 received)) [
          | inl q ↦ inr (ltb→lt 0 received q, percent ∙ ap (λ b. if b then quotient else zero_f) q)
          | inr q ↦ inl (ground arith, percent ∙ ap (λ b. if b then quotient else zero_f) q)
        ],
      )
