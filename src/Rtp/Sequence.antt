-- ===== src/Rtp/Sequence.antt =====
-- The sequence tracker of core/src/rtp.h and core/src/rtp.c. Every field is a `uint32_t`.
pub mod Laws
use audio_project.Base.{
  ℕ, ◌+◌, ◌-◌, ◌%◌, ◌^◌, List, [], ◌∷◌, Option, none, some, ℤ, pos, minus_one, ltb, ◌==◌,
  if◌then◌else◌,
}

-- `ae_rtp_seq_tracker_t`
pub record Tracker : Type 0 where
  pub next_seq : ℕ
  pub max_seq : ℕ
  pub received : ℕ
  pub lost : ℕ
  pub reordered : ℕ

-- The sums and differences of `uint32_t`.
abbrev pub add32 : ℕ → ℕ → ℕ
add32 a b = (a + b) % 2 ^ 32

abbrev pub sub32 : ℕ → ℕ → ℕ
sub32 a b = (a + 2 ^ 32 - b) % 2 ^ 32

pub cleared : Tracker
cleared = record { next_seq = 0; max_seq = 0; received = 0; lost = 0; reordered = 0 }

pub init : Option Tracker → Option Tracker
init none = none
init (some t) = some cleared

-- The body of `ae_rtp_seq_update` for a tracker that is there.
pub track : Tracker → ℕ → ℤ × Tracker
track tracker seq =
    let t = record tracker { received = add32 tracker.received 1 } in
    if t.received == 1
    then (pos 0, record t { next_seq = add32 seq 1; max_seq = seq })
    else if seq == t.next_seq
    then (
      pos 0,
      record t { next_seq = add32 seq 1; max_seq = if ltb t.max_seq seq then seq else t.max_seq },
    )
    else if ltb t.next_seq seq
    then (
      pos 0,
      record t {
        lost = add32 t.lost (sub32 seq t.next_seq);
        next_seq = add32 seq 1;
        max_seq = seq;
      },
    )
    else if ltb (sub32 t.max_seq 1000) seq
    then (
      pos 1,
      record t {
        reordered = add32 t.reordered 1;
        lost = if ltb 0 t.lost then t.lost - 1 else t.lost;
      },
    )
    else (minus_one, t)

pub update : Option Tracker → ℕ → ℤ × Option Tracker
update none seq = (minus_one, none)
update (some tracker) seq = let (kind, t) = track tracker seq in (kind, some t)

-- The results of one update after the other, and the tracker after them.
pub feed : Tracker → List ℕ → List ℤ × Tracker
feed t [] = ([], t)
feed t (seq ∷ seqs) =
    let (kind, t') = track t seq in let (kinds, last) = feed t' seqs in (kind ∷ kinds, last)
