-- ===== src/Rtp/Sequence/Laws.antt =====
-- What the sequence tracker of core/src/rtp.c counts.
use audio_project.Base.{
  ℕ, zero, suc, ◌+◌, ◌%◌, ◌^◌, ◌≤◌, ◌<◌, List, [], ◌∷◌, replicate, pos, minus_one, ◌≡◌, ◌≢◌, ◌⊎◌,
  refl, ap₂, arith,
}
use audio_project.Rtp.Sequence.{Tracker, add32, cleared, track, feed}

-- `n` sequence numbers from `seq` on, as a `uint32_t` counts them.
abbrev pub consecutive : ℕ → ℕ → List ℕ
consecutive seq zero = []
consecutive seq (suc n) = seq ∷ consecutive (add32 seq 1) n

-- A tracker that has seen `n` packets in order, the next one being `seq`.
record InOrder (n seq : ℕ) (t : Tracker) : Type 0 where
  expected : t.next_seq ≡ seq
  counted : t.received ≡ n
  none_lost : t.lost ≡ 0
  none_late : t.reordered ≡ 0

track-InOrder :
    (n seq : ℕ) (t : Tracker)
    → 0 < n
    → n + 1 < 2 ^ 32
    → InOrder n seq t
    → ((track t seq).0 ≡ pos 0) × InOrder (n + 1) (add32 seq 1) (track t seq).1
unfolding track
track-InOrder n seq t some_seen few v = ground arith

feed-InOrder :
    (m n seq : ℕ) (t : Tracker)
    → 0 < n
    → n + m < 2 ^ 32
    → seq < 2 ^ 32
    → InOrder n seq t
    → ((feed t (consecutive seq m)).0 ≡ replicate m (pos 0))
      × InOrder (n + m) ((seq + m) % 2 ^ 32) (feed t (consecutive seq m)).1
unfolding feed
feed-InOrder zero n seq t some_seen few fits v =
    (refl, omega (arith, v.expected, v.counted, v.none_lost, v.none_late))
feed-InOrder (suc m) n seq t some_seen few fits v =
    let (kind, next) = track-InOrder n seq t some_seen (omega arith) v in
    let (kinds, rest) =
      feed-InOrder m (n + 1) (add32 seq 1) (track t seq).1 (omega arith) (omega arith) (omega arith)
        next in
    (ap₂ ◌∷◌ kind kinds, omega (arith, rest.expected, rest.counted, rest.none_lost, rest.none_late))

track-cleared :
    (seq : ℕ) → ((track cleared seq).0 ≡ pos 0) × InOrder 1 (add32 seq 1) (track cleared seq).1
unfolding track cleared
track-cleared seq = (refl, omega arith)

-- From a cleared tracker, any run of fewer than 2 ^ 32 consecutive sequence numbers, also across the
-- wrap of `uint32_t`, is all reported in order: nothing is lost or late, every packet is counted, and
-- the number after the last is expected.
pub feed-consecutive :
    (n seq : ℕ)
    → suc n < 2 ^ 32
    → seq < 2 ^ 32
    → let (kinds, t) = feed cleared (consecutive seq (suc n)) in
      (kinds ≡ replicate (suc n) (pos 0))
      × (t.next_seq ≡ (seq + suc n) % 2 ^ 32)
      × (t.received ≡ suc n)
      × (t.lost ≡ 0)
      × (t.reordered ≡ 0)
unfolding feed
feed-consecutive n seq few fits =
    let (kind, first) = track-cleared seq in
    let (kinds, rest) =
      feed-InOrder n 1 (add32 seq 1) (track cleared seq).1 (omega arith) (omega arith) (omega arith)
        first in
    (
      ap₂ ◌∷◌ kind kinds,
      omega (arith, rest.expected),
      omega (arith, rest.counted),
      rest.none_lost,
      rest.none_late,
    )

-- After the first packet and before the counter of packets wraps, each packet reported in order moves
-- the expected number past itself, and what it skips is added to the lost ones (as `uint32_t` counts);
-- any other packet leaves the expected number, gives back at most one lost packet, and is counted as
-- received.
pub track_accounts :
    (t : Tracker) (seq : ℕ)
    → seq < 2 ^ 32
    → t.next_seq < 2 ^ 32
    → t.lost < 2 ^ 32
    → 0 < t.received
    → t.received + 1 < 2 ^ 32
    → let (kind, t') = track t seq in
      (t'.received ≡ t.received + 1)
      × (((kind ≡ pos 0)
            × (t'.next_seq ≡ (seq + 1) % 2 ^ 32)
            × ((t'.lost + t.next_seq) % 2 ^ 32 ≡ (t.lost + seq) % 2 ^ 32)
            × (t'.reordered ≡ t.reordered))
          ⊎ ((kind ≢ pos 0)
              × (seq < t.next_seq)
              × (t'.next_seq ≡ t.next_seq)
              × (t'.max_seq ≡ t.max_seq)
              × (t'.lost ≤ t.lost)
              × (t.lost ≤ t'.lost + 1)))
unfolding track
track_accounts t seq fits next_fits lost_fits some_seen few = ground arith

-- A packet that comes late while the highest number seen is below 1000 is taken for a duplicate: the
-- test `seq > max_seq - 1000` wraps. It is neither counted as reordered nor taken off the lost ones.
pub early_late_rejected :
    (t : Tracker) (seq : ℕ)
    → 0 < t.received
    → t.received + 1 < 2 ^ 32
    → t.max_seq < 1000
    → t.next_seq ≤ t.max_seq + 1
    → seq < t.next_seq
    → let (kind, t') = track t seq in
      (kind ≡ minus_one) × (t'.lost ≡ t.lost) × (t'.reordered ≡ t.reordered)
unfolding track
early_late_rejected t seq some_seen few low near late = ground arith

-- A packet that comes a second time right after it was taken in order is reported as reordered, for
-- every number from 1000 up to the wrap, and a packet that is missing is given back for it.
pub duplicate_reported_late :
    (t : Tracker) (seq : ℕ)
    → 0 < t.received
    → t.received + 2 < 2 ^ 32
    → t.next_seq ≡ seq
    → t.max_seq < seq
    → 1000 ≤ seq
    → seq + 1 < 2 ^ 32
    → 0 < t.lost
    → let (first, t') = track t seq in
      let (second, t'') = track t' seq in
      (first ≡ pos 0) × (second ≡ pos 1) × (t''.lost + 1 ≡ t.lost)
unfolding track
duplicate_reported_late t seq some_seen few expected higher recent below missing = ground arith
