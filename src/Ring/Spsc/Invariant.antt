-- ===== src/Ring/Spsc/Invariant.antt =====
-- What holds between any two steps of the two threads of core/src/ring_buffer.c.
use native.Mathlib.Nat.{le_trans, mul-le-mul_right}
use audio_project.Base.{
  ℕ, ◌+◌, ◌*◌, ◌≤◌, ◌<◌, min, List, [], ◌++◌, some, length, Bool-cases, ◌==◌, inl, inr, ◌≡◌, refl,
  sym, ◌∙◌, arith,
}
use audio_project.Ring.{RingBuf, used, masked, free_space, available}
use audio_project.Ring.Valid.{IsValid, free_space-used, clip-min}
use audio_project.Ring.Window.{window, contents, chunks}
use audio_project.Ring.Write.{used-advance}
use audio_project.Ring.Read.{used-consume}
use audio_project.Ring.Spsc.{
  Producer, idle, filling, Consumer, resting, draining, System, enter_write, enter_read,
}
use audio_project.Ring.Spsc.Effects.{stored, window-stored, published}

module _ {ℓ} {A : Type ℓ} (rb : RingBuf A) where
  open rb use {buffer, capacity, channels, read_pos, write_pos}

  -- The producer has room for what it announced, and the frames behind the write position are its own.
  abbrev pub Filled : Producer A → Type ℓ
  Filled idle = Unit
  Filled (filling samples frames i) =
      (i ≤ frames)
      × (frames * channels ≤ length samples)
      × (used rb + frames < capacity)
      × (window capacity channels buffer write_pos 0 i ≡ chunks channels samples 0 i)

  -- The frames that the consumer announced are there, and its array starts with the first of them.
  abbrev pub Drained : Consumer A → Type ℓ
  Drained resting = Unit
  Drained (draining out frames i) =
      (i ≤ frames)
      × (frames * channels ≤ length out)
      × (frames ≤ used rb)
      × (chunks channels out 0 i ≡ window capacity channels buffer read_pos 0 i)

pub record Inv {ℓ} {A : Type ℓ} (s : System A) : Type ℓ where
  pub valid : IsValid s.ring
  pub filled : Filled s.ring s.producer
  pub drained : Drained s.ring s.consumer
  pub log : s.sent ≡ s.received ++ contents s.ring

min-le : (a b : ℕ) → min a b ≤ a
min-le a b = omega arith

module _ {ℓ} {A : Type ℓ} (rb : RingBuf A) (v : IsValid rb) where
  open rb use {channels, capacity, write_pos}

  pub enter_write-Filled :
      (samples : List A) (wanted : ℕ)
      → wanted * channels ≤ length samples
      → Filled rb (enter_write rb samples wanted)
  unfolding enter_write
  enter_write-Filled samples wanted enough =
      rw clip-min (elim (Bool-cases (min wanted (free_space (some rb)) == 0)) [
        | inl e ↦ rw e tt
        | inr e ↦ rw e (
          omega arith,
          le_trans (mul-le-mul_right channels (min-le wanted (free_space (some rb)))) enough,
          omega (arith, free_space-used v),
          refl,
        )
      ])

  pub enter_read-Drained :
      (out : List A) (wanted : ℕ)
      → wanted * channels ≤ length out
      → Drained rb (enter_read rb out wanted)
  unfolding enter_read available
  enter_read-Drained out wanted enough =
      rw clip-min (elim (Bool-cases (min wanted (used rb) == 0)) [
        | inl e ↦ rw e tt
        | inr e ↦ rw e (
          omega arith,
          le_trans (mul-le-mul_right channels (min-le wanted (used rb))) enough,
          omega arith,
          refl,
        )
      ])

  pub Drained-stored :
      (i : ℕ) (frame : List A)
      → used rb + i < capacity
      → length frame ≡ channels
      → (c : Consumer A) → Drained rb c
      → Drained (stored rb v i frame) c
  unfolding used
  Drained-stored i frame room len resting d = tt
  Drained-stored i frame room len (draining out frames j) (below, enough, there, same) = (
    below,
    enough,
    there,
    same ∙ sym (window-stored rb v i frame room len j (le_trans below there)),
  )

  pub Drained-published :
      (n : ℕ)
      → used rb + n < capacity
      → (c : Consumer A) → Drained rb c
      → Drained (published rb v n) c
  Drained-published n room resting d = tt
  Drained-published n room (draining out frames j) (below, enough, there, same) =
      (below, enough, omega (arith, used-advance rb v [] rb.buffer n v.storage room), same)

  pub Filled-consumed :
      (n : ℕ)
      → n ≤ used rb
      → (p : Producer A) → Filled rb p
      → Filled (record rb { read_pos = masked rb rb.read_pos n }) p
  Filled-consumed n h idle f = tt
  Filled-consumed n h (filling samples frames i) (below, enough, room, same) =
      (below, enough, omega (arith, used-consume rb v n h), same)
