-- ===== src/Ring/Spsc/Tests.antt =====
-- Two threads on a small ring of core/src/ring_buffer.c, and the theorems at a state that they reach.
use audio_project.Base.{ℕ, ◌<◌, List, [], ◌∷◌, ◌++◌, some, read_at, write_at, ◌≡◌, refl, arith}
use audio_project.Ring.{RingBuf, free_space, used, store_frame, load_frame}
use audio_project.Ring.Valid.{IsValid}
use audio_project.Ring.Window.{contents}
use audio_project.Ring.Spsc.{
  System, Consumer, start, Reach, here, later, call_write, store, filling, draining, enter_write,
}
use audio_project.Ring.Spsc.Safety.{spsc_fifo, spsc_never_stuck}

-- Room for three stereo frames; one is in it, round the end of the storage.
abbrev wrapped : RingBuf ℕ
wrapped = record {
  buffer = 0 ∷ 0 ∷ 0 ∷ 0 ∷ 0 ∷ 0 ∷ 7 ∷ 8 ∷ [];
  capacity = 4;
  channels = 2;
  write_pos = 0;
  read_pos = 3;
}

abbrev three_frames : List ℕ
three_frames = 1 ∷ 2 ∷ 3 ∷ 4 ∷ 5 ∷ 6 ∷ []

wrapped-IsValid : IsValid wrapped
wrapped-IsValid = record {
  bits = 2;
  power = refl;
  narrow = omega arith;
  storage = refl;
  addressable = omega arith;
  write_in = omega arith;
  read_in = omega arith;
}

-- The producer has entered its call with three frames, and stored the first.
abbrev entered : System ℕ
entered = record {
  ring = wrapped;
  producer = filling three_frames 2 0;
  consumer = Consumer.resting;
  sent = (7 ∷ 8 ∷ []) ∷ [];
  received = [];
}

abbrev half_way : System ℕ
half_way = record entered {
  ring = record wrapped { buffer = 1 ∷ 2 ∷ 0 ∷ 0 ∷ 0 ∷ 0 ∷ 7 ∷ 8 ∷ [] };
  producer = filling three_frames 2 1;
}

half_way-Reach : Reach (start wrapped) half_way
unfolding start enter_write free_space used store_frame read_at write_at
half_way-Reach =
    later (later here (call_write {s = start wrapped} three_frames 3 refl (omega arith))) (
      store {s = entered} three_frames 2 0 (1 ∷ 2 ∷ 0 ∷ 0 ∷ 0 ∷ 0 ∷ 7 ∷ 8 ∷ []) refl (omega arith)
        refl)

spsc_fifo_example :
    IsValid half_way.ring × (half_way.sent ≡ half_way.received ++ contents half_way.ring)
spsc_fifo_example = spsc_fifo wrapped-IsValid half_way-Reach

spsc_never_stuck_example :
    ((samples : List ℕ) (frames i : ℕ)
      → half_way.producer ≡ filling samples frames i
      → i < frames
      → (buffer : List ℕ) × (store_frame half_way.ring samples i half_way.ring.buffer
          ≡ some buffer))
    × ((out : List ℕ) (frames i : ℕ)
        → half_way.consumer ≡ draining out frames i
        → i < frames
        → (out' : List ℕ) × (load_frame half_way.ring i out ≡ some out'))
spsc_never_stuck_example = spsc_never_stuck wrapped-IsValid half_way-Reach
