-- ===== src/Ring/Spsc.antt =====
-- core/src/ring_buffer.c with its two threads: one producer in `ae_ringbuf_write` and one consumer in
-- `ae_ringbuf_read`, interleaved frame by frame. A step is a load of the other side's position with
-- the tests after it, the copy of one frame, or the store of the own position, in any order of the
-- two threads; memory is sequentially consistent, which the acquire and release orders are there for.
pub mod Effects
pub mod Invariant
pub mod Safety
mod Tests
use audio_project.Base.{
  ℕ, zero, suc, ◌+◌, ◌*◌, ◌≤◌, ◌<◌, List, [], ◌++◌, some, ◌≡◌, length, if◌then◌else◌, ◌==◌,
}
use audio_project.Ring.{RingBuf, available, free_space, clip, masked, store_frame, load_frame}
use audio_project.Ring.Window.{chunks, contents}

-- Where the producer stands: outside `ae_ringbuf_write`, or with `i` of `frames` frames stored.
pub data Producer {ℓ} (A : Type ℓ) : Type ℓ where
  idle : Producer A
  filling : List A → ℕ → ℕ → Producer A

-- Where the consumer stands: outside `ae_ringbuf_read`, or with `i` of `frames` frames in its array.
pub data Consumer {ℓ} (A : Type ℓ) : Type ℓ where
  resting : Consumer A
  draining : List A → ℕ → ℕ → Consumer A

-- `sent` and `received` record the frames of the calls that have returned.
pub record System {ℓ} (A : Type ℓ) : Type ℓ where
  pub ring : RingBuf A
  pub producer : Producer A
  pub consumer : Consumer A
  pub sent : List (List A)
  pub received : List (List A)

module _ {ℓ} {A : Type ℓ} where
  -- The tests of `ae_ringbuf_write` before its loop.
  pub enter_write : RingBuf A → List A → ℕ → Producer A
  enter_write rb samples wanted =
      let frames = clip wanted (free_space (some rb)) in
      if frames == 0 then idle else filling samples frames 0

  -- The tests of `ae_ringbuf_read` before its loop.
  pub enter_read : RingBuf A → List A → ℕ → Consumer A
  enter_read rb out wanted =
      let frames = clip wanted (available (some rb)) in
      if frames == 0 then resting else draining out frames 0

  pub data Step : System A → System A → Type ℓ where
    call_write :
        {s : System A} (samples : List A) (wanted : ℕ)
        → s.producer ≡ idle
        → wanted * s.ring.channels ≤ length samples
        → Step s (record s { producer = enter_write s.ring samples wanted })
    store :
        {s : System A} (samples : List A) (frames i : ℕ) (buffer : List A)
        → s.producer ≡ filling samples frames i
        → i < frames
        → store_frame s.ring samples i s.ring.buffer ≡ some buffer
        → Step s (record s {
          ring = record (s.ring) { buffer = buffer };
          producer = filling samples frames (suc i);
        })
    publish :
        {s : System A} (samples : List A) (frames : ℕ)
        → s.producer ≡ filling samples frames frames
        → Step s (record s {
          ring = record (s.ring) { write_pos = masked s.ring s.ring.write_pos frames };
          producer = idle;
          sent = s.sent ++ chunks s.ring.channels samples 0 frames;
        })
    call_read :
        {s : System A} (out : List A) (wanted : ℕ)
        → s.consumer ≡ resting
        → wanted * s.ring.channels ≤ length out
        → Step s (record s { consumer = enter_read s.ring out wanted })
    load :
        {s : System A} (out : List A) (frames i : ℕ) (out' : List A)
        → s.consumer ≡ draining out frames i
        → i < frames
        → load_frame s.ring i out ≡ some out'
        → Step s (record s { consumer = draining out' frames (suc i) })
    release :
        {s : System A} (out : List A) (frames : ℕ)
        → s.consumer ≡ draining out frames frames
        → Step s (record s {
          ring = record (s.ring) { read_pos = masked s.ring s.ring.read_pos frames };
          consumer = resting;
          received = s.received ++ chunks s.ring.channels out 0 frames;
        })

  pub data Reach (s : System A) : System A → Type ℓ where
    here : Reach s s
    later : {t u : System A} → Reach s t → Step t u → Reach s u

  -- Both threads outside their calls, with the ring's frames counted as sent.
  pub start : RingBuf A → System A
  start rb = record {
    ring = rb;
    producer = idle;
    consumer = resting;
    sent = contents rb;
    received = [];
  }
