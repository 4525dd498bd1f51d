-- ===== src/Ring.antt =====
-- core/src/ring_buffer.h and core/src/ring_buffer.c: the single-producer single-consumer ring of
-- interleaved samples. A pointer that may be NULL is an `Option`, an `int` argument is a `ℤ`, and an
-- outer `none` of `write` and `read` is an access outside an array, which C leaves undefined.
pub mod PowerOfTwo
pub mod Valid
pub mod Window
pub mod Create
pub mod Write
pub mod Read
pub mod Spsc
mod Tests
use audio_project.Base.{
  ℕ, zero, suc, ◌+◌, ◌-◌, ◌*◌, ◌/◌, ◌%◌, ◌^◌, bit_and, bit_or, List, Option, none, some, Bool, ◌&&◌,
  ℤ, pos, negsuc, to_int, positive?, ltb, ◌==◌, if◌then◌else◌, replicate, read_at, write_at, ◌>>=◌,
}

-- `v--; v |= v >> 1; … v |= v >> 16; v++`, for `v` from 1 on.
pub smear : ℕ → ℕ
smear v =
    let a = bit_or v (v / 2 ^ 1) in
    let b = bit_or a (a / 2 ^ 2) in
    let c = bit_or b (b / 2 ^ 4) in let d = bit_or c (c / 2 ^ 8) in bit_or d (d / 2 ^ 16)

-- The `v++` above 2 ^ 31 - 1 wraps around.
pub next_power_of_two : ℕ → ℤ
next_power_of_two v = to_int (pos (smear (v - 1) + 1))

-- `ae_ringbuf_t`. A position is an `unsigned int`; the atomic accesses of one call are read in order.
pub record RingBuf {ℓ} (A : Type ℓ) : Type ℓ where
  pub buffer : List A
  pub capacity : ℕ
  pub channels : ℕ
  pub write_pos : ℕ
  pub read_pos : ℕ

-- `if (frames > avail) frames = avail;`
abbrev pub clip : ℕ → ℕ → ℕ
clip frames avail = if ltb avail frames then avail else frames

module _ {ℓ} {A : Type ℓ} where
  -- The two flags say whether the `calloc` of the struct and of the samples succeed. A negative capacity
  -- is more than 2 ^ 63 bytes as a `size_t`, which no `calloc` gives.
  pub create : A → Bool → Bool → ℤ → ℤ → Option (RingBuf A)
  create silence struct_ok samples_ok capacity channels = do
    cap ← positive? capacity
    chans ← positive? channels
    elim (next_power_of_two (cap + 1)) [
      | negsuc n ↦ none
      | pos actual_cap ↦
          if struct_ok && samples_ok
          then some (record {
            buffer = replicate (actual_cap * chans) silence;
            capacity = actual_cap;
            channels = chans;
            write_pos = 0;
            read_pos = 0;
          })
          else none
    ]

  -- `(int)((w - r) & (unsigned int)(rb->capacity - 1))`
  unfoldable pub used : RingBuf A → ℕ
  used rb = bit_and ((rb.write_pos + 2 ^ 32 - rb.read_pos) % 2 ^ 32) (rb.capacity - 1)

  unfoldable pub available : Option (RingBuf A) → ℕ
  available none = 0
  available (some rb) = used rb

  -- A mask keeps `used` within `capacity - 1`, so the difference is not negative.
  unfoldable pub free_space : Option (RingBuf A) → ℕ
  unfolding available
  free_space none = 0
  free_space (some rb) = rb.capacity - 1 - available (some rb)

  -- `(pos + (unsigned int)i) & mask`
  abbrev pub masked : RingBuf A → ℕ → ℕ → ℕ
  masked rb position i = bit_and ((position + i) % 2 ^ 32) (rb.capacity - 1)

  -- The body of the loop of `ae_ringbuf_write` at round `i`; it changes `buffer` alone.
  unfoldable pub store_frame : RingBuf A → List A → ℕ → List A → Option (List A)
  store_frame rb samples i buffer = do
    frame ← read_at samples (i * rb.channels) rb.channels
    write_at buffer (masked rb rb.write_pos i * rb.channels % 2 ^ 32) frame

  -- The loop from round `i` on, with `left` rounds to go.
  pub copy_in : RingBuf A → List A → ℕ → ℕ → List A → Option (List A)
  copy_in rb samples zero i buffer = some buffer
  copy_in rb samples (suc left) i buffer = do
    stored ← store_frame rb samples i buffer
    copy_in rb samples left (i + 1) stored

  pub write_frames : RingBuf A → List A → ℕ → Option (ℕ × RingBuf A)
  write_frames rb samples wanted =
      let frames = clip wanted (free_space (some rb)) in
      if frames == 0 then some (0, rb) else do
        stored ← copy_in rb samples frames 0 rb.buffer
        some (frames, record rb { buffer = stored; write_pos = masked rb rb.write_pos frames })

  pub write : Option (RingBuf A) → Option (List A) → ℤ → Option (ℕ × Option (RingBuf A))
  write (some rb) (some samples) (pos (suc n)) = do
    (frames, rb') ← write_frames rb samples (suc n)
    some (frames, some rb')
  write rb samples frames = some (0, rb)

  -- The body of the loop of `ae_ringbuf_read` at round `i`; it changes the caller's array alone.
  unfoldable pub load_frame : RingBuf A → ℕ → List A → Option (List A)
  load_frame rb i out = do
    frame ← read_at rb.buffer (masked rb rb.read_pos i * rb.channels % 2 ^ 32) rb.channels
    write_at out (i * rb.channels) frame

  pub copy_out : RingBuf A → ℕ → ℕ → List A → Option (List A)
  copy_out rb zero i out = some out
  copy_out rb (suc left) i out = do out' ← load_frame rb i out; copy_out rb left (i + 1) out'

  -- The number of frames read, the caller's array and the ring after the call.
  pub read_frames : RingBuf A → List A → ℕ → Option (ℕ × List A × RingBuf A)
  read_frames rb out wanted =
      let frames = clip wanted (available (some rb)) in
      if frames == 0 then some (0, out, rb) else do
        out' ← copy_out rb frames 0 out
        some (frames, out', record rb { read_pos = masked rb rb.read_pos frames })

  pub read :
      Option (RingBuf A) → Option (List A) → ℤ → Option (ℕ × Option (List A) × Option (RingBuf A))
  read (some rb) (some out) (pos (suc n)) = do
    (frames, out', rb') ← read_frames rb out (suc n)
    some (frames, some out', some rb')
  read rb out frames = some (0, out, rb)

  pub reset : Option (RingBuf A) → Option (RingBuf A)
  reset none = none
  reset (some rb) = some (record rb { write_pos = 0; read_pos = 0 })
