-- ===== src/Jitter.antt =====
-- core/src/jitter_buffer.h and core/src/jitter_buffer.c: the jitter buffer of one remote stream, with
-- its calls one after the other. A frame is the list of its AE_JITTER_FRAME_SAMPLES samples. A pointer
-- that may be NULL is an `Option`; a returned `int` is 0 or -1.
pub mod Slots
pub mod Valid
pub mod Queue
pub mod Refine
pub mod Wrap
mod Tests
use audio_project.Base.{
  ℕ, zero, suc, ◌+◌, ◌-◌, ◌*◌, ◌%◌, ◌^◌, List, [], ◌∷◌, Option, none, some, Bool, true, false, ℤ,
  pos, minus_one, positive?, leb, ltb, ◌==◌, if◌then◌else◌, set, get_or, replicate,
}
use audio_project.Float.{Floats}

-- AE_JITTER_MAX_CAPACITY
abbrev pub max_capacity : ℕ
max_capacity = 50

-- AE_JITTER_BUF_FRAMES
abbrev pub buf_frames : ℕ
buf_frames = 10

-- AE_JITTER_FRAME_SAMPLES, which is AE_FRAME_SIZE * AE_CHANNELS.
abbrev pub frame_samples : ℕ
frame_samples = 960 * 2

-- `ae_jitter_t`. The positions and the statistics are `atomic_uint`; `fill_level` is an `atomic_int`
-- that no call takes below 0, since one is taken off only where it is positive.
pub record Jitter (F : Type 0) : Type 0 where
  pub frames : List (List F)
  pub write_pos : ℕ
  pub read_pos : ℕ
  pub fill_level : ℕ
  pub target_depth : ℕ
  pub min_depth : ℕ
  pub max_depth : ℕ
  pub needs_plc : Bool
  pub crossfade_buf : List F
  pub crossfade_pending : Bool
  pub last_seq : ℕ
  pub total_pushed : ℕ
  pub total_popped : ℕ
  pub underruns : ℕ

-- `unsigned int` increment.
abbrev pub next : ℕ → ℕ
next n = (n + 1) % 2 ^ 32

abbrev pub depth_or : ℤ → ℕ → ℕ
depth_or depth default = elim (positive? depth) [ none ↦ default | some n ↦ n ]

abbrev slot_of : ℕ → ℕ
slot_of position = position % max_capacity

module _ (floats : Floats) where
  open floats use {F, zero_f, one_f, of_int, add, sub, mul, div}

  abbrev silence : List F
  silence = replicate frame_samples zero_f

  -- `calloc` gives a buffer of zeros, or nothing where `memory` is false.
  pub create : Bool → ℤ → ℤ → ℤ → Option (Jitter F)
  create memory target_depth min_depth max_depth =
      let max_frames = depth_or max_depth buf_frames in
      if memory
      then some (record {
        frames = replicate max_capacity silence;
        write_pos = 0;
        read_pos = 0;
        fill_level = 0;
        target_depth = depth_or target_depth 3;
        min_depth = depth_or min_depth 2;
        max_depth = if ltb max_capacity max_frames then max_capacity else max_frames;
        needs_plc = false;
        crossfade_buf = silence;
        crossfade_pending = false;
        last_seq = 0;
        total_pushed = 0;
        total_popped = 0;
        underruns = 0;
      })
      else none

  -- The loop of the crossfade from sample `i` on: `crossfade_buf` fades out and the frame fades in.
  pub crossfade : ℕ → List F → List F → List F
  crossfade i (old ∷ olds) (new ∷ news) =
      let t = div (of_int i) (of_int frame_samples) in
      add (mul old (sub one_f t)) (mul new t) ∷ crossfade (i + 1) olds news
  crossfade i olds news = []

  -- The frame that `ae_jitter_pop` hands out, from the slot of the read position.
  pub fetch : Jitter F → List F
  fetch jb =
      let src = get_or jb.frames (slot_of jb.read_pos) [] in
      if jb.crossfade_pending then crossfade 0 jb.crossfade_buf src else src

module _ {F : Type 0} where
  pub push_frame : Jitter F → List F → ℕ → ℤ × Jitter F
  push_frame jb frame seq = if leb jb.max_depth jb.fill_level then (minus_one, jb) else (
    pos 0,
    record jb {
      frames = set jb.frames (slot_of jb.write_pos) frame;
      write_pos = next jb.write_pos;
      fill_level = jb.fill_level + 1;
      last_seq = seq;
      total_pushed = next jb.total_pushed;
      needs_plc = false;
    },
  )

  pub push : Option (Jitter F) → Option (List F) → ℕ → ℤ × Option (Jitter F)
  push (some jb) (some frame) seq =
      let (status, jb') = push_frame jb frame seq in (status, some jb')
  push jb frame seq = (minus_one, jb)

  -- The loop that drops frames, with `left` of them to go.
  pub skip : ℕ → Jitter F → Jitter F
  skip zero jb = jb
  skip (suc left) jb = skip left (record jb {
    crossfade_buf =
        if left == 0 then get_or jb.frames (slot_of jb.read_pos) [] else jb.crossfade_buf;
    crossfade_pending = if left == 0 then true else jb.crossfade_pending;
    read_pos = next jb.read_pos;
    fill_level = jb.fill_level - 1;
  })

  -- The end of `ae_jitter_pop`: catch up where the level is still above the maximum.
  pub catch_up : Jitter F → Jitter F
  catch_up jb =
      if ltb jb.max_depth jb.fill_level then skip (jb.fill_level - jb.target_depth) jb else jb

module _ (floats : Floats) where
  open floats use {F}

  -- The status, the caller's frame and the buffer after the call.
  pub pop_frame : Jitter F → List F → ℤ × List F × Jitter F
  pop_frame jb frame =
      if jb.fill_level == 0
      then (minus_one, frame, record jb { needs_plc = true; underruns = next jb.underruns })
      else (
        pos 0,
        fetch floats jb,
        catch_up (record jb {
          crossfade_pending = false;
          read_pos = next jb.read_pos;
          fill_level = jb.fill_level - 1;
          total_popped = next jb.total_popped;
        }),
      )

  pub pop : Option (Jitter F) → Option (List F) → ℤ × Option (List F) × Option (Jitter F)
  pop (some jb) (some frame) =
      let (status, frame', jb') = pop_frame jb frame in (status, some frame', some jb')
  pop jb frame = (minus_one, frame, jb)

module _ {F : Type 0} where
  pub level : Option (Jitter F) → ℕ
  level none = 0
  level (some jb) = jb.fill_level

  pub needs_plc : Option (Jitter F) → Bool
  needs_plc none = false
  needs_plc (some jb) = jb.needs_plc

  pub underruns : Option (Jitter F) → ℕ
  underruns none = 0
  underruns (some jb) = jb.underruns

  -- The last sequence number, the depths and the stored frames stay.
  pub reset : Option (Jitter F) → Option (Jitter F)
  reset none = none
  reset (some jb) = some (record jb {
    write_pos = 0;
    read_pos = 0;
    fill_level = 0;
    needs_plc = false;
    crossfade_pending = false;
    total_pushed = 0;
    total_popped = 0;
    underruns = 0;
  })
