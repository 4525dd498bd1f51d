-- ===== src/Jitter/Valid.antt =====
-- When a jitter buffer of core/src/jitter_buffer.c is well formed, and what its calls keep of it.
use audio_project.Base.{
  ℕ, zero, suc, ◌+◌, ◌-◌, ◌%◌, ◌^◌, ◌≤◌, ◌<◌, List, [], true, false, some, ℤ, pos, negsuc,
  if◌then◌else◌, length, length-set, ltb, ◌≡◌, refl, arith,
}
use audio_project.Float.{Floats}
use audio_project.Jitter.{
  Jitter, create, push_frame, catch_up, pop_frame, next, depth_or, max_capacity, buf_frames,
}
use audio_project.Jitter.Slots.{queue_from}

-- The counters are `unsigned int`, `fill_level` is the distance from the read to the write position
-- and at most `max_depth`, which is 1 to 50, and no crossfade is pending.
pub record IsValid {F : Type 0} (jb : Jitter F) : Type 0 where
  pub slots : length jb.frames ≡ 50
  pub depth_pos : 1 ≤ jb.max_depth
  pub depth_in : jb.max_depth ≤ 50
  pub target_pos : 1 ≤ jb.target_depth
  pub filled : jb.fill_level ≤ jb.max_depth
  pub read_in : jb.read_pos < 2 ^ 32
  pub distance : jb.write_pos ≡ (jb.read_pos + jb.fill_level) % 2 ^ 32
  pub steady : jb.crossfade_pending ≡ false

-- The queue that a buffer stands for, oldest frame first.
abbrev pub contents : {F : Type 0} → Jitter F → List (List F)
contents jb = queue_from jb.frames jb.read_pos jb.fill_level

depth_or-pos : (depth : ℤ) (default : ℕ) → 1 ≤ default → 1 ≤ depth_or depth default
depth_or-pos (pos zero) default h = h
depth_or-pos (pos (suc n)) default h = omega arith
depth_or-pos (negsuc n) default h = h

deep :
    (depth : ℤ)
    → 1 ≤ (
        if ltb max_capacity (depth_or depth buf_frames)
        then max_capacity
        else depth_or depth buf_frames)
deep depth = ground (arith, depth_or-pos depth buf_frames)

-- Whatever depths are asked for, a new buffer is well formed, empty, and no deeper than 50 frames.
pub create-IsValid :
    (floats : Floats) (target_depth min_depth max_depth : ℤ)
    → (jb : Jitter (Floats.F floats)) × (create floats true target_depth min_depth max_depth
        ≡ some jb)
      × IsValid jb
      × (contents jb ≡ [])
unfolding create
create-IsValid floats target_depth min_depth max_depth = (
  _,
  refl,
  record {
    slots = refl;
    depth_pos = deep max_depth;
    depth_in = ground arith;
    target_pos = depth_or-pos target_depth 3 (omega arith);
    filled = omega arith;
    read_in = omega arith;
    distance = refl;
    steady = refl;
  },
  refl,
)

-- A push keeps the buffer well formed, also where it drops the frame.
pub push_frame-IsValid :
    {F : Type 0} (jb : Jitter F) (frame : List F) (seq : ℕ)
    → IsValid jb
    → IsValid (push_frame jb frame seq).1
unfolding push_frame
push_frame-IsValid jb frame seq v = ground (arith, length-set jb.frames (jb.write_pos % 50) frame)

-- With the level within the maximum there is nothing to catch up.
pub catch_up_idle : {F : Type 0} (jb : Jitter F) → jb.fill_level ≤ jb.max_depth → catch_up jb ≡ jb
unfolding catch_up
catch_up_idle jb h = ground arith

-- The buffer after the front frame is taken.
abbrev pub taken : {F : Type 0} → Jitter F → Jitter F
taken jb = record jb {
  crossfade_pending = false;
  read_pos = next jb.read_pos;
  fill_level = jb.fill_level - 1;
  total_popped = next jb.total_popped;
}

-- A pop keeps the buffer well formed, also where it is empty.
pub pop_frame-IsValid :
    (floats : Floats) (jb : Jitter (Floats.F floats)) (frame : List (Floats.F floats))
    → IsValid jb
    → IsValid (pop_frame floats jb frame).2
unfolding pop_frame
pop_frame-IsValid floats jb frame v = ground (arith, catch_up_idle (taken jb))
