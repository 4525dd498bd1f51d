-- ===== src/Jitter/Wrap.antt =====
-- Deeper than 46 frames, the buffer of core/src/jitter_buffer.c loses its oldest frame where the
-- positions wrap.
use audio_project.Base.{ℕ, ◌+◌, ◌%◌, ◌^◌, ◌≤◌, ◌<◌, List, [], pos, get_or-set_self, ◌≡◌, arith}
use audio_project.Float.{Floats}
use audio_project.Jitter.{Jitter, push_frame, pop_frame, fetch}
use audio_project.Jitter.Valid.{IsValid}

-- With a maximum above 46, and 46 frames held across the wrap of the positions, a push is accepted and
-- the next pop hands out the frame just pushed: it has taken the place of the oldest.
pub wrap_overwrites :
    (floats : Floats) (jb : Jitter (Floats.F floats)) (frame out : List (Floats.F floats)) (seq : ℕ)
    → IsValid jb
    → jb.fill_level ≡ 46
    → 46 < jb.max_depth
    → 2 ^ 32 ≤ jb.read_pos + 46
    → let (status, jb') = push_frame jb frame seq in
      (status ≡ pos 0) × ((pop_frame floats jb' out).1 ≡ frame)
unfolding push_frame pop_frame fetch
wrap_overwrites floats jb frame out seq v full deep wraps =
    ground (arith, same_slot, get_or-set_self jb.frames (jb.write_pos % 50) frame [])
  where
    same_slot : jb.write_pos % 50 ≡ jb.read_pos % 50
    same_slot = omega (arith, v.distance)
