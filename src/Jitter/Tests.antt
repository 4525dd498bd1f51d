-- ===== src/Jitter/Tests.antt =====
-- core/src/jitter_buffer.c on small inputs, and its theorems at inputs that meet their hypotheses.
use audio_project.Base.{
  ℕ, ◌+◌, ◌-◌, ◌*◌, ◌/◌, ◌^◌, List, [], ◌∷◌, true, false, pos, minus_one, replicate, ltb, ◌≡◌, refl,
  arith,
}
use audio_project.Float.{Floats}
use audio_project.Jitter.{Jitter, push_frame, pop_frame}
use audio_project.Jitter.Valid.{IsValid}
use audio_project.Jitter.Queue
use audio_project.Jitter.Queue.{Op, pushes, pops, Reply, pushed, popped}
use audio_project.Jitter.Refine.{run, run_refines}
use audio_project.Jitter.Wrap.{wrap_overwrites}

-- Numbers in place of floats.
abbrev whole : Floats
whole = record {
  F = ℕ;
  zero_f = 0;
  one_f = 1;
  small_f = 1;
  of_int = λ n. n;
  add = ◌+◌;
  sub = ◌-◌;
  mul = ◌*◌;
  div = ◌/◌;
  abs = λ n. n;
  tanh = λ n. n;
  lt = ltb;
}

-- Ten frames at most, at positions just before the wrap of the counters.
abbrev near_wrap : Jitter ℕ
near_wrap = record {
  frames = replicate 50 [];
  write_pos = 2 ^ 32 - 1;
  read_pos = 2 ^ 32 - 1;
  fill_level = 0;
  target_depth = 3;
  min_depth = 2;
  max_depth = 10;
  needs_plc = true;
  crossfade_buf = [];
  crossfade_pending = false;
  last_seq = 0;
  total_pushed = 0;
  total_popped = 0;
  underruns = 0;
}

near_wrap-IsValid : IsValid near_wrap
near_wrap-IsValid = record {
  slots = refl;
  depth_pos = omega arith;
  depth_in = omega arith;
  target_pos = omega arith;
  filled = omega arith;
  read_in = omega arith;
  distance = refl;
  steady = refl;
}

abbrev script : List (Op ℕ)
script = pushes (1 ∷ []) 7 ∷ pushes (2 ∷ []) 8 ∷ pops [] ∷ pops [] ∷ pops (9 ∷ []) ∷ []

run_refines_example :
    run whole near_wrap script
    ≡ pushed (pos 0)
      ∷ pushed (pos 0)
      ∷ popped (pos 0) (1 ∷ [])
      ∷ popped (pos 0) (2 ∷ [])
      ∷ popped minus_one (9 ∷ [])
      ∷ []
unfolding Queue.run Queue.push Queue.pop
run_refines_example = run_refines whole near_wrap script near_wrap-IsValid (omega arith)

-- Full up to 46 of 50 frames, across the wrap.
abbrev deep : Jitter ℕ
deep = record near_wrap { write_pos = 45; fill_level = 46; max_depth = 50 }

deep-IsValid : IsValid deep
deep-IsValid = record {
  slots = refl;
  depth_pos = omega arith;
  depth_in = omega arith;
  target_pos = omega arith;
  filled = omega arith;
  read_in = omega arith;
  distance = refl;
  steady = refl;
}

wrap_overwrites_example :
    let (status, jb) = push_frame deep (5 ∷ []) 9 in
    (status ≡ pos 0) × ((pop_frame whole jb []).1 ≡ 5 ∷ [])
wrap_overwrites_example =
    wrap_overwrites whole deep (5 ∷ []) [] 9 deep-IsValid refl (omega arith) (omega arith)
