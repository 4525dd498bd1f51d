-- ===== src/Jitter/Refine.antt =====
-- A well-formed jitter buffer of core/src/jitter_buffer.c of at most 46 frames behaves as the queue of
-- the frames that it holds.
use native.Mathlib.Numerals.{add-one}
use audio_project.Base.{
  ℕ, zero, suc, ◌+◌, ◌-◌, ◌%◌, ◌^◌, ◌≤◌, ◌<◌, List, [], ◌∷◌, ◌++◌, set, get_or, ◌≡◌, ◌≢◌, refl, ap,
  ap₂, ◌∙◌, arith,
}
use audio_project.Float.{Floats}
use audio_project.Jitter.{Jitter, push_frame, pop_frame, fetch}
use audio_project.Jitter.Slots.{
  slot, queue_from, length-queue_from, queue_from_wrap, queue_from-push,
}
use audio_project.Jitter.Valid.{
  IsValid, contents, taken, catch_up_idle, push_frame-IsValid, pop_frame-IsValid,
}
use audio_project.Jitter.Queue
use audio_project.Jitter.Queue.{Op, pushes, pops, Reply, pushed, popped}

-- The client's calls in order, with what it sees of each.
module _ (floats : Floats) where
  open floats use {F}

  pub run : Jitter F → List (Op F) → List (Reply F)
  run jb [] = []
  run jb (pushes frame seq ∷ ops) =
      let (status, jb') = push_frame jb frame seq in pushed status ∷ run jb' ops
  run jb (pops frame ∷ ops) =
      let (status, front, jb') = pop_frame floats jb frame in popped status front ∷ run jb' ops

module _ {F : Type 0} where
  queue_from_cons :
      (frames : List (List F)) (p n : ℕ)
      → n ≢ 0
      → queue_from frames p n ≡ get_or frames (slot p) [] ∷ queue_from frames (p + 1) (n - 1)
  queue_from_cons frames p zero h = absurd (h refl)
  queue_from_cons frames p (suc n) h =
      ap (λ t. get_or frames (slot p) [] ∷ queue_from frames (p + 1) t)
        (let e : n ≡ suc n - 1 = omega arith in e)

  push_room :
      (jb : Jitter F) (frame : List F)
      → IsValid jb
      → jb.fill_level < jb.max_depth
      → jb.max_depth ≤ 46
      → queue_from (set jb.frames (jb.write_pos % 50) frame) jb.read_pos (jb.fill_level + 1)
        ≡ contents jb ++ frame ∷ []
  push_room jb frame v room shallow =
      ap₂ (λ w n. queue_from (set jb.frames (w % 50) frame) jb.read_pos n) v.distance
        (add-one jb.fill_level)
      ∙ queue_from-push jb.frames jb.read_pos jb.fill_level frame (omega arith) v.slots

  -- A push on a buffer of at most 46 frames does what the queue does.
  pub push_refines :
      (jb : Jitter F) (frame : List F) (seq : ℕ)
      → IsValid jb
      → jb.max_depth ≤ 46
      → let (status, jb') = push_frame jb frame seq in
        (status, contents jb') ≡ Queue.push jb.max_depth (contents jb) frame
  unfolding push_frame Queue.push
  push_refines jb frame seq v shallow =
      ground (arith, length-queue_from jb.frames jb.read_pos jb.fill_level, push_room jb frame v)

module _ (floats : Floats) where
  open floats use {F}

  -- A pop hands out the front of the queue and leaves the rest, or finds the queue empty.
  pub pop_refines :
      (jb : Jitter F) (frame : List F)
      → IsValid jb
      → let (status, front, jb') = pop_frame floats jb frame in
        (status, front, contents jb') ≡ Queue.pop (contents jb) frame
  unfolding pop_frame fetch Queue.pop
  pop_refines jb frame v = ground (
    arith,
    catch_up_idle (taken jb),
    queue_from_cons jb.frames jb.read_pos jb.fill_level,
    queue_from_wrap jb.frames ((jb.read_pos + 1) % 2 ^ 32) (jb.read_pos + 1) (jb.fill_level - 1),
  )

  max_depth-push :
      (jb : Jitter F) (frame : List F) (seq : ℕ)
      → (push_frame jb frame seq).1.max_depth ≡ jb.max_depth
  unfolding push_frame
  max_depth-push jb frame seq = ground arith

  max_depth-pop :
      (jb : Jitter F) (frame : List F)
      → IsValid jb
      → (pop_frame floats jb frame).2.max_depth ≡ jb.max_depth
  unfolding pop_frame
  max_depth-pop jb frame v = ground (arith, catch_up_idle (taken jb))

  -- No sequence of pushes and pops tells a well-formed buffer of at most 46 frames from the bounded
  -- queue of its frames: every status and every frame handed out is the queue's, also where the 32-bit
  -- positions wrap.
  pub run_refines :
      (jb : Jitter F) (ops : List (Op F))
      → IsValid jb
      → jb.max_depth ≤ 46
      → run floats jb ops ≡ Queue.run jb.max_depth (contents jb) ops
  unfolding run Queue.run
  run_refines jb [] v shallow = refl
  run_refines jb (pushes frame seq ∷ ops) v shallow = rw (
    run_refines (push_frame jb frame seq).1 ops (push_frame-IsValid jb frame seq v)
        (rw max_depth-push shallow),
    ← push_refines jb frame seq v shallow,
    max_depth-push,
  )
  run_refines jb (pops frame ∷ ops) v shallow = rw (
    run_refines (pop_frame floats jb frame).2 ops (pop_frame-IsValid floats jb frame v)
        (rw (max_depth-pop jb frame v) shallow),
    ← pop_refines jb frame v,
    max_depth-pop jb frame v,
  )
