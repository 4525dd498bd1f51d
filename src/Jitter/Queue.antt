-- ===== src/Jitter/Queue.antt =====
-- What core/src/jitter_buffer.h promises of a jitter buffer: a queue of frames with a limit, where a
-- push on a full queue drops the new frame and a pop on an empty one leaves the caller's frame alone.
use audio_project.Base.{ℕ, List, [], ◌∷◌, ◌++◌, ℤ, pos, minus_one, length, leb, if◌then◌else◌}

-- A call on the buffer; a pop brings the frame that the caller's array holds before it.
pub data Op (F : Type 0) : Type 0 where
  pushes : List F → ℕ → Op F
  pops : List F → Op F

-- What the caller sees of a call: the status, and the caller's frame after a pop.
pub data Reply (F : Type 0) : Type 0 where
  pushed : ℤ → Reply F
  popped : ℤ → List F → Reply F

module _ {F : Type 0} where
  unfoldable pub push : ℕ → List (List F) → List F → ℤ × List (List F)
  push depth queue frame =
      if leb depth (length queue) then (minus_one, queue) else (pos 0, queue ++ frame ∷ [])

  unfoldable pub pop : List (List F) → List F → ℤ × List F × List (List F)
  pop [] frame = (minus_one, frame, [])
  pop (front ∷ queue) frame = (pos 0, front, queue)

  unfoldable pub run : ℕ → List (List F) → List (Op F) → List (Reply F)
  run depth queue [] = []
  run depth queue (pushes frame seq ∷ ops) =
      let (status, queue') = push depth queue frame in pushed status ∷ run depth queue' ops
  run depth queue (pops frame ∷ ops) =
      let (status, front, queue') = pop queue frame in popped status front ∷ run depth queue' ops
