-- ===== src/Engine/AudioIo/Frames.antt =====
-- The frames that pass through `ae_engine_write_capture` and `ae_engine_read_playback` of
-- core/src/audio_engine.c.
use mathlib.Core.List.{append-nil}
use mathlib.Core.Path.{subst}
use native.Mathlib.Nat.{mod-lt, mul-le-mul_right}
use audio_project.Base.{
  ℕ, zero, suc, ◌+◌, ◌-◌, ◌*◌, ◌%◌, ◌^◌, ◌<◌, ◌≤◌, min, List, [], ◌∷◌, ◌++◌, Option, none, some, ℤ,
  pos, negsuc, to_int_lem, length, length-append, length-replicate, length-drop, length-slice, drop,
  drop_all, overlay, overlay_start, write_at, write_at-append, replicate, ltb, ◌==◌, if◌then◌else◌,
  Bool-cases, ◌≡◌, sym, ap, ◌∙◌, arith, inl, inr, ◌⊎◌, ◌>>=◌,
}
use audio_project.Float.{Floats}
use audio_project.Opus.{Codec}
use audio_project.Ring.{RingBuf}
use audio_project.Ring as Ring
use audio_project.Ring.Valid.{IsValid}
use audio_project.Ring.Window.{window, contents, chunks}
use audio_project.Ring.Read.{read_refines, interleave}
use audio_project.Ring.Write.{write_refines}
use audio_project.Engine.{AeEngine, ErrorCode, ae_ok, err_full}
use audio_project.Engine.Ready.{Stereo}
use audio_project.Engine.AudioIo.{write_capture, read_playback, fill_rest}

-- Frames of `c` samples.
data Sized {ℓ} {A : Type ℓ} (c : ℕ) : List (List A) → Type ℓ where
  no_frames : Sized c []
  frame : {x : List A} {xs : List (List A)} → length x ≡ c → Sized c xs → Sized c (x ∷ xs)

module _ {ℓ} {A : Type ℓ} where
  Sized-front : (c : ℕ) (xs ys : List (List A)) → Sized c (xs ++ ys) → Sized c xs
  Sized-front c [] ys s = no_frames
  Sized-front c (x ∷ xs) ys (frame e s) = frame e (Sized-front c xs ys s)

  length-interleave :
      (c : ℕ) (xs : List (List A)) → Sized c xs → length (interleave xs) ≡ length xs * c
  length-interleave c [] no_frames = omega arith
  length-interleave c (x ∷ xs) (frame e s) =
      omega (arith, length-append x (interleave xs), length-interleave c xs s, e)

  window-Sized :
      (cap c : ℕ) (buffer : List A) (h i n : ℕ)
      → 0 < cap
      → length buffer ≡ cap * c
      → Sized c (window cap c buffer h i n)
  window-Sized cap c buffer h i zero some_room size = no_frames
  window-Sized cap c buffer h i (suc n) some_room size =
      let at = (h + i) % cap in
      let inside : suc at * c ≤ cap * c =
        mul-le-mul_right c (omega (arith, mod-lt (h + i) some_room)) in
      frame (length-slice buffer (at * c) c (omega (arith, size, inside)))
        (window-Sized cap c buffer h (i + 1) n some_room size)

  contents-Sized : (rb : RingBuf A) → IsValid rb → Sized rb.channels (contents rb)
  contents-Sized rb v =
      window-Sized rb.capacity rb.channels rb.buffer rb.read_pos 0 _ (omega (arith, v.read_in))
        v.storage

-- The zeros behind the frames that were read.
fill_rest_lem :
    (floats : Floats) (got wanted : ℕ) (samples out : List floats.F)
    → length samples ≡ got * 2
    → got ≤ wanted
    → length out ≡ wanted * 2
    → wanted * 2 < 2 ^ 31
    → fill_rest floats got wanted (overlay out 0 samples)
      ≡ some (samples ++ replicate ((wanted - got) * 2) floats.zero_f)
unfolding fill_rest
fill_rest_lem floats got wanted samples out long few room small =
    let zeros = replicate ((wanted - got) * 2) floats.zero_f in
    let size = length-replicate ((wanted - got) * 2) floats.zero_f in
    let rest = drop (length samples) out in
    let behind = length-drop (length samples) out in
    let started : overlay out 0 samples ≡ samples ++ rest =
      overlay_start out samples (omega (arith, long, few, room)) in
    elim (Bool-cases (ltb got wanted)) [
      | inl less ↦
          let written : write_at (samples ++ rest) (length samples) zeros
              ≡ some ((samples ++ zeros) ++ drop (length zeros) rest) =
            write_at-append samples rest zeros (omega (arith, size, behind, long, room)) in
          rw (fill_rest, less)
            (ap
                (λ (t : ℤ). elim t [
                  | pos n ↦ write_at (overlay out 0 samples) (got * 2) (replicate n floats.zero_f)
                  | negsuc n ↦ none
                ])
                (to_int_lem ((wanted - got) * 2) (omega (arith, small)))
              ∙ ap (λ t. write_at t (got * 2) zeros) started
              ∙ ap (λ k. write_at (samples ++ rest) k zeros) (sym long)
              ∙ written
              ∙ ap (λ t. some ((samples ++ zeros) ++ t))
                  (drop_all (length zeros) rest (omega (arith, size, behind, long, room)))
              ∙ ap some (append-nil (samples ++ zeros)))
      | inr all ↦
          let same : wanted - got ≡ 0 = ground arith in
          rw (fill_rest, all)
            (ap some (
              started
              ∙ ap (◌++◌ samples) (
                  drop_all (length samples) out (omega (arith, long, room, same))
                  ∙ ap (λ k. replicate (k * 2) floats.zero_f) (sym same))))
    ]

module _ (floats : Floats) {codec : Codec floats.F} where
  open floats use {F, zero_f}

  -- `ae_engine_read_playback` on an engine with its rings, for an array of exactly the frames that are
  -- asked for, with no more samples than an `int` counts: it returns, stays inside the array, reports the smaller of what is asked for and what the
  -- playback ring holds, lays exactly that many of the oldest frames at the start of the array and zeros
  -- behind them up to its end, and takes those frames off the ring.
  pub read_playback_lem :
      (e : AeEngine codec) (playback : Stereo e.playback_ring) (out : List F) (n : ℕ)
      → length out ≡ suc n * 2
      → suc n * 2 < 2 ^ 31
      → (delivered : List (List F)) × (rb' : RingBuf F) × (read_playback floats
            (some e)
            (some out)
            (pos (suc n))
          ≡ some (
            length delivered,
            some (interleave delivered ++ replicate ((suc n - length delivered) * 2) zero_f),
            some (record e { playback_ring = some rb' }),
          ))
        × IsValid rb'
        × (length delivered ≡ min (suc n) (length (contents playback.rb)))
        × (contents playback.rb ≡ delivered ++ contents rb')
  unfolding read_playback
  read_playback_lem e playback out n room small =
      let rb = playback.rb in
      let (delivered, rb', reads, valid, same, count, queue) =
        read_refines rb playback.ring_valid out n
          (omega (arith, ap (λ c. suc n * c) playback.stereo, room)) in
      let after : Option (RingBuf F) → AeEngine codec = λ ring. record e { playback_ring = ring } in
      let finish : ℕ × Option (List F) × Option (RingBuf F)
          → Option (ℕ × Option (List F) × Option (AeEngine codec)) =
        λ r. elim r.1 [
          | none ↦ some (r.0, none, some (after r.2))
          | some bytes ↦
              fill_rest floats r.0 (suc n) bytes
              >>= (λ filled. some (r.0, some filled, some (after r.2)))
        ] in
      let sized : Sized rb.channels delivered =
        Sized-front rb.channels delivered (contents rb')
          (subst (Sized rb.channels) queue (contents-Sized rb playback.ring_valid)) in
      let long : length (interleave delivered) ≡ length delivered * 2 =
        length-interleave rb.channels delivered sized
        ∙ ap (λ c. length delivered * c) playback.stereo in
      (
        delivered,
        rb',
        ap (λ o. Ring.read o (some out) (pos (suc n)) >>= finish) playback.has_ring
            ∙ ap (λ r. r >>= finish) reads
            ∙ ap
                (λ r.
                  r >>= (λ filled. some (length delivered, some filled, some (after (some rb')))))
                (fill_rest_lem floats (length delivered) (suc n) (interleave delivered) out long
                  (omega (arith, count)) room small),
        valid,
        count,
        queue,
      )

module _ {F : Type 0} {codec : Codec F} where
  -- `ae_engine_write_capture` on an engine with its rings, for at least the frames that are offered: it
  -- returns, stays inside the array, and appends the first of them in their order to the capture ring,
  -- as many as there is room for. It reports AE_OK where all of them were stored, and AE_ERR_FULL where
  -- some were dropped.
  pub write_capture_lem :
      (e : AeEngine codec) (capture : Stereo e.capture_ring) (samples : List F) (n : ℕ)
      → suc n * 2 ≤ length samples
      → let stored = min (suc n) (capture.rb.capacity - 1 - length (contents capture.rb)) in
        (code : ErrorCode) × (rb' : RingBuf F) × (write_capture
            (some e)
            (some samples)
            (pos (suc n))
          ≡ some (code, some (record e { capture_ring = some rb' })))
        × IsValid rb'
        × (contents rb' ≡ contents capture.rb ++ chunks 2 samples 0 stored)
        × ((code ≡ ae_ok) × (stored ≡ suc n) ⊎ (code ≡ err_full) × (stored < suc n))
  unfolding write_capture
  write_capture_lem e capture samples n enough =
      let rb = capture.rb in
      let stored = min (suc n) (rb.capacity - 1 - length (contents rb)) in
      let (rb', writes, valid, cap, chans, queue) =
        write_refines rb capture.ring_valid samples n
          (omega (arith, ap (λ c. suc n * c) capture.stereo, enough)) in
      let report : ℕ → ErrorCode = λ k. if k == suc n then ae_ok else err_full in
      let finish : ℕ × Option (RingBuf F) → Option (ErrorCode × Option (AeEngine codec)) =
        λ r. some (report r.0, some (record e { capture_ring = r.1 })) in
      (
        report stored,
        rb',
        ap (λ o. Ring.write o (some samples) (pos (suc n)) >>= finish) capture.has_ring
            ∙ ap (λ r. r >>= finish) writes,
        valid,
        queue ∙ ap (λ c. contents rb ++ chunks c samples 0 stored) capture.stereo,
        elim (Bool-cases (stored == suc n)) [
          | inl q ↦ inl (ap (λ b. if b then ae_ok else err_full) q, ground arith)
          | inr q ↦ inr (ap (λ b. if b then ae_ok else err_full) q, ground arith)
        ],
      )
