-- ===== src/Engine/AudioIo.antt =====
-- The calls of core/src/audio_engine.c that the platform's audio thread makes.
pub mod Frames
pub mod Kept
use audio_project.Base.{
  ℕ, zero, suc, ◌-◌, ◌*◌, List, Option, none, some, ℤ, pos, negsuc, to_int, ltb, ◌==◌,
  if◌then◌else◌, replicate, write_at, ◌>>=◌,
}
use audio_project.Float.{Floats}
use audio_project.Opus.{Codec}
use audio_project.Ring as Ring
use audio_project.Engine.{AeEngine, ErrorCode, ae_ok, err_invalid_param, err_full}

pub write_capture :
    {F : Type 0} {codec : Codec F}
    → Option (AeEngine codec)
    → Option (List F)
    → ℤ
    → Option (ErrorCode × Option (AeEngine codec))
write_capture (some e) (some samples) (pos (suc n)) = do
  (written, ring') ← Ring.write e.capture_ring (some samples) (pos (suc n))
  some (if written == suc n then ae_ok else err_full, some (record e { capture_ring = ring' }))
write_capture e samples frame_count = some (err_invalid_param, e)

-- The zeros behind the frames that were read, where fewer than `wanted` were there. A number of samples
-- that wraps around to a negative `int` is a `size_t` beyond any array.
pub fill_rest : (floats : Floats) → ℕ → ℕ → List floats.F → Option (List floats.F)
fill_rest floats got wanted out =
    let filled : Option (List floats.F) = elim (to_int (pos ((wanted - got) * 2))) [
      | pos remaining_samples ↦ write_at out (got * 2) (replicate remaining_samples floats.zero_f)
      | negsuc n ↦ none
    ] in
    if ltb got wanted then filled else some out

-- The number of frames, the caller's array and the engine after the call.
pub read_playback :
    (floats : Floats) {codec : Codec floats.F}
    → Option (AeEngine codec)
    → Option (List floats.F)
    → ℤ
    → Option (ℕ × Option (List floats.F) × Option (AeEngine codec))
read_playback floats (some e) (some samples) (pos (suc n)) = do
  (got, out, ring') ← Ring.read e.playback_ring (some samples) (pos (suc n))
  let e' = record e { playback_ring = ring' }
  elim out [
    | none ↦ some (got, none, some e')
    | some bytes ↦ do filled ← fill_rest floats got (suc n) bytes; some (got, some filled, some e')
  ]
read_playback floats e samples frame_count = some (0, samples, e)
