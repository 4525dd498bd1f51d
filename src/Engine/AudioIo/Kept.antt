-- ===== src/Engine/AudioIo/Kept.antt =====
-- What the audio calls of core/src/audio_engine.c keep.
use mathlib.Core.Option.{some-injective}
use audio_project.Base.{
  ℕ, zero, suc, List, Option, none, some, ℤ, pos, negsuc, ◌==◌, if◌then◌else◌, ◌≡◌, ap, inl, inr,
  bind-some, elim-some, ◌>>=◌,
}
use audio_project.Float.{Floats}
use audio_project.Opus.{Codec}
use audio_project.Ring as Ring
use audio_project.Engine.{AeEngine, World, ErrorCode, ae_ok, err_full}
use audio_project.Engine.Session.Valid.{Valid, moved}
use audio_project.Engine.AudioIo.{write_capture, read_playback, fill_rest}

pub write_capture-Valid :
    {F : Type 0} {codec : Codec F} (e : AeEngine codec) (samples : Option (List F))
    (frame_count : ℤ) (world : World) (code : ErrorCode) (e' : AeEngine codec)
    → write_capture (some e) samples frame_count ≡ some (code, some e')
    → Valid e world
    → Valid e' world
unfolding write_capture
write_capture-Valid e none frame_count world code e' q v =
    moved _ _ world (ap (λ r. r.1) (some-injective _ _ q)) v
write_capture-Valid e (some samples) (pos zero) world code e' q v =
    moved _ _ world (ap (λ r. r.1) (some-injective _ _ q)) v
write_capture-Valid e (some samples) (negsuc n) world code e' q v =
    moved _ _ world (ap (λ r. r.1) (some-injective _ _ q)) v
write_capture-Valid {F} {codec} e (some samples) (pos (suc n)) world code e' q v =
    let next : ℕ × Option (Ring.RingBuf F) → Option (ErrorCode × Option (AeEngine codec)) = λ p.
      some (if p.0 == suc n then ae_ok else err_full, some (record e { capture_ring = p.1 })) in
    let (p, written, rest) =
      bind-some (Ring.write e.capture_ring (some samples) (pos (suc n))) next (code, some e') q in
    moved (record e { capture_ring = p.1 }) _ world (ap (λ r. r.1) (some-injective _ _ rest)) v

pub read_playback-Valid :
    (floats : Floats) {codec : Codec floats.F} (e : AeEngine codec)
    (samples out : Option (List floats.F)) (frame_count : ℤ) (world : World) (got : ℕ)
    (e' : AeEngine codec)
    → read_playback floats (some e) samples frame_count ≡ some (got, out, some e')
    → Valid e world
    → Valid e' world
unfolding read_playback
read_playback-Valid floats e none out frame_count world got e' q v =
    moved _ _ world (ap (λ r. r.2) (some-injective _ _ q)) v
read_playback-Valid floats e (some samples) out (pos zero) world got e' q v =
    moved _ _ world (ap (λ r. r.2) (some-injective _ _ q)) v
read_playback-Valid floats e (some samples) out (negsuc n) world got e' q v =
    moved _ _ world (ap (λ r. r.2) (some-injective _ _ q)) v
read_playback-Valid floats {codec} e (some samples) out (pos (suc n)) world got e' q v =
    let after : Option (Ring.RingBuf floats.F) → AeEngine codec =
      λ ring. record e { playback_ring = ring } in
    let finish : ℕ × Option (List floats.F) × Option (Ring.RingBuf floats.F)
        → Option (ℕ × Option (List floats.F) × Option (AeEngine codec)) =
      λ r. elim r.1 [
        | none ↦ some (r.0, none, some (after r.2))
        | some bytes ↦
            fill_rest floats r.0 (suc n) bytes
            >>= (λ filled. some (r.0, some filled, some (after r.2)))
      ] in
    let (r, reads, rest) =
      bind-some (Ring.read e.playback_ring (some samples) (pos (suc n))) finish (got, out, some e')
        q in
    elim (elim-some r.1 _ _ (got, out, some e') rest) [
      | inl (t, h) ↦ moved (after r.2) _ world (ap (λ r. r.2) (some-injective _ _ h)) v
      | inr (bytes, t, h) ↦
          let (filled, fills, last) =
            bind-some (fill_rest floats r.0 (suc n) bytes)
              (λ filled. some (r.0, some filled, some (after r.2))) (got, out, some e') h in
          moved (after r.2) _ world (ap (λ r. r.2) (some-injective _ _ last)) v
    ]
