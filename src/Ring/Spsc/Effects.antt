-- ===== src/Ring/Spsc/Effects.antt =====
-- What one step of either thread of core/src/ring_buffer.c does to the frames of the ring and to the
-- arrays of the callers.
use native.Mathlib.Nat.{add-zero, zero-add}
use native.Mathlib.Numerals.{add-one}
use audio_project.Base.{
  ℕ, zero, suc, ◌+◌, ◌*◌, ◌%◌, ◌≤◌, ◌<◌, List, [], ◌∷◌, ◌++◌, length, overlay, length-overlay,
  slice, slice-overlay_self, slice-overlay_apart, inl, ◌≡◌, refl, sym, ap, ap₂, ◌∙◌, arith,
}
use audio_project.Ring.{RingBuf, used, masked}
use audio_project.Ring.Valid.{IsValid, masked-mod, write_pos-used}
use audio_project.Ring.Window.{
  frame_at, frame_within, window, window-add, window_shift, window-overlay, window-push, contents,
  chunks,
}
use audio_project.Ring.Write.{masked-place, used-advance}

module _ {ℓ} {A : Type ℓ} (stride : ℕ) where
  chunks-add :
      (xs : List A) (i n : ℕ)
      → chunks stride xs i (n + 1) ≡ chunks stride xs i n ++ frame_at xs stride (i + n) ∷ []
  chunks-add xs i zero = ap (λ t. frame_at xs stride t ∷ []) (sym (add-zero i))
  chunks-add xs i (suc n) =
      ap (chunks stride xs i) (let e : suc n + 1 ≡ suc (n + 1) = omega arith in e)
      ∙ ap (◌∷◌ (frame_at xs stride i)) (
          chunks-add xs (i + 1) n
          ∙ ap (λ t. chunks stride xs (i + 1) n ++ frame_at xs stride t ∷ [])
              (let e : i + 1 + n ≡ i + suc n = omega arith in e))

  pub chunks-suc :
      (xs : List A) (i : ℕ)
      → chunks stride xs 0 (suc i) ≡ chunks stride xs 0 i ++ frame_at xs stride i ∷ []
  chunks-suc xs i =
      ap (chunks stride xs 0) (sym (add-one i))
      ∙ chunks-add xs 0 i
      ∙ ap (λ t. chunks stride xs 0 i ++ frame_at xs stride t ∷ []) (zero-add i)

  chunks-overlay :
      (xs : List A) (i n p : ℕ) (frame : List A)
      → i + n ≤ p
      → chunks stride (overlay xs (p * stride) frame) i n ≡ chunks stride xs i n
  chunks-overlay xs i zero p frame below = refl
  chunks-overlay xs i (suc n) p frame below =
      ap₂ ◌∷◌
        (slice-overlay_apart xs (p * stride) frame (i * stride) stride
          (inl (frame_within stride i p (omega arith))))
        (chunks-overlay xs (i + 1) n p frame (omega arith))

  -- A frame laid behind the first `i` extends them by one.
  pub chunks-push :
      (xs : List A) (i : ℕ) (frame : List A)
      → length frame ≡ stride
      → i * stride + stride ≤ length xs
      → chunks stride (overlay xs (i * stride) frame) 0 (suc i) ≡ chunks stride xs 0 i ++ frame ∷ []
  chunks-push xs i frame len within =
      chunks-suc (overlay xs (i * stride) frame) i
      ∙ ap₂ (λ a b. a ++ b ∷ []) (chunks-overlay xs 0 i i frame (omega arith))
          (ap (slice (overlay xs (i * stride) frame) (i * stride)) (sym len)
            ∙ slice-overlay_self xs (i * stride) frame (rw len within))

module _ {ℓ} {A : Type ℓ} (rb : RingBuf A) (v : IsValid rb) where
  open rb use {buffer, capacity, channels, read_pos, write_pos}

  pub window-suc :
      (i : ℕ)
      → window capacity channels buffer read_pos 0 (suc i)
        ≡ window capacity channels buffer read_pos 0 i
          ++ frame_at buffer channels (masked rb read_pos i) ∷ []
  window-suc i =
      ap (window capacity channels buffer read_pos 0) (sym (add-one i))
      ∙ window-add capacity channels buffer read_pos 0 i 1
      ∙ ap (λ t. window capacity channels buffer read_pos 0 i ++ frame_at buffer channels t ∷ [])
          (ap (λ t. (read_pos + t) % capacity) (zero-add i) ∙ sym (masked-mod v read_pos i))

  -- The ring with one more frame stored, which is not published yet.
  abbrev pub stored : ℕ → List A → RingBuf A
  stored i frame = record rb { buffer = overlay buffer (masked rb write_pos i * channels) frame }

  module _ (i : ℕ) (frame : List A) (room : used rb + i < capacity)
      (len : length frame ≡ channels) where
    pub IsValid-stored : IsValid (stored i frame)
    IsValid-stored = record {
      bits = v.bits;
      power = v.power;
      narrow = v.narrow;
      storage = length-overlay buffer (masked rb write_pos i * channels) frame ∙ v.storage;
      addressable = v.addressable;
      write_in = v.write_in;
      read_in = v.read_in;
    }

    -- The frames that the consumer may read stay as they are.
    pub window-stored :
        (n : ℕ)
        → n ≤ used rb
        → window capacity channels (stored i frame).buffer read_pos 0 n
          ≡ window capacity channels buffer read_pos 0 n
    window-stored n h = rw (masked-place rb v [] i) (
        window-overlay capacity channels buffer read_pos 0 n (used rb + i) frame v.read_in
          (omega arith) room len)

    -- The frames behind the write position grow by the new one.
    pub filled-stored :
        window capacity channels (stored i frame).buffer write_pos 0 (suc i)
        ≡ window capacity channels buffer write_pos 0 i ++ frame ∷ []
    filled-stored =
        ap (window capacity channels (stored i frame).buffer write_pos 0) (sym (add-one i))
        ∙ rw (masked-mod v write_pos i) (
            window-push capacity channels buffer write_pos i frame v.write_in (omega arith)
              v.storage len)

  abbrev pub published : ℕ → RingBuf A
  published n = record rb { write_pos = masked rb write_pos n }

  -- The store of the write position puts the frames behind it at the end of the queue.
  pub contents-published :
      (n : ℕ)
      → used rb + n < capacity
      → contents (published n) ≡ contents rb ++ window capacity channels buffer write_pos 0 n
  contents-published n h =
      ap (window capacity channels buffer read_pos 0) (used-advance rb v [] buffer n v.storage h)
      ∙ window-add capacity channels buffer read_pos 0 (used rb) n
      ∙ ap (λ t. contents rb ++ t)
          (ap (λ t. window capacity channels buffer read_pos t n)
              (zero-add (used rb) ∙ sym (add-zero (used rb)))
            ∙ sym (window_shift capacity channels buffer read_pos (used rb) 0 n)
            ∙ ap (λ t. window capacity channels buffer t 0 n) (write_pos-used v))
