-- ===== src/Ring/Window.antt =====
-- The frames that a ring holds, oldest first: the queue that it stands for.
use native.Mathlib.Nat.{mod-add-mod, mod-lt, mul-le-mul_right, add-zero, add_assoc}
use native.Mathlib.Decide.{dec_lt}
use audio_project.Base.{
  ℕ, zero, suc, ◌+◌, ◌*◌, ◌%◌, ◌≤◌, ◌<◌, List, [], ◌∷◌, ◌++◌, length, slice, overlay,
  slice-overlay_self, slice-overlay_apart, ◌≡◌, ◌≢◌, refl, sym, ap, ap₂, ◌∙◌, ◌⊎◌, inl, inr, arith,
}
use audio_project.Ring.{RingBuf, used}
use audio_project.Ring.Valid.{places_apart}

-- A frame below the capacity lies in the storage.
pub frame_within : (stride idx cap : ℕ) → idx < cap → idx * stride + stride ≤ cap * stride
frame_within stride idx cap h = grind (arith, mul-le-mul_right stride h)

frames_apart :
    (stride i j : ℕ)
    → i ≢ j
    → (j * stride + stride ≤ i * stride) ⊎ (i * stride + stride ≤ j * stride)
frames_apart stride i j ne = elim (dec_lt i j) [
  | yes p ↦ inr (frame_within stride i j p)
  | no p ↦ inl (frame_within stride j i (omega arith))
]

module _ {ℓ} {A : Type ℓ} where
  abbrev pub frame_at : List A → ℕ → ℕ → List A
  frame_at buffer stride idx = slice buffer (idx * stride) stride

module _ {ℓ} {A : Type ℓ} (cap stride : ℕ) where
  -- `n` frames of a ring that starts at `h`, from its place `i` on.
  abbrev pub window : List A → ℕ → ℕ → ℕ → List (List A)
  window buffer h i zero = []
  window buffer h i (suc n) = frame_at buffer stride ((h + i) % cap) ∷ window buffer h (i + 1) n

  pub length-window : (buffer : List A) (h i n : ℕ) → length (window buffer h i n) ≡ n
  length-window buffer h i zero = refl
  length-window buffer h i (suc n) = ap suc (length-window buffer h (i + 1) n)

  pub window-add :
      (buffer : List A) (h i n m : ℕ)
      → window buffer h i (n + m) ≡ window buffer h i n ++ window buffer h (i + n) m
  window-add buffer h i zero m =
      ap₂ (λ a b. window buffer h a b) (sym (add-zero i)) (let e : 0 + m ≡ m = omega arith in e)
  window-add buffer h i (suc n) m =
      ap (λ t. window buffer h i t) (let e : suc n + m ≡ suc (n + m) = omega arith in e)
      ∙ ap (◌∷◌ (frame_at buffer stride ((h + i) % cap))) (
          window-add buffer h (i + 1) n m
          ∙ ap (λ t. window buffer h (i + 1) n ++ window buffer h t m)
              (let e : i + 1 + n ≡ i + suc n = omega arith in e))

  -- Starting `n` places later is skipping `n` places.
  pub window_shift :
      (buffer : List A) (h n i m : ℕ)
      → window buffer ((h + n) % cap) i m ≡ window buffer h (n + i) m
  window_shift buffer h n i zero = refl
  window_shift buffer h n i (suc m) =
      ap₂ ◌∷◌
        (ap (frame_at buffer stride)
          (mod-add-mod (h + n) cap i ∙ ap (λ t. t % cap) (add_assoc h n i)))
        (window_shift buffer h n (i + 1) m ∙ ap (λ t. window buffer h t m) (sym (add_assoc n i 1)))

  -- A write to a place beyond a window leaves it alone.
  pub window-overlay :
      (buffer : List A) (h i n p : ℕ) (frame : List A)
      → h < cap
      → i + n ≤ p
      → p < cap
      → length frame ≡ stride
      → window (overlay buffer ((h + p) % cap * stride) frame) h i n ≡ window buffer h i n
  window-overlay buffer h i zero p frame hh below pc len = refl
  window-overlay buffer h i (suc n) p frame hh below pc len =
      ap₂ ◌∷◌
        (slice-overlay_apart buffer ((h + p) % cap * stride) frame ((h + i) % cap * stride) stride (
          rw len (
            frames_apart stride ((h + p) % cap) ((h + i) % cap)
              (λ e. places_apart cap h i p hh (omega arith) pc (sym e)))))
        (window-overlay buffer h (i + 1) n p frame hh (omega arith) pc len)

  -- Writing a frame at the place after a window extends it by that frame.
  pub window-push :
      (buffer : List A) (h n : ℕ) (frame : List A)
      → h < cap
      → n < cap
      → length buffer ≡ cap * stride
      → length frame ≡ stride
      → window (overlay buffer ((h + n) % cap * stride) frame) h 0 (n + 1)
        ≡ window buffer h 0 n ++ frame ∷ []
  window-push buffer h n frame hh nc size len =
      window-add (overlay buffer ((h + n) % cap * stride) frame) h 0 n 1
      ∙ ap₂ (λ a b. a ++ b ∷ []) (window-overlay buffer h 0 n n frame hh (omega arith) nc len)
          (ap (λ t. frame_at (overlay buffer ((h + n) % cap * stride) frame) stride ((h + t) % cap))
              (let e : 0 + n ≡ n = omega arith in e)
            ∙ ap
                (λ t.
                  slice (overlay buffer ((h + n) % cap * stride) frame) ((h + n) % cap * stride) t)
                (sym len)
            ∙ slice-overlay_self buffer ((h + n) % cap * stride) frame (
                rw len (
                  omega (
                    arith,
                    frame_within stride ((h + n) % cap) cap (mod-lt _ (omega arith)),
                    size,
                  ))))

-- The queue that a ring stands for.
abbrev pub contents {ℓ} : {A : Type ℓ} → RingBuf A → List (List A)
contents rb = window rb.capacity rb.channels rb.buffer rb.read_pos 0 (used rb)

-- The first frames of a caller's array: `n` of them from frame `i` on.
abbrev pub chunks {ℓ} : {A : Type ℓ} → ℕ → List A → ℕ → ℕ → List (List A)
chunks stride samples i zero = []
chunks stride samples i (suc n) = frame_at samples stride i ∷ chunks stride samples (i + 1) n
