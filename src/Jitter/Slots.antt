-- ===== src/Jitter/Slots.antt =====
-- The slots that consecutive positions of core/src/jitter_buffer.c name, across the wrap of the
-- counters: 2 ^ 32 is no multiple of the 50 slots, so there the sequence of slots jumps.
use audio_project.Base.{
  ℕ, zero, suc, ◌+◌, ◌%◌, ◌^◌, ◌≤◌, ◌<◌, List, [], ◌∷◌, ◌++◌, length, set, get_or, get_or-set_self,
  get_or-set_ne, ◌≡◌, ◌≢◌, refl, ap, ap₂, ◌∙◌, arith,
}

-- The slot of the position that a counter shows after `n` increments from 0.
abbrev pub slot : ℕ → ℕ
slot n = n % 2 ^ 32 % 50

-- Positions at most 45 apart have different slots, also across the wrap.
slots_apart : (n d : ℕ) → 0 < d → d ≤ 45 → slot (n + d) ≢ slot n
slots_apart n d h k = omega arith

module _ {F : Type 0} where
  -- The frames in the `n` slots from position `p` on.
  abbrev pub queue_from : List (List F) → ℕ → ℕ → List (List F)
  queue_from frames p zero = []
  queue_from frames p (suc n) = get_or frames (slot p) [] ∷ queue_from frames (p + 1) n

  pub length-queue_from : (frames : List (List F)) (p n : ℕ) → length (queue_from frames p n) ≡ n
  length-queue_from frames p zero = refl
  length-queue_from frames p (suc n) = ap suc (length-queue_from frames (p + 1) n)

  -- Only the counter's value matters.
  pub queue_from_wrap :
      (frames : List (List F)) (p q n : ℕ)
      → p % 2 ^ 32 ≡ q % 2 ^ 32
      → queue_from frames p n ≡ queue_from frames q n
  queue_from_wrap frames p q zero e = refl
  queue_from_wrap frames p q (suc n) e =
      ap₂ (λ a b. get_or frames (a % 50) [] ∷ b) e
        (queue_from_wrap frames (p + 1) (q + 1) n (omega arith))

  queue_from-set :
      (frames : List (List F)) (p n m : ℕ) (frame : List F)
      → n ≤ m
      → m ≤ 45
      → queue_from (set frames (slot (p + m)) frame) p n ≡ queue_from frames p n
  queue_from-set frames p zero m frame h k = refl
  queue_from-set frames p (suc n) zero frame h k = absurd (omega arith)
  queue_from-set frames p (suc n) (suc m) frame h k =
      ap₂ ◌∷◌
        (get_or-set_ne frames (slot (p + suc m)) (slot p) frame []
          (slots_apart p (suc m) (omega arith) k))
        (ap (λ t. queue_from (set frames (slot t) frame) (p + 1) n) (one_on p m)
          ∙ queue_from-set frames (p + 1) n m frame (omega arith) (omega arith))
    where
      one_on : (a b : ℕ) → a + suc b ≡ a + 1 + b
      one_on a b = omega arith

  queue_from-suc :
      (frames : List (List F)) (p n : ℕ)
      → queue_from frames p (suc n) ≡ queue_from frames p n ++ get_or frames (slot (p + n)) [] ∷ []
  queue_from-suc frames p zero =
      ap (λ t. get_or frames (slot t) [] ∷ []) (let e : p ≡ p + 0 = omega arith in e)
  queue_from-suc frames p (suc n) = ap (◌∷◌ (get_or frames (slot p) [])) (
      queue_from-suc frames (p + 1) n
      ∙ ap (λ t. queue_from frames (p + 1) n ++ get_or frames (slot t) [] ∷ [])
          (let e : p + 1 + n ≡ p + suc n = omega arith in e))

  -- A frame stored at the next position, with at most 45 frames before it, goes to the end.
  pub queue_from-push :
      (frames : List (List F)) (p n : ℕ) (frame : List F)
      → n ≤ 45
      → length frames ≡ 50
      → queue_from (set frames (slot (p + n)) frame) p (suc n) ≡ queue_from frames p n ++ frame ∷ []
  queue_from-push frames p n frame h size =
      queue_from-suc (set frames (slot (p + n)) frame) p n
      ∙ ap₂ (λ a b. a ++ b ∷ []) (queue_from-set frames p n n frame (omega arith) h)
          (get_or-set_self frames (slot (p + n)) frame [] (omega arith))
