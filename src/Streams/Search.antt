-- ===== src/Streams/Search.antt =====
-- The searches in the table of streams of core/src/audio_engine.c.
use mathlib.Core.Option
use mathlib.Core.Option.{some-injective, none-ne-some}
use audio_project.Base.{
  ℕ, zero, suc, ◌<◌, List, [], ◌∷◌, ◌≡◌, ◌≢◌, refl, ap, ◌∙◌, arith, length, none, some, true, false,
  ◌&&◌, ◌==◌, if◌then◌else◌, get_elem?, set, Option-cases, Bool-cases, inl, inr,
}
use audio_project.Streams.{Stream, find_among, free_slot, ended}

module _ {F D : Type 0} where
  -- The streams that are active.
  unfoldable pub count : List (Stream F D) → ℕ
  count [] = 0
  count (s ∷ streams) = if s.active then suc (count streams) else count streams

  -- A free slot filled is one active stream more, and found by its client's number, which no other
  -- stream had; the streams of other clients are found where they were.
  pub count-set_free :
      (streams : List (Stream F D)) (i : ℕ) (s : Stream F D)
      → free_slot streams ≡ some i
      → s.active ≡ true
      → count (set streams i s) ≡ suc (count streams)
  unfolding free_slot count
  count-set_free [] i s e a = absurd (none-ne-some _ e)
  count-set_free (x ∷ xs) zero s e a = elim (Option-cases (free_slot xs)) [
    | inl r ↦ ground arith
    | inr (j, r) ↦ ground arith
  ]
  count-set_free (x ∷ xs) (suc i) s e a = elim (Option-cases (free_slot xs)) [
    | inl r ↦ ground arith
    | inr (j, r) ↦ ground (arith, count-set_free xs i s (ground arith) a)
  ]

  pub find-set_free :
      (streams : List (Stream F D)) (i client : ℕ) (s : Stream F D)
      → free_slot streams ≡ some i
      → s.active ≡ true
      → s.client_id ≡ client
      → find_among streams client ≡ none
      → find_among (set streams i s) client ≡ some i
  unfolding free_slot find_among
  find-set_free [] i client s e a c h = absurd (none-ne-some _ e)
  find-set_free (x ∷ xs) zero client s e a c h = ground arith
  find-set_free (x ∷ xs) (suc i) client s e a c h = elim (Option-cases (free_slot xs)) [
    | inl r ↦ ground arith
    | inr (j, r) ↦ elim (Option-cases (find_among xs client)) [
      | inl q ↦ ground (arith, find-set_free xs i client s (ground arith) a c q)
      | inr (k, q) ↦ ground arith
    ]
  ]

  pub find-set_other :
      (streams : List (Stream F D)) (i client : ℕ) (s : Stream F D)
      → free_slot streams ≡ some i
      → s.client_id ≢ client
      → find_among (set streams i s) client ≡ find_among streams client
  unfolding free_slot find_among
  find-set_other [] i client s e c = refl
  find-set_other (x ∷ xs) zero client s e c = elim (Option-cases (free_slot xs)) [
    | inl r ↦ ground arith
    | inr (j, r) ↦ ground arith
  ]
  find-set_other (x ∷ xs) (suc i) client s e c = elim (Option-cases (free_slot xs)) [
    | inl r ↦ ground arith
    | inr (j, r) ↦
        ap (λ t. if x.active && (x.client_id == client) then some 0 else Option.map suc t)
          (find-set_other xs i client s (ground arith) c)
  ]

  -- Where there is no free slot every entry is active.
  pub count_full :
      (streams : List (Stream F D)) → free_slot streams ≡ none → count streams ≡ length streams
  unfolding free_slot count
  count_full [] e = refl
  count_full (x ∷ xs) e = elim (Option-cases (free_slot xs)) [
    | inl r ↦ ground (arith, count_full xs r)
    | inr (j, r) ↦ ground arith
  ]

  -- An active stream that is ended is one active stream less.
  pub count-set-ended :
      (streams : List (Stream F D)) (i : ℕ) (s : Stream F D)
      → get_elem? streams i ≡ some s
      → s.active ≡ true
      → suc (count (set streams i (ended s))) ≡ count streams
  unfolding count
  count-set-ended [] i s e a = absurd (none-ne-some _ e)
  count-set-ended (x ∷ xs) zero s e a =
      let same = ap (λ t. t.active) (some-injective _ _ e) ∙ a in ground arith
  count-set-ended (x ∷ xs) (suc i) s e a = elim (Bool-cases x.active) [
    | inl q ↦ ground (arith, count-set-ended xs i s e a)
    | inr q ↦ ground (arith, count-set-ended xs i s e a)
  ]

module _ {ℓ} {A : Type ℓ} where
  pub get_elem?-set_ne :
      (xs : List A) (i j : ℕ) (v : A) → i ≢ j → get_elem? (set xs i v) j ≡ get_elem? xs j
  get_elem?-set_ne [] i j v h = refl
  get_elem?-set_ne (x ∷ xs) zero zero v h = absurd (h refl)
  get_elem?-set_ne (x ∷ xs) zero (suc j) v h = refl
  get_elem?-set_ne (x ∷ xs) (suc i) zero v h = refl
  get_elem?-set_ne (x ∷ xs) (suc i) (suc j) v h = get_elem?-set_ne xs i j v (λ e. h (ap suc e))

  pub get_elem?-set_self :
      (xs : List A) (i : ℕ) (v w : A) → get_elem? (set xs i v) i ≡ some w → v ≡ w
  get_elem?-set_self [] i v w e = absurd (none-ne-some _ e)
  get_elem?-set_self (x ∷ xs) zero v w e = some-injective _ _ e
  get_elem?-set_self (x ∷ xs) (suc i) v w e = get_elem?-set_self xs i v w e

module _ {F D : Type 0} where
  -- No entry below `i` is active.
  unfoldable pub Clear : ℕ → List (Stream F D) → Type 0
  Clear i streams =
      (j : ℕ) (s : Stream F D) → j < i → get_elem? streams j ≡ some s → s.active ≡ false

  pub count-Clear :
      (streams : List (Stream F D)) → Clear (length streams) streams → count streams ≡ 0
  unfolding count Clear
  count-Clear [] h = refl
  count-Clear (x ∷ xs) h =
      rw (h 0 x (omega arith) refl) (count-Clear xs (λ j s p e. h (suc j) s (omega arith) e))

  pub find_none :
      (streams : List (Stream F D)) (client : ℕ)
      → count streams ≡ 0
      → find_among streams client ≡ none
  unfolding count find_among
  find_none [] client e = refl
  find_none (x ∷ xs) client e = elim (Bool-cases x.active) [
    | inl q ↦ absurd (ground arith)
    | inr q ↦ rw (q, find_none xs client (ground arith)) refl
  ]
