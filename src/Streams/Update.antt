-- ===== src/Streams/Update.antt =====
-- An entry of the table of core/src/audio_engine.c that is written back.
use mathlib.Core.Option.{some-injective, none-ne-some}
use audio_project.Base.{
  refl, true, inl, inr, Bool-cases, ◌≢◌, Option-cases, ℕ, zero, suc, List, [], ◌∷◌, some, ◌≡◌, sym,
  ap, ◌∙◌, set, length-set, get_elem?, if◌then◌else◌,
}
use audio_project.Streams.{Stream, Engine, destroy_stream, ended}
use audio_project.Streams.Search.{count, get_elem?-set_ne}
use audio_project.Streams.Count.{IsValid}

pub get_elem?-set_at {ℓ} :
    {A : Type ℓ} (xs : List A) (i : ℕ) (v x : A)
    → get_elem? xs i ≡ some x
    → get_elem? (set xs i v) i ≡ some v
get_elem?-set_at [] i v x h = absurd (none-ne-some _ h)
get_elem?-set_at (y ∷ xs) zero v x h = refl
get_elem?-set_at (y ∷ xs) (suc i) v x h = get_elem?-set_at xs i v x h

module _ {F D : Type 0} where
  count-set_same :
      (streams : List (Stream F D)) (i : ℕ) (s s' : Stream F D)
      → get_elem? streams i ≡ some s
      → s'.active ≡ s.active
      → count (set streams i s') ≡ count streams
  unfolding count
  count-set_same [] i s s' e a = absurd (none-ne-some _ e)
  count-set_same (x ∷ xs) zero s s' e a =
      let same : s'.active ≡ x.active = a ∙ ap (λ t. t.active) (sym (some-injective _ _ e)) in
      ap (λ b. if b then suc (count xs) else count xs) same
  count-set_same (x ∷ xs) (suc i) s s' e a =
      ap (λ n. if x.active then suc n else n) (count-set_same xs i s s' e a)

  -- The table stays valid where the entry stays active, or stays unused.
  pub updated-IsValid :
      (e : Engine F D) (i : ℕ) (s s' : Stream F D)
      → get_elem? e.streams i ≡ some s
      → s'.active ≡ s.active
      → IsValid e
      → IsValid (record e { streams = set e.streams i s' })
  updated-IsValid e i s s' found same v = record {
    room = length-set e.streams i s' ∙ v.room;
    counted = v.counted ∙ sym (count-set_same e.streams i s s' found same);
    published = v.published;
  }

  -- The entry of a stream that is destroyed, and those of the others.
  pub destroyed_at :
      (e : Engine F D) (i : ℕ) (s : Stream F D)
      → get_elem? e.streams i ≡ some s
      → s.active ≡ true
      → get_elem? ((destroy_stream e (some i)).streams) i ≡ some (ended s)
  unfolding destroy_stream
  destroyed_at e i s found on =
      rw (destroy_stream, found, on) (get_elem?-set_at e.streams i (ended s) s found)

  pub destroyed_other :
      (e : Engine F D) (i j : ℕ)
      → i ≢ j
      → get_elem? ((destroy_stream e (some i)).streams) j ≡ get_elem? e.streams j
  unfolding destroy_stream
  destroyed_other e i j other = elim (Option-cases (get_elem? e.streams i)) [
    | inl q ↦ rw (destroy_stream, q) refl
    | inr (s, q) ↦ elim (Bool-cases s.active) [
      | inl a ↦ rw (destroy_stream, q, a) (get_elem?-set_ne e.streams i j (ended s) other)
      | inr a ↦ rw (destroy_stream, q, a) refl
    ]
  ]
