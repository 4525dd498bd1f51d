-- ===== src/Streams/Count.antt =====
-- The table of streams of core/src/audio_engine.c keeps its count, and is a map from clients to slots.
use native.Mathlib.Decide.{ℕ_discrete}
use native.Mathlib.Nat.{add-zero}
use mathlib.Core.Path.{subst}
use mathlib.Core.Option.{some-injective, none-ne-some}
use audio_project.Base.{
  ℕ, zero, suc, ◌+◌, ◌≡◌, ◌≢◌, ◌⊎◌, refl, sym, ap, ◌∙◌, arith, length, length-set, Option, none,
  some, Bool, true, ◌==◌, if◌then◌else◌, get_elem?, set, Option-cases, Bool-cases, inl, inr,
}
use audio_project.Float.{Floats}
use audio_project.Streams.{
  Stream, Engine, find_among, find_stream, free_slot, destroy_stream, destroy_from, destroy_all,
  create_stream, new_stream, ended,
}
use audio_project.Streams.Search.{
  count, count-set_free, find-set_free, find-set_other, count_full, count-set-ended,
  get_elem?-set_ne, get_elem?-set_self, Clear, count-Clear, find_none,
}

-- 64 entries, and both counts say how many are active.
pub record IsValid {F D : Type 0} (e : Engine F D) : Type 0 where
  pub room : length e.streams ≡ 64
  pub counted : e.stream_count ≡ count e.streams
  pub published : e.active_streams ≡ e.stream_count

module _ {F D : Type 0} where
  pub destroy_stream-IsValid :
      (e : Engine F D) (i : ℕ) → IsValid e → IsValid (destroy_stream e (some i))
  unfolding destroy_stream
  destroy_stream-IsValid e i v = elim (Option-cases (get_elem? e.streams i)) [
    | inl q ↦ rw (destroy_stream, q) v
    | inr (s, q) ↦ elim (Bool-cases s.active) [
      | inl a ↦
          rw (destroy_stream, q, a)
            (record {
              room = length-set e.streams i (ended s) ∙ v.room;
              counted = omega (arith, v.counted, count-set-ended e.streams i s q a);
              published = refl;
            })
      | inr a ↦ rw (destroy_stream, q, a) v
    ]
  ]

  destroy_stream-Clear :
      (e : Engine F D) (i : ℕ)
      → Clear i e.streams
      → Clear (i + 1) ((destroy_stream e (some i)).streams)
  unfolding destroy_stream Clear
  destroy_stream-Clear e i h = elim (Option-cases (get_elem? e.streams i)) [
    | inl q ↦
        rw (destroy_stream, q)
          (λ j s p t. elim (ℕ_discrete i j) [
            | yes same ↦ absurd (none-ne-some _ (sym q ∙ ap (get_elem? e.streams) same ∙ t))
            | no other ↦ h j s (omega (arith, other)) t
          ])
    | inr (x, q) ↦ elim (Bool-cases x.active) [
      | inl a ↦
          rw (destroy_stream, q, a)
            (λ j s p t. elim (ℕ_discrete i j) [
              | yes same ↦ sym (
                  ap (λ r. r.active)
                    (get_elem?-set_self e.streams i (ended x) s
                      (ap (get_elem? (set e.streams i (ended x))) same ∙ t)))
              | no other ↦
                  h j s (omega (arith, other))
                    (sym (get_elem?-set_ne e.streams i j (ended x) other) ∙ t)
            ])
      | inr a ↦
          rw (destroy_stream, q, a)
            (λ j s p t. elim (ℕ_discrete i j) [
              | yes same ↦
                  ap (λ r. r.active)
                    (some-injective _ _ (sym t ∙ sym (ap (get_elem? e.streams) same) ∙ q))
                  ∙ a
              | no other ↦ h j s (omega (arith, other)) t
            ])
    ]
  ]

  destroy_from-Clear :
      (left i : ℕ) (e : Engine F D)
      → IsValid e
      → Clear i e.streams
      → IsValid (destroy_from left i e) × Clear (i + left) ((destroy_from left i e).streams)
  unfolding destroy_from
  destroy_from-Clear zero i e v h = (v, subst (λ t. Clear t e.streams) (sym (add-zero i)) h)
  destroy_from-Clear (suc left) i e v h =
      let sum : i + 1 + left ≡ i + suc left = omega arith in
      let (valid, clear) =
        destroy_from-Clear left (i + 1) (destroy_stream e (some i)) (destroy_stream-IsValid e i v)
          (destroy_stream-Clear e i h) in
      (
        valid,
        subst (λ t. Clear t ((destroy_from left (i + 1) (destroy_stream e (some i))).streams)) sum
            clear,
      )

  -- The loop over the table ends every stream: the table stays valid, its count is 0, and no client is found.
  pub destroy_all_lem :
      (e : Engine F D)
      → IsValid e
      → IsValid (destroy_all e)
        × ((destroy_all e).stream_count ≡ 0)
        × ((client : ℕ) → find_stream (destroy_all e) client ≡ none)
  unfolding destroy_all find_stream Clear
  destroy_all_lem e v =
      let (valid, clear) = destroy_from-Clear 64 0 e v (λ j s p t. absurd (omega arith)) in
      let none_left : count ((destroy_from 64 0 e).streams) ≡ 0 =
        count-Clear _ (λ j s p t. clear j s (omega (arith, valid.room)) t) in
      (valid, valid.counted ∙ none_left, λ client. find_none _ client none_left)

module _ (floats : Floats) {D : Type 0} where
  open floats use {F}

  -- What `create_stream` returns and leaves: a slot where the client is found, with every other client
  -- where it was, or NULL with nothing changed.
  abbrev pub Created : Engine F D → ℕ → Option ℕ → Engine F D → Type 0
  Created e client slot e' =
      IsValid e'
      × (((i : ℕ) × (slot ≡ some i)
            × (client ≢ e.client_id)
            × ((c : ℕ) → find_stream e' c ≡ (if client == c then some i else find_stream e c)))
          ⊎ (slot ≡ none)
            × (e' ≡ e)
            × ((client ≡ e.client_id) ⊎ (e.stream_count ≡ 64) × (find_stream e client ≡ none)))

  found_there :
      (e : Engine F D) (client i c : ℕ)
      → find_stream e client ≡ some i
      → find_stream e c ≡ (if client == c then some i else find_stream e c)
  found_there e client i c q = elim (ℕ_discrete client c) [
    | yes same ↦ ap (find_stream e) (sym same) ∙ q ∙ ground arith
    | no other ↦ ground arith
  ]

  -- The engine with a stream put into slot `i`.
  filled : Engine F D → ℕ → Stream F D → Engine F D
  filled e i s = record e {
    streams = set e.streams i s;
    stream_count = e.stream_count + 1;
    active_streams = e.stream_count + 1;
  }

  filled-Created :
      (e : Engine F D) (client i : ℕ) (s : Stream F D)
      → IsValid e
      → client ≢ e.client_id
      → find_stream e client ≡ none
      → free_slot e.streams ≡ some i
      → s.active ≡ true
      → s.client_id ≡ client
      → Created e client (some i) (filled e i s)
  unfolding filled find_stream
  filled-Created e client i s v own new free a id = (
    record {
      room = length-set e.streams i s ∙ v.room;
      counted = omega (arith, v.counted, count-set_free e.streams i s free a);
      published = refl;
    },
    inl (
      i,
      refl,
      own,
      λ c. elim (ℕ_discrete client c) [
        | yes same ↦
            ap (find_among (set e.streams i s)) (sym same)
            ∙ find-set_free e.streams i client s free a id new
            ∙ ground arith
        | no other ↦ find-set_other e.streams i c s free (λ q. other (sym id ∙ q)) ∙ ground arith
      ],
    ),
  )

  new_stream_lem :
      (e : Engine F D) (client now : ℕ) (decoder : Option D) (memory : Bool)
      → ((new_stream floats e client now decoder memory).active ≡ true)
        × ((new_stream floats e client now decoder memory).client_id ≡ client)
  unfolding new_stream
  new_stream_lem e client now decoder memory = (refl, refl)

  -- On a valid table `create_stream` gives a slot, or NULL. With a slot the client is another one than
  -- this engine's, it is found at that slot, and every other client is found where it was. NULL is for
  -- this engine's own client, and for a new one while all 64 entries are active; then nothing changes.
  -- The table stays valid, so its count goes up exactly where a stream was added.
  pub create_stream_refines :
      (e e' : Engine F D) (client now : ℕ) (decoder : Option D) (memory : Bool) (slot : Option ℕ)
      → IsValid e
      → create_stream floats e client now decoder memory ≡ (slot, e')
      → Created e client slot e'
  unfolding filled create_stream
  create_stream_refines e e' client now decoder memory slot v h =
      elim (Bool-cases (client == e.client_id)) [
        | inl q ↦
            let result : create_stream floats e client now decoder memory ≡ (none, e) =
              rw (create_stream, q) refl in
            subst (λ p. Created e client p.0 p.1) (sym result ∙ h)
              (v, inr (refl, refl, inl (ground arith)))
        | inr q ↦ elim (Option-cases (find_stream e client)) [
          | inr (i, r) ↦
              let result : create_stream floats e client now decoder memory ≡ (some i, e) =
                rw (create_stream, q, r) refl in
              subst (λ p. Created e client p.0 p.1) (sym result ∙ h)
                (v, inl (i, refl, ground arith, λ c. found_there e client i c r))
          | inl r ↦ elim (Option-cases (free_slot e.streams)) [
            | inl t ↦
                let result : create_stream floats e client now decoder memory ≡ (none, e) =
                  rw (create_stream, q, r, t) refl in
                subst (λ p. Created e client p.0 p.1) (sym result ∙ h)
                  (v, inr (refl, refl, inr (v.counted ∙ count_full e.streams t ∙ v.room, r)))
            | inr (i, t) ↦
                let new = new_stream floats e client now decoder memory in
                let (active, id) = new_stream_lem e client now decoder memory in
                let result : create_stream floats e client now decoder memory
                    ≡ (some i, filled e i new) =
                  rw (create_stream, q, r, t) refl in
                subst (λ p. Created e client p.0 p.1) (sym result ∙ h)
                  (filled-Created e client i new v (ground arith) r t active id)
          ]
        ]
      ]
