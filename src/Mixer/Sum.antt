-- ===== src/Mixer/Sum.antt =====
-- The loop over the inputs of `ae_mixer_mix` in core/src/mixer.c, one sample at a time.
use native.Mathlib.Decide.{ℕ_discrete}
use audio_project.Base.{
  ℕ, zero, suc, ◌+◌, ◌≤◌, ◌<◌, List, ◌≡◌, ◌≢◌, refl, sym, ap, ◌∙◌, arith, length, get_elem?,
  get_elem?-eq-get_or, get_or, set, get_or-set_ne, get_or-set_self, length-set, Option, none, some,
  lt→ltb,
}
use mathlib.Core.Option.{some-injective, none-ne-some}
use audio_project.Float.{Floats}
use audio_project.Mixer.{clamp, volume_at, mix_input, mix_inputs, add_input}
use audio_project.Mixer.Loop.{gain, length-add_input, get_or-add_input}

module _ (floats : Floats) where
  open floats use {F, zero_f, one_f, add, mul, tanh}

  -- Every input that is there is a whole frame.
  unfoldable pub Whole : List (Option (List F)) → Type 0
  Whole inputs =
      (i : ℕ) (frame : List F) → get_elem? inputs i ≡ some (some frame) → length frame ≡ 1920

  -- The volume asked for input `i`.
  unfoldable pub wanted : Option (List F) → ℕ → F
  wanted none i = one_f
  wanted (some volumes) i = get_or volumes i zero_f

  -- The array of volumes, where there is one, has `n` of them.
  unfoldable pub Covers : Option (List F) → ℕ → Type 0
  Covers volumes n = (i : ℕ) → i < n → volume_at floats volumes i ≡ some (wanted volumes i)

  -- A sample after input `i` was added to it, at position `k` of the frame.
  pub joined : Option (Option (List F)) → F → F → ℕ → F → F
  joined (some (some frame)) from to k x =
      add x (mul (get_or frame k zero_f) (gain floats from to k))
  joined input from to k x = x

  -- The sum of the inputs from `i` on at position `k`, with `left` of them to go.
  pub sum_from : List (Option (List F)) → Option (List F) → List F → ℕ → ℕ → ℕ → F → F
  sum_from inputs volumes prevs zero i k x = x
  sum_from inputs volumes prevs (suc left) i k x =
      sum_from inputs volumes prevs left (i + 1) k
        (joined (get_elem? inputs i) (get_or prevs i zero_f) (clamp floats (wanted volumes i)) k x)

  -- The same for previous volumes that agree from `i` on.
  sum_from-agree :
      (inputs : List (Option (List F))) (volumes : Option (List F)) (prevs prevs' : List F)
      (left i k : ℕ) (x : F)
      → ((j : ℕ) → i ≤ j → get_or prevs j zero_f ≡ get_or prevs' j zero_f)
      → sum_from inputs volumes prevs left i k x ≡ sum_from inputs volumes prevs' left i k x
  unfolding sum_from
  sum_from-agree inputs volumes prevs prevs' zero i k x h = refl
  sum_from-agree inputs volumes prevs prevs' (suc left) i k x h =
      sum_from-agree inputs volumes prevs prevs' left (i + 1) k _ (λ j p. h j (omega arith))
      ∙ ap
          (λ t.
            sum_from inputs volumes prevs' left (i + 1) k
              (joined (get_elem? inputs i) t (clamp floats (wanted volumes i)) k x))
          (h i (omega arith))

  -- One round of the loop over the inputs.
  record Round (inputs : List (Option (List F))) (volumes : Option (List F)) (i : ℕ)
      (prevs output : List F) : Type 0 where
    prevs' : List F
    output' : List F
    step : mix_input floats inputs volumes i (prevs, output) ≡ some (prevs', output')
    room : length prevs' ≡ length prevs
    size : length output' ≡ 1920
    others : (j : ℕ) → i ≢ j → get_or prevs' j zero_f ≡ get_or prevs j zero_f
    moved :
        (frame : List F)
        → get_elem? inputs i ≡ some (some frame)
        → get_or prevs' i zero_f ≡ clamp floats (wanted volumes i)
    sample :
        (k : ℕ)
        → k < 1920
        → get_or output' k zero_f
          ≡ joined
              (get_elem? inputs i)
              (get_or prevs i zero_f)
              (clamp floats (wanted volumes i))
              k
              (get_or output k zero_f)

  round :
      (inputs : List (Option (List F))) (volumes : Option (List F)) (i : ℕ) (prevs output : List F)
      → Whole inputs
      → volume_at floats volumes i ≡ some (wanted volumes i)
      → i < length inputs
      → i < 64
      → length prevs ≡ 64
      → length output ≡ 1920
      → (input : Option (List F)) → get_elem? inputs i ≡ some input
      → Round inputs volumes i prevs output
  unfolding mix_input joined Whole
  round inputs volumes i prevs output whole v h b full size none e = record {
    prevs' = prevs;
    output' = output;
    step = rw (mix_input, e) refl;
    room = refl;
    size = size;
    others = λ j p. refl;
    moved = λ frame q. absurd (none-ne-some _ (some-injective _ _ (sym e ∙ q)));
    sample = λ k p. rw e refl;
  }
  round inputs volumes i prevs output whole v h b full size (some frame) e =
      let from = get_or prevs i zero_f in
      let to = clamp floats (wanted volumes i) in
      record {
        prevs' = set prevs i to;
        output' = add_input floats from to frame output;
        step = rw (mix_input, e, v, lt→ltb i 64 b) refl;
        room = length-set prevs i to;
        size = length-add_input floats from to frame output ∙ size;
        others = λ j p. get_or-set_ne prevs i j to zero_f p;
        moved = λ f q. get_or-set_self prevs i to zero_f (omega arith);
        sample = λ k p. rw e (
            get_or-add_input floats from to k frame output (whole i frame e ∙ sym size)
              (omega arith));
      }

  -- The loop over the inputs, with `left` of them to go.
  pub record Rounds (inputs : List (Option (List F))) (volumes : Option (List F)) (left i : ℕ)
      (prevs output : List F) : Type 0 where
    pub prevs' : List F
    pub output' : List F
    pub steps : mix_inputs floats inputs volumes left i (prevs, output) ≡ some (prevs', output')
    pub room : length prevs' ≡ length prevs
    pub size : length output' ≡ 1920
    pub earlier : (j : ℕ) → j < i → get_or prevs' j zero_f ≡ get_or prevs j zero_f
    pub moved :
        (j : ℕ) (frame : List F)
        → i ≤ j
        → j < i + left
        → get_elem? inputs j ≡ some (some frame)
        → get_or prevs' j zero_f ≡ clamp floats (wanted volumes j)
    pub sample :
        (k : ℕ)
        → k < 1920
        → get_or output' k zero_f ≡ sum_from inputs volumes prevs left i k (get_or output k zero_f)

  pub rounds :
      (inputs : List (Option (List F))) (volumes : Option (List F)) (left i : ℕ)
      (prevs output : List F)
      → Whole inputs
      → ((j : ℕ) → j < i + left → volume_at floats volumes j ≡ some (wanted volumes j))
      → i + left ≤ length inputs
      → i + left ≤ 64
      → length prevs ≡ 64
      → length output ≡ 1920
      → Rounds inputs volumes left i prevs output
  unfolding mix_inputs sum_from
  rounds inputs volumes zero i prevs output whole v h b full size = record {
    prevs' = prevs;
    output' = output;
    steps = refl;
    room = refl;
    size = size;
    earlier = λ j p. refl;
    moved = λ j frame p q e. absurd (omega arith);
    sample = λ k p. refl;
  }
  rounds inputs volumes (suc left) i prevs output whole v h b full size =
      let now =
        round inputs volumes i prevs output whole (v i (omega arith)) (omega arith) (omega arith)
          full size (get_or inputs i none) (get_elem?-eq-get_or inputs i none (omega arith)) in
      let rest =
        rounds inputs volumes left (i + 1) now.prevs' now.output' whole (λ j p. v j (omega arith))
          (omega arith) (omega arith) (now.room ∙ full) now.size in
      record {
        prevs' = rest.prevs';
        output' = rest.output';
        steps = rw now.step rest.steps;
        room = rest.room ∙ now.room;
        size = rest.size;
        earlier = λ j p. rest.earlier j (omega arith) ∙ now.others j (λ q. absurd (omega arith));
        moved = λ j frame p q e. elim (ℕ_discrete i j) [
          | yes same ↦
              rest.earlier j (omega arith)
              ∙ ap (λ t. get_or now.prevs' t zero_f) (sym same)
              ∙ now.moved frame (ap (get_elem? inputs) same ∙ e)
              ∙ ap (λ t. clamp floats (wanted volumes t)) same
          | no other ↦ rest.moved j frame (omega (arith, other)) (omega arith) e
        ];
        sample = λ k p.
            rest.sample k p
            ∙ sum_from-agree inputs volumes now.prevs' prevs left (i + 1) k _
                (λ j q. now.others j (λ r. absurd (omega arith)))
            ∙ ap (sum_from inputs volumes prevs left (i + 1) k) (now.sample k p);
      }
