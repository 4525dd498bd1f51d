-- ===== src/Base/Parts.antt =====
-- Accesses to an array that is put together of parts, at the offset where a part starts.
use Prim.Native.Nat.{ℕ, zero, suc, ◌+◌, ◌≤◌, ◌<◌}
use mathlib.Core.Path.{◌≡◌, refl, ap, ◌∙◌}
use mathlib.Core.List.{List, [], ◌∷◌, ◌++◌}
use mathlib.Core.Option.{some}
use native.Mathlib.Omega.{arith}
use native.Mathlib.Nat.{zero-add}
use audio_project.Base.Lists.{get_or, set, length, take, drop}
use audio_project.Base.Memory.{read_at, write_at, write_at-append}

module _ {ℓ} {A : Type ℓ} where
  -- The same at the offset where the rest starts, however it is written.
  pub write_behind :
      (pre rest xs : List A) (off : ℕ)
      → off ≡ length pre
      → length xs ≤ length rest
      → write_at (pre ++ rest) off xs ≡ some ((pre ++ xs) ++ drop (length xs) rest)
  write_behind pre rest xs off e h =
      ap (λ t. write_at (pre ++ rest) t xs) e ∙ write_at-append pre rest xs h

  read_front : (mid post : List A) (n : ℕ) → n ≡ length mid → read_at (mid ++ post) 0 n ≡ some mid
  unfolding read_at
  read_front [] post zero e = refl
  read_front [] post (suc n) e = absurd (omega arith)
  read_front (x ∷ mid) post zero e = absurd (omega arith)
  read_front (x ∷ mid) post (suc n) e = rw (read_front mid post n (omega arith)) refl

  -- A read behind a part of the array gives the next part.
  pub read_behind :
      (pre mid post : List A) (off n : ℕ)
      → off ≡ length pre
      → n ≡ length mid
      → read_at (pre ++ (mid ++ post)) off n ≡ some mid
  unfolding read_at
  read_behind [] mid post zero n e h = read_front mid post n h
  read_behind [] mid post (suc off) n e h = absurd (omega arith)
  read_behind (p ∷ pre) mid post zero n e h = absurd (omega arith)
  read_behind (p ∷ pre) [] post (suc off) zero e h = refl
  read_behind (p ∷ pre) (x ∷ mid) post (suc off) zero e h = absurd (omega arith)
  read_behind (p ∷ pre) mid post (suc off) (suc n) e h =
      read_behind pre mid post off (suc n) (omega arith) h

  pub set_behind :
      (pre rest : List A) (off j : ℕ) (v : A)
      → off ≡ length pre + j
      → set (pre ++ rest) off v ≡ pre ++ set rest j v
  set_behind [] rest off j v e = ap (λ t. set rest t v) (e ∙ zero-add j)
  set_behind (p ∷ pre) rest zero j v e = absurd (omega arith)
  set_behind (p ∷ pre) rest (suc off) j v e = ap (◌∷◌ p) (set_behind pre rest off j v (omega arith))

  pub set_front :
      (mid post : List A) (j : ℕ) (v : A)
      → j < length mid
      → set (mid ++ post) j v ≡ set mid j v ++ post
  set_front [] post j v h = absurd (omega arith)
  set_front (x ∷ mid) post zero v h = refl
  set_front (x ∷ mid) post (suc j) v h = ap (◌∷◌ x) (set_front mid post j v (omega arith))

  pub drop_behind : (pre rest : List A) (n : ℕ) → n ≡ length pre → drop n (pre ++ rest) ≡ rest
  drop_behind [] rest zero e = refl
  drop_behind [] rest (suc n) e = absurd (omega arith)
  drop_behind (p ∷ pre) rest zero e = absurd (omega arith)
  drop_behind (p ∷ pre) rest (suc n) e = drop_behind pre rest n (omega arith)

  pub set_same :
      (xs : List A) (j : ℕ) (v d : A) → j < length xs → v ≡ get_or xs j d → set xs j v ≡ xs
  set_same [] j v d h e = absurd (omega arith)
  set_same (x ∷ xs) zero v d h e = ap (λ t. t ∷ xs) e
  set_same (x ∷ xs) (suc j) v d h e = ap (◌∷◌ x) (set_same xs j v d (omega arith) e)

  pub drop_all : (n : ℕ) (xs : List A) → length xs ≤ n → drop n xs ≡ []
  drop_all zero [] h = refl
  drop_all zero (x ∷ xs) h = absurd (omega arith)
  drop_all (suc n) [] h = refl
  drop_all (suc n) (x ∷ xs) h = drop_all n xs (omega arith)

  pub take_behind : (pre rest : List A) (n : ℕ) → n ≡ length pre → take n (pre ++ rest) ≡ pre
  take_behind [] rest zero e = refl
  take_behind [] rest (suc n) e = absurd (omega arith)
  take_behind (p ∷ pre) rest zero e = absurd (omega arith)
  take_behind (p ∷ pre) rest (suc n) e = ap (◌∷◌ p) (take_behind pre rest n (omega arith))
