-- ===== src/Network/Strings.antt =====
-- `strncpy` and `memcpy` into the arrays of core/src/network.c.
use audio_project.Base.{
  ℕ, zero, suc, ◌+◌, ◌≤◌, List, [], ◌∷◌, ◌++◌, length, take, drop, replicate, overlay, get_elem?,
  ◌≡◌, refl, ap, ◌∙◌, arith, length-append, length-take, length-replicate,
}
use audio_project.Network.{strncpy}

pub length-overlay : (dst : List ℕ) (xs : List ℕ) → length (overlay dst 0 xs) ≡ length dst
length-overlay dst [] = refl
length-overlay [] (x ∷ xs) = refl
length-overlay (y ∷ dst) (x ∷ xs) = ap suc (length-overlay dst xs)

get_elem?-behind :
    (xs ys : List ℕ) (i : ℕ) → length xs ≡ i → get_elem? (xs ++ ys) i ≡ get_elem? ys 0
get_elem?-behind [] [] zero h = refl
get_elem?-behind [] (y ∷ ys) zero h = refl
get_elem?-behind [] ys (suc i) h = absurd (omega arith)
get_elem?-behind (x ∷ xs) ys zero h = absurd (omega arith)
get_elem?-behind (x ∷ xs) ys (suc i) h = get_elem?-behind xs ys i (omega (arith, h))

get_elem?-drop : (xs : List ℕ) (n : ℕ) → get_elem? (drop n xs) 0 ≡ get_elem? xs n
get_elem?-drop [] zero = refl
get_elem?-drop (x ∷ xs) zero = refl
get_elem?-drop [] (suc n) = refl
get_elem?-drop (x ∷ xs) (suc n) = get_elem?-drop xs n

length-copied : (src : List ℕ) (n : ℕ) → length (take n (src ++ replicate n 0)) ≡ n
length-copied src n = omega (
  arith,
  length-take n (src ++ replicate n 0),
  length-append src (replicate n 0),
  length-replicate {A = ℕ} n 0,
)

length-drop : (n : ℕ) (xs : List ℕ) → n ≤ length xs → n + length (drop n xs) ≡ length xs
length-drop zero xs h = omega arith
length-drop (suc n) [] h = absurd (omega arith)
length-drop (suc n) (x ∷ xs) h = omega (arith, length-drop n xs (omega arith))

pub length-strncpy :
    (dst src : List ℕ) (n : ℕ) → n ≤ length dst → length (strncpy dst src n) ≡ length dst
length-strncpy dst src n h = omega (
  arith,
  length-append (take n (src ++ replicate n 0)) (drop n dst),
  length-copied src n,
  length-drop n dst h,
)

pub strncpy_behind : (dst src : List ℕ) (n : ℕ) → get_elem? (strncpy dst src n) n ≡ get_elem? dst n
strncpy_behind dst src n =
    get_elem?-behind (take n (src ++ replicate n 0)) (drop n dst) n (length-copied src n)
    ∙ get_elem?-drop dst n
