-- ===== src/Crypto/Stream.antt =====
-- `xor_stream` of core/src/crypto.c, and the comparison of tags.
use audio_project.Base.{
  ℕ, zero, suc, ◌+◌, ◌%◌, ◌<◌, bit_xor, bit_or, List, [], ◌∷◌, ◌≡◌, refl, sym, ap, ap₂, ◌∙◌, arith,
  length, get_or, set,
}
use audio_project.Bits.Xor.{bit_xor_cancel, bit_xor_right_injective}
use audio_project.Bits.Zero.{bit_xor_self, bit_xor_eq_zero, bit_or_eq_zero}
use audio_project.Crypto.{xor_from, xor_stream, differences}

xor_from_twice :
    (stream : List ℕ) (i : ℕ) (bytes : List ℕ) → xor_from stream i (xor_from stream i bytes) ≡ bytes
unfolding xor_from
xor_from_twice stream i [] = refl
xor_from_twice stream i (b ∷ bytes) =
    ap₂ ◌∷◌ (bit_xor_cancel b (get_or stream (i % 32) 0)) (xor_from_twice stream (i + 1) bytes)

-- The stream applied twice gives the bytes back.
pub xor_stream_twice :
    (key nonce bytes : List ℕ) → xor_stream key nonce (xor_stream key nonce bytes) ≡ bytes
unfolding xor_stream
xor_stream_twice key nonce bytes = xor_from_twice _ 0 bytes

length-xor_from :
    (stream : List ℕ) (i : ℕ) (bytes : List ℕ) → length (xor_from stream i bytes) ≡ length bytes
unfolding xor_from
length-xor_from stream i [] = refl
length-xor_from stream i (b ∷ bytes) = ap suc (length-xor_from stream (i + 1) bytes)

pub length-xor_stream :
    (key nonce bytes : List ℕ) → length (xor_stream key nonce bytes) ≡ length bytes
unfolding xor_stream
length-xor_stream key nonce bytes = length-xor_from _ 0 bytes

-- Another byte of ciphertext is another byte of plaintext, and changes no other.
xor_from-set :
    (stream : List ℕ) (i j v : ℕ) (bytes : List ℕ)
    → j < length bytes
    → (w : ℕ) × (xor_from stream i (set bytes j v) ≡ set (xor_from stream i bytes) j w)
      × (w ≡ get_or (xor_from stream i bytes) j 0 → v ≡ get_or bytes j 0)
unfolding xor_from
xor_from-set stream i j v [] h = absurd (omega arith)
xor_from-set stream i zero v (b ∷ bytes) h = (
  bit_xor v (get_or stream (i % 32) 0),
  refl,
  bit_xor_right_injective v b (get_or stream (i % 32) 0),
)
xor_from-set stream i (suc j) v (b ∷ bytes) h =
    let (w, e, back) = xor_from-set stream (i + 1) j v bytes (omega arith) in
    (w, ap (◌∷◌ (bit_xor b (get_or stream (i % 32) 0))) e, back)

pub xor_stream-set :
    (key nonce bytes : List ℕ) (j v : ℕ)
    → j < length bytes
    → (w : ℕ) × (xor_stream key nonce (set bytes j v) ≡ set (xor_stream key nonce bytes) j w)
      × (w ≡ get_or (xor_stream key nonce bytes) j 0 → v ≡ get_or bytes j 0)
unfolding xor_stream
xor_stream-set key nonce bytes j v h = xor_from-set _ 0 j v bytes h

differences_same : (xs : List ℕ) → differences 0 xs xs ≡ 0
unfolding differences
differences_same [] = refl
differences_same (x ∷ xs) =
    ap (λ t. differences (bit_or 0 t) xs xs) (bit_xor_self x) ∙ differences_same xs

differences_none :
    (diff : ℕ) (xs ys : List ℕ)
    → length xs ≡ length ys
    → differences diff xs ys ≡ 0
    → (diff ≡ 0) × (xs ≡ ys)
unfolding differences
differences_none diff [] [] h e = (e, refl)
differences_none diff [] (y ∷ ys) h e = absurd (omega arith)
differences_none diff (x ∷ xs) [] h e = absurd (omega arith)
differences_none diff (x ∷ xs) (y ∷ ys) h e =
    let (now, rest) = differences_none (bit_or diff (bit_xor x y)) xs ys (omega arith) e in
    let both = bit_or_eq_zero diff (bit_xor x y) now in
    (omega arith, ap₂ ◌∷◌ (bit_xor_eq_zero x y (omega arith)) rest)

-- The comparison finds nothing exactly between equal tags.
pub differences_eq : (xs ys : List ℕ) → xs ≡ ys → differences 0 xs ys ≡ 0
differences_eq xs ys e = ap (differences 0 xs) (sym e) ∙ differences_same xs

pub eq_differences : (xs ys : List ℕ) → length xs ≡ length ys → differences 0 xs ys ≡ 0 → xs ≡ ys
eq_differences xs ys h e = (differences_none 0 xs ys h e).1
