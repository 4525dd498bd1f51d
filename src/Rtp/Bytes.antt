-- ===== src/Rtp/Bytes.antt =====
-- The byte order helpers of core/src/rtp.c. What a `write` stores is the list of its bytes; a `read`
-- is `none` where a byte lies outside the buffer. A shifted byte fits the type that it is cast to.
use audio_project.Base.{
  ℕ, ◌+◌, ◌*◌, ◌/◌, ◌%◌, ◌^◌, ◌<◌, bit_or, List, [], ◌∷◌, Option, some, get_elem?, ◌>>=◌, ◌≡◌,
  arith,
}
use audio_project.Bits.Mask.{bit_or_fields}

-- The byte of `v` from bit `8 * k` on.
abbrev pub byte : ℕ → ℕ → ℕ
byte k v = v / 2 ^ (8 * k) % 2 ^ 8

abbrev pub u16_be : ℕ → List ℕ
u16_be v = byte 1 v ∷ byte 0 v ∷ []

abbrev pub u32_be : ℕ → List ℕ
u32_be v = byte 3 v ∷ byte 2 v ∷ byte 1 v ∷ byte 0 v ∷ []

abbrev pub u64_be : ℕ → List ℕ
u64_be v =
    byte 7 v ∷ byte 6 v ∷ byte 5 v ∷ byte 4 v ∷ byte 3 v ∷ byte 2 v ∷ byte 1 v ∷ byte 0 v ∷ []

-- The bytes put together, most significant first.
pub join_u16 : ℕ → ℕ → ℕ
join_u16 a b = bit_or (a * 2 ^ 8) b

pub join_u32 : ℕ → ℕ → ℕ → ℕ → ℕ
join_u32 a b c d = bit_or (bit_or (bit_or (a * 2 ^ 24) (b * 2 ^ 16)) (c * 2 ^ 8)) d

pub join_u64 : ℕ → ℕ → ℕ → ℕ → ℕ → ℕ → ℕ → ℕ → ℕ
join_u64 a b c d e f g h =
    bit_or
      (bit_or
        (bit_or
          (bit_or (bit_or (bit_or (bit_or (a * 2 ^ 56) (b * 2 ^ 48)) (c * 2 ^ 40)) (d * 2 ^ 32))
            (e * 2 ^ 24))
          (f * 2 ^ 16))
        (g * 2 ^ 8))
      h

unfoldable pub read_u16_be : List ℕ → ℕ → Option ℕ
read_u16_be p off = do a ← get_elem? p off; b ← get_elem? p (off + 1); some (join_u16 a b)

unfoldable pub read_u32_be : List ℕ → ℕ → Option ℕ
read_u32_be p off = do
  a ← get_elem? p off
  b ← get_elem? p (off + 1)
  c ← get_elem? p (off + 2)
  d ← get_elem? p (off + 3)
  some (join_u32 a b c d)

unfoldable pub read_u64_be : List ℕ → ℕ → Option ℕ
read_u64_be p off = do
  a ← get_elem? p off
  b ← get_elem? p (off + 1)
  c ← get_elem? p (off + 2)
  d ← get_elem? p (off + 3)
  e ← get_elem? p (off + 4)
  f ← get_elem? p (off + 5)
  g ← get_elem? p (off + 6)
  h ← get_elem? p (off + 7)
  some (join_u64 a b c d e f g h)

-- A byte below the bits that are there is added to them.
or_low : (k y q r : ℕ) → y ≡ q * 2 ^ k → r < 2 ^ k → bit_or y r ≡ y + r
or_low k y q r e h = rw e (bit_or_fields k q r h)

join_u16_sum : (a b : ℕ) → b < 256 → join_u16 a b ≡ a * 2 ^ 8 + b
unfolding join_u16
join_u16_sum a b hb = bit_or_fields 8 a b hb

join_u32_sum :
    (a b c d : ℕ)
    → b < 256
    → c < 256
    → d < 256
    → join_u32 a b c d ≡ a * 2 ^ 24 + b * 2 ^ 16 + c * 2 ^ 8 + d
unfolding join_u32
join_u32_sum a b c d hb hc hd =
    let e1 = bit_or_fields 24 a (b * 2 ^ 16) (omega arith) in
    let e2 =
      or_low 16 (bit_or (a * 2 ^ 24) (b * 2 ^ 16)) (a * 2 ^ 8 + b) (c * 2 ^ 8) (omega arith)
        (omega arith) in
    let e3 =
      or_low 8 (bit_or (bit_or (a * 2 ^ 24) (b * 2 ^ 16)) (c * 2 ^ 8)) (a * 2 ^ 16 + b * 2 ^ 8 + c)
        d (omega arith) (omega arith) in
    omega arith

join_u64_halves :
    (a b c d e f g h : ℕ)
    → b < 256
    → c < 256
    → d < 256
    → e < 256
    → f < 256
    → g < 256
    → h < 256
    → join_u64 a b c d e f g h
      ≡ (a * 2 ^ 24 + b * 2 ^ 16 + c * 2 ^ 8 + d) * 2 ^ 32
        + (e * 2 ^ 24 + f * 2 ^ 16 + g * 2 ^ 8 + h)
unfolding join_u64
join_u64_halves a b c d e f g h hb hc hd he hf hg hh =
    let y1 = bit_or (a * 2 ^ 56) (b * 2 ^ 48) in
    let e1 = bit_or_fields 56 a (b * 2 ^ 48) (omega arith) in
    let e2 = or_low 48 y1 (a * 2 ^ 8 + b) (c * 2 ^ 40) (omega arith) (omega arith) in
    let y2 = bit_or y1 (c * 2 ^ 40) in
    let e3 = or_low 40 y2 (a * 2 ^ 16 + b * 2 ^ 8 + c) (d * 2 ^ 32) (omega arith) (omega arith) in
    let y3 = bit_or y2 (d * 2 ^ 32) in
    let top = a * 2 ^ 24 + b * 2 ^ 16 + c * 2 ^ 8 + d in
    let e4 = or_low 32 y3 top (e * 2 ^ 24) (omega arith) (omega arith) in
    let y4 = bit_or y3 (e * 2 ^ 24) in
    let e5 = or_low 24 y4 (top * 2 ^ 8 + e) (f * 2 ^ 16) (omega arith) (omega arith) in
    let y5 = bit_or y4 (f * 2 ^ 16) in
    let e6 = or_low 16 y5 (top * 2 ^ 16 + e * 2 ^ 8 + f) (g * 2 ^ 8) (omega arith) (omega arith) in
    let y6 = bit_or y5 (g * 2 ^ 8) in
    let e7 =
      or_low 8 y6 (top * 2 ^ 24 + e * 2 ^ 16 + f * 2 ^ 8 + g) h (omega arith) (omega arith) in
    omega arith

-- The bytes of a value that fits its width put it together again.
pub join-u16_be : (v : ℕ) → v < 2 ^ 16 → join_u16 (byte 1 v) (byte 0 v) ≡ v
join-u16_be v h = omega (arith, join_u16_sum (byte 1 v) (byte 0 v) (omega arith))

pub join-u32_be : (v : ℕ) → v < 2 ^ 32 → join_u32 (byte 3 v) (byte 2 v) (byte 1 v) (byte 0 v) ≡ v
join-u32_be v h = omega (
  arith,
  join_u32_sum (byte 3 v) (byte 2 v) (byte 1 v) (byte 0 v) (omega arith) (omega arith)
      (omega arith),
)

pub join-u64_be :
    (v : ℕ)
    → v < 2 ^ 64
    → join_u64
        (byte 7 v)
        (byte 6 v)
        (byte 5 v)
        (byte 4 v)
        (byte 3 v)
        (byte 2 v)
        (byte 1 v)
        (byte 0 v)
      ≡ v
join-u64_be v h = omega (
  arith,
  join_u64_halves (byte 7 v) (byte 6 v) (byte 5 v) (byte 4 v) (byte 3 v) (byte 2 v) (byte 1 v)
      (byte 0 v) (omega arith) (omega arith) (omega arith) (omega arith) (omega arith) (omega arith)
      (omega arith),
)
