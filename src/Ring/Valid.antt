-- ===== src/Ring/Valid.antt =====
-- When a ring is well formed, and what its positions say of it.
use mathlib.Core.Path.{subst}
use Prim.Native.Nat.{◌∣◌}
use native.Mathlib.Nat.{
  pow-suc, one-le-pow, mod-eq_of_lt, mod-eq-sub-mod, mod-lt, mod-mod_of_dvd, dvd-mul_left,
  add-mod-mod, add-mod_right, pow-le-pow_right, zero-add, suc-add, sub-add_cancel,
}
use native.Mathlib.Decide.{dec_lt}
use audio_project.Base.{
  ℕ, zero, suc, ◌+◌, ◌-◌, ◌*◌, ◌%◌, ◌^◌, ◌≤◌, ◌<◌, bit_and, some, min, length, ◌≡◌, ◌≢◌, sym, ap,
  ◌∙◌, arith,
}
use audio_project.Bits.Mask.{bit_and_mask}
use audio_project.Ring.{RingBuf, used, free_space, masked, clip}

-- The capacity is a power of two, the storage is as large as it says, and the positions lie in it.
pub record IsValid {ℓ} {A : Type ℓ} (rb : RingBuf A) : Type 0 where
  pub bits : ℕ
  pub power : rb.capacity ≡ 2 ^ bits
  pub narrow : bits ≤ 31
  pub storage : length rb.buffer ≡ rb.capacity * rb.channels
  pub addressable : rb.capacity * rb.channels < 2 ^ 32
  pub write_in : rb.write_pos < rb.capacity
  pub read_in : rb.read_pos < rb.capacity

pub clip-min : (a b : ℕ) → clip a b ≡ min a b
clip-min a b = ground arith

pub clipped : (a b : ℕ) → 0 + min a b ≤ a
clipped a b = omega arith

pub next_round : (i left : ℕ) → i + 1 + left ≡ i + suc left
next_round i left = omega arith

pow-add : (j k : ℕ) → 2 ^ (j + k) ≡ 2 ^ j * 2 ^ k
pow-add zero k = omega (arith, ap (λ t. 2 ^ t) (zero-add k))
pow-add (suc j) k = omega (
  arith,
  pow-suc 2 (j + k),
  ap (λ t. 2 ^ t) (suc-add j k),
  pow-add j k,
  ap (λ (t : ℕ). t * 2 ^ k) (pow-suc 2 j),
)

-- The wrap of `unsigned int` is a whole number of turns.
turns : (k : ℕ) → k ≤ 32 → 2 ^ k ∣ 2 ^ 32
turns k h =
    subst (λ t. 2 ^ k ∣ t) (sym (pow-add (32 - k) k) ∙ ap (λ t. 2 ^ t) (sub-add_cancel h))
      (dvd-mul_left (2 ^ k) (2 ^ (32 - k)))

mask-wrap : (k x : ℕ) → k ≤ 32 → bit_and (x % 2 ^ 32) (2 ^ k - 1) ≡ x % 2 ^ k
mask-wrap k x h = bit_and_mask k (x % 2 ^ 32) ∙ mod-mod_of_dvd (2 ^ k) x (turns k h)

add_wrap-mod : (k x : ℕ) → k ≤ 32 → (x + 2 ^ 32) % 2 ^ k ≡ x % 2 ^ k
add_wrap-mod k x h =
    sym (mod-mod_of_dvd (2 ^ k) (x + 2 ^ 32) (turns k h))
    ∙ ap (λ t. t % 2 ^ k) (add-mod_right x (2 ^ 32))
    ∙ mod-mod_of_dvd (2 ^ k) x (turns k h)

-- Fewer than `cap` places apart on the ring are different places.
pub places_apart : (cap h i j : ℕ) → h < cap → i < j → j < cap → (h + i) % cap ≢ (h + j) % cap
places_apart cap h i j hh ij jc = elim (dec_lt (h + j) cap) [
  | yes p ↦
      omega (arith, mod-eq_of_lt {n = h + j} p, mod-eq_of_lt {n = h + i} {m = cap} (omega arith))
  | no p ↦
      let over : (h + j) % cap ≡ h + j - cap =
        mod-eq-sub-mod {n = h + j} {m = cap} (omega arith) ∙ mod-eq_of_lt (omega arith) in
      elim (dec_lt (h + i) cap) [
        | yes q ↦ omega (arith, over, mod-eq_of_lt {n = h + i} q)
        | no q ↦ omega (
          arith,
          over,
          mod-eq-sub-mod {n = h + i} {m = cap} (omega arith),
          mod-eq_of_lt {n = h + i - cap} {m = cap} (omega arith),
        )
      ]
]

module _ {ℓ} {A : Type ℓ} {rb : RingBuf A} (v : IsValid rb) where
  pub capacity_pos : 0 < rb.capacity
  capacity_pos = omega (arith, v.power, one-le-pow v.bits 2)

  -- Masking an index is taking it modulo the capacity.
  pub masked-mod : (position i : ℕ) → masked rb position i ≡ (position + i) % rb.capacity
  masked-mod position i = rw v.power (mask-wrap v.bits (position + i) (omega (arith, v.narrow)))

  masked_used : used rb ≡ (rb.write_pos + 2 ^ 32 - rb.read_pos) % rb.capacity
  unfolding used
  masked_used = rw v.power (mask-wrap v.bits _ (omega (arith, v.narrow)))

  turn : (rb.write_pos + 2 ^ 32) % rb.capacity ≡ rb.write_pos % rb.capacity
  turn = rw v.power (add_wrap-mod v.bits rb.write_pos (omega (arith, v.narrow)))

  capacity_bound : rb.capacity ≤ 2 ^ 31
  capacity_bound = rw v.power (pow-le-pow_right {n = 2} (omega arith) v.narrow)

  -- The write position lies `used` frames after the read position, round the ring.
  pub write_pos-used : (rb.read_pos + used rb) % rb.capacity ≡ rb.write_pos
  write_pos-used =
      rw (masked_used, add-mod-mod)
        (ap (λ t. t % rb.capacity)
            (let e : rb.read_pos + (rb.write_pos + 2 ^ 32 - rb.read_pos) ≡ rb.write_pos + 2 ^ 32 =
                omega (arith, capacity_bound) in
              e)
          ∙ turn
          ∙ mod-eq_of_lt v.write_in)

  pub used-lt : used rb < rb.capacity
  used-lt = rw masked_used (mod-lt _ capacity_pos)

  -- The number of frames that leads from the read position to the write position.
  pub used_unique :
      (n : ℕ) → n < rb.capacity → (rb.read_pos + n) % rb.capacity ≡ rb.write_pos → used rb ≡ n
  used_unique n h e = elim (dec_lt n (used rb)) [
    | yes p ↦ absurd (
        places_apart rb.capacity rb.read_pos n (used rb) v.read_in p used-lt
          (e ∙ sym write_pos-used))
    | no p ↦ elim (dec_lt (used rb) n) [
      | yes q ↦
          absurd (
            places_apart rb.capacity rb.read_pos (used rb) n v.read_in q h (write_pos-used ∙ sym e))
      | no q ↦ omega arith
    ]
  ]

  pub free_space-used : free_space (some rb) + used rb + 1 ≡ rb.capacity
  unfolding free_space
  free_space-used = ground (arith, used-lt)
