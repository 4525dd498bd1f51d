-- ===== src/Ring/Create.antt =====
-- `ae_ringbuf_create` and `ae_ringbuf_reset`: the rings that they give.
use native.Mathlib.Nat.{
  mul-le-mul_right, mod-eq_of_lt, add-zero, pow-le-pow_right, le-mul_of_pos_right,
}
use native.Mathlib.Decide.{dec_lt}
use audio_project.Base.{
  ℕ, suc, ◌+◌, ◌*◌, ◌%◌, ◌^◌, ◌≤◌, ◌<◌, [], true, some, none, ℤ, pos, negsuc, length-replicate,
  replicate, ◌≡◌, refl, ap, ◌∙◌, arith,
}
use audio_project.Ring.{RingBuf, next_power_of_two, create, used, free_space, reset}
use audio_project.Ring.PowerOfTwo.{next_power_of_two-least}
use audio_project.Ring.Valid.{IsValid, used_unique, free_space-used, capacity_pos}
use audio_project.Ring.Window.{contents, window}

-- A ring whose positions are equal holds no frame.
used_empty {ℓ} :
    {A : Type ℓ} (rb : RingBuf A) → IsValid rb → rb.read_pos ≡ rb.write_pos → used rb ≡ 0
used_empty rb v e =
    used_unique v 0 (capacity_pos v)
      (ap (λ t. t % rb.capacity) (add-zero rb.read_pos) ∙ mod-eq_of_lt v.read_in ∙ e)

contents_empty {ℓ} :
    {A : Type ℓ} (rb : RingBuf A) → IsValid rb → rb.read_pos ≡ rb.write_pos → contents rb ≡ []
contents_empty rb v e =
    ap (window rb.capacity rb.channels rb.buffer rb.read_pos 0) (used_empty rb v e)

-- A power of two below 2 ^ 32 has at most 31 zeros.
bits-le : (k : ℕ) → 2 ^ k < 2 ^ 32 → k ≤ 31
bits-le k h = elim (dec_lt k 32) [
  | yes p ↦ omega arith
  | no p ↦
      absurd (omega (arith, pow-le-pow_right {n = 2} (omega arith) {i = 32} {j = k} (omega arith)))
]

samples_fit : (size n chans : ℕ) → size < n → n * suc chans < 2 ^ 32 → size * suc chans < 2 ^ 32
samples_fit size n chans h fits =
    let grows : size * suc chans ≤ n * suc chans = mul-le-mul_right (suc chans) (omega arith) in
    omega arith

module _ {ℓ} {A : Type ℓ} (silence : A) (c d : ℕ) where
  -- With the memory there, a capacity below 2 ^ 30 and `2 * (capacity + 1) * channels` samples fewer than
  -- 2 ^ 32, the ring that
  -- `ae_ringbuf_create` gives for `suc c` frames of `suc d` samples is valid and empty, and has room
  -- for the frames asked for and for no more than twice as many.
  pub create_lem :
      suc c < 2 ^ 30
      → 2 * (suc c + 1) * suc d < 2 ^ 32
      → (rb : RingBuf A) × (create silence true true (pos (suc c)) (pos (suc d)) ≡ some rb)
        × IsValid rb
        × (contents rb ≡ [])
        × (rb.channels ≡ suc d)
        × (suc c ≤ free_space (some rb))
        × (free_space (some rb) ≤ 2 * suc c)
  unfolding create
  create_lem few fits = (made, gives, valid, contents_empty made valid refl, refl, room.0, room.1)
    where
      least :
          (k : ℕ) × (next_power_of_two (suc c + 1) ≡ pos (2 ^ k))
          × (suc c + 1 ≤ 2 ^ k)
          × (2 ^ k < 2 * (suc c + 1))
          × ((j : ℕ) → suc c + 1 ≤ 2 ^ j → 2 ^ k ≤ 2 ^ j)
      least = next_power_of_two-least (suc c + 1) (omega arith) (omega (arith, few))

      size : ℕ
      size = 2 ^ least.0

      made : RingBuf A
      made = record {
        buffer = replicate (size * suc d) silence;
        capacity = size;
        channels = suc d;
        write_pos = 0;
        read_pos = 0;
      }

      small : 2 * (suc c + 1) < 2 ^ 32
      small = omega (arith, le-mul_of_pos_right {m = suc d} (2 * (suc c + 1)) (omega arith))

      gives : create silence true true (pos (suc c)) (pos (suc d)) ≡ some made
      gives =
          ap
            (λ (t : ℤ). elim t [
              | negsuc n ↦ none
              | pos cap ↦ some (record {
                buffer = replicate (cap * suc d) silence;
                capacity = cap;
                channels = suc d;
                write_pos = 0;
                read_pos = 0;
              })
            ])
            (least.1)

      valid : IsValid made
      valid = record {
        bits = least.0;
        power = refl;
        narrow = bits-le (least.0) (omega (arith, least.3, small));
        storage = length-replicate (size * suc d) silence;
        addressable = samples_fit size (2 * (suc c + 1)) d (omega (arith, least.3)) fits;
        write_in = omega (arith, least.2);
        read_in = omega (arith, least.2);
      }

      room : (suc c ≤ free_space (some made)) × (free_space (some made) ≤ 2 * suc c)
      room = omega (arith, free_space-used valid, used_empty made valid refl, least.2, least.3)

-- `ae_ringbuf_reset` keeps a ring valid and leaves it empty.
pub reset_lem {ℓ} :
    {A : Type ℓ} (rb : RingBuf A)
    → IsValid rb
    → (rb' : RingBuf A) × (reset (some rb) ≡ some rb') × IsValid rb' × (contents rb' ≡ [])
unfolding reset
reset_lem {A} rb v = (emptied, refl, valid, contents_empty emptied valid refl)
  where
    emptied : RingBuf A
    emptied = record rb { write_pos = 0; read_pos = 0 }

    valid : IsValid emptied
    valid = record {
      bits = v.bits;
      power = v.power;
      narrow = v.narrow;
      storage = v.storage;
      addressable = v.addressable;
      write_in = capacity_pos v;
      read_in = capacity_pos v;
    }
