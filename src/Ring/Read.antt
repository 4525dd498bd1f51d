-- ===== src/Ring/Read.antt =====
-- `ae_ringbuf_read` takes the oldest frames off the queue that the ring stands for.
use native.Mathlib.Nat.{
  mod-eq_of_lt, mod-add-mod, mod-lt, mul-le-mul_right, add_comm, zero-mul, le_trans,
}
use audio_project.Base.{
  ℕ, zero, suc, ◌+◌, ◌-◌, ◌*◌, ◌%◌, ◌^◌, ◌≤◌, ◌<◌, min, List, [], ◌∷◌, ◌++◌, some, pos, length,
  Bool-cases, ◌==◌, inl, inr, read_at-slice, write_at-overlay, overlay, overlay-append,
  length-overlay, length-slice, ◌>>=◌, ◌≡◌, refl, sym, ap, ap₂, ◌∙◌, arith,
}
use audio_project.Ring.{RingBuf, used, masked, load_frame, copy_out, read_frames, read, available}
use audio_project.Ring.Valid.{
  IsValid, capacity_pos, masked-mod, write_pos-used, used-lt, used_unique, clip-min, clipped,
  next_round,
}
use audio_project.Ring.Window.{
  frame_at, frame_within, window, length-window, window-add, window_shift, contents,
}

-- Frames laid out one after the other.
abbrev pub interleave {ℓ} : {A : Type ℓ} → List (List A) → List A
interleave [] = []
interleave (frame ∷ frames) = frame ++ interleave frames

split_at : (n u : ℕ) → n ≤ u → u ≡ n + (u - n)
split_at n u h = omega arith

regroup : (r n u : ℕ) → n ≤ u → r + n + (u - n) ≡ r + u
regroup r n u h = omega arith

module _ {ℓ} {A : Type ℓ} (rb : RingBuf A) (v : IsValid rb) where
  open rb use {capacity, channels, read_pos}

  abbrev place : ℕ → ℕ
  place i = (read_pos + i) % capacity

  place-lt : (i : ℕ) → place i < capacity
  place-lt i = mod-lt _ (capacity_pos v)

  place_address : (i : ℕ) → masked rb read_pos i * channels % 2 ^ 32 ≡ place i * channels
  place_address i = rw (masked-mod v read_pos i) (
      mod-eq_of_lt
        (omega (arith, frame_within channels (place i) capacity (place-lt i), v.addressable)))

  abbrev oldest : ℕ → List A
  oldest i = frame_at rb.buffer channels (place i)

  in_storage : (i : ℕ) → place i * channels + channels ≤ length rb.buffer
  in_storage i = omega (arith, frame_within channels (place i) capacity (place-lt i), v.storage)

  length-oldest : (i : ℕ) → length (oldest i) ≡ channels
  length-oldest i = length-slice rb.buffer (place i * channels) channels (in_storage i)

  -- One round delivers one frame of the storage, inside both arrays.
  pub load_frame_lem :
      (i : ℕ) (out : List A)
      → i * channels + channels ≤ length out
      → load_frame rb i out
        ≡ some (overlay out (i * channels) (frame_at rb.buffer channels (masked rb read_pos i)))
  unfolding load_frame
  load_frame_lem i out within = rw (
    place_address i,
    masked-mod v read_pos i,
    read_at-slice rb.buffer (place i * channels) channels (in_storage i),
    ◌>>=◌,
    write_at-overlay out (i * channels) (oldest i) (rw (length-oldest i) within),
  )

  pub length-loaded :
      (i : ℕ) → length (frame_at rb.buffer channels (masked rb read_pos i)) ≡ channels
  length-loaded i = rw (masked-mod v read_pos i) (length-oldest i)

  fits :
      (out : List A) (wanted : ℕ)
      → wanted * channels ≤ length out
      → (0 + min wanted (used rb)) * channels ≤ length out
  fits out wanted enough = le_trans (mul-le-mul_right channels (clipped wanted (used rb))) enough

  copy_out_lem :
      (left i : ℕ) (out : List A)
      → (i + left) * channels ≤ length out
      → copy_out rb left i out
        ≡ some (
            overlay out
              (i * channels)
              (interleave (window capacity channels rb.buffer read_pos i left)))
  unfolding copy_out
  copy_out_lem zero i out enough = refl
  copy_out_lem (suc left) i out enough =
      rw
        (
          load_frame_lem i out
              (le_trans (frame_within channels i (i + suc left) (omega arith)) enough),
          ◌>>=◌,
          masked-mod v read_pos i,
        )
        (copy_out_lem left (i + 1) (overlay out (i * channels) (oldest i))
            (rw length-overlay (rw (next_round i left) enough))
          ∙ ap some (
              overlay-append out (i * channels) ((i + 1) * channels) (oldest i)
                (interleave (window capacity channels rb.buffer read_pos (i + 1) left))
                (omega (arith, length-oldest i))))

  pub IsValid-consume : (n : ℕ) → IsValid (record rb { read_pos = masked rb read_pos n })
  IsValid-consume n = record {
    bits = v.bits;
    power = v.power;
    narrow = v.narrow;
    storage = v.storage;
    addressable = v.addressable;
    write_in = v.write_in;
    read_in = rw (masked-mod v read_pos n) (place-lt n);
  }

  pub used-consume :
      (n : ℕ) → n ≤ used rb → used (record rb { read_pos = masked rb read_pos n }) ≡ used rb - n
  used-consume n h = used_unique (IsValid-consume n) (used rb - n) (omega (arith, used-lt v)) (
      ap (λ t. (t + (used rb - n)) % capacity) (masked-mod v read_pos n)
      ∙ mod-add-mod (read_pos + n) capacity (used rb - n)
      ∙ ap (λ t. t % capacity) (regroup read_pos n (used rb) h)
      ∙ write_pos-used v)

  -- Taking `n` frames off splits the queue.
  pub contents-consume :
      (n : ℕ)
      → n ≤ used rb
      → contents rb
        ≡ window capacity channels rb.buffer read_pos 0 n
          ++ contents (record rb { read_pos = masked rb read_pos n })
  contents-consume n h =
      ap (window capacity channels rb.buffer read_pos 0) (split_at n (used rb) h)
      ∙ window-add capacity channels rb.buffer read_pos 0 n (used rb - n)
      ∙ ap (λ t. window capacity channels rb.buffer read_pos 0 n ++ t) (sym rest)
    where
      rest :
          contents (record rb { read_pos = masked rb read_pos n })
          ≡ window capacity channels rb.buffer read_pos (0 + n) (used rb - n)
      rest =
          ap₂ (λ h m. window capacity channels rb.buffer h 0 m) (masked-mod v read_pos n)
            (used-consume n h)
          ∙ window_shift capacity channels rb.buffer read_pos n 0 (used rb - n)
          ∙ ap (λ t. window capacity channels rb.buffer read_pos t (used rb - n)) (add_comm n 0)

  read_frames_lem :
      (out : List A) (wanted : ℕ)
      → wanted * channels ≤ length out
      → let n = min wanted (used rb) in
        let delivered = window capacity channels rb.buffer read_pos 0 n in
        (rb' : RingBuf A) × (read_frames rb out wanted
          ≡ some (n, overlay out 0 (interleave delivered), rb'))
        × IsValid rb'
        × (rb'.channels ≡ channels)
        × (contents rb ≡ delivered ++ contents rb')
  unfolding read_frames available
  read_frames_lem out wanted enough = elim (Bool-cases (min wanted (used rb) == 0)) [
    | inl e ↦
        let none_there : min wanted (used rb) ≡ 0 = ground arith in
        (rb, rw (clip-min, none_there), v, refl, rw none_there refl)
    | inr e ↦
        let n = min wanted (used rb) in
        (
          record rb { read_pos = masked rb read_pos n },
          rw (clip-min, e, copy_out_lem n 0 out (fits out wanted enough), ◌>>=◌, zero-mul),
          IsValid-consume n,
          refl,
          contents-consume n (omega arith),
        )
  ]

  -- Called on a valid ring with an array of at least `suc n` frames, `ae_ringbuf_read` returns, is
  -- inside both arrays, reports the smaller of `suc n` and the length of the queue, takes that many
  -- frames off the front of the queue, lays exactly those at the start of the caller's array, leaves
  -- the rest of that array alone, and keeps the ring valid and its frames at their size.
  pub read_refines :
      (out : List A) (n : ℕ)
      → suc n * channels ≤ length out
      → (delivered : List (List A)) × (rb' : RingBuf A) × (read (some rb) (some out) (pos (suc n))
          ≡ some (length delivered, some (overlay out 0 (interleave delivered)), some rb'))
        × IsValid rb'
        × (rb'.channels ≡ channels)
        × (length delivered ≡ min (suc n) (length (contents rb)))
        × (contents rb ≡ delivered ++ contents rb')
  unfolding read
  read_refines out n enough =
      let (rb', returns, valid, same, queue) = read_frames_lem out (suc n) enough in
      let count = length-window capacity channels rb.buffer read_pos 0 (min (suc n) (used rb)) in
      (
        window capacity channels rb.buffer read_pos 0 (min (suc n) (used rb)),
        rb',
        rw (returns, ◌>>=◌, count),
        valid,
        same,
        omega (arith, count, length-window capacity channels rb.buffer read_pos 0 (used rb)),
        queue,
      )
