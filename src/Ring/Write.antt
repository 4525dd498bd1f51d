-- ===== src/Ring/Write.antt =====
-- `ae_ringbuf_write` appends as many frames as fit, in order, to the queue that the ring stands for.
use native.Mathlib.Nat.{
  mod-eq_of_lt, mod-add-mod, mod-lt, mul-le-mul_right, add_assoc, add-zero, le_trans,
}
use mathlib.Core.List.{append_assoc, append-nil}
use audio_project.Base.{
  ℕ, zero, suc, ◌+◌, ◌-◌, ◌*◌, ◌%◌, ◌^◌, ◌≤◌, ◌<◌, min, List, [], ◌∷◌, ◌++◌, Option, some, pos,
  length, Bool-cases, ◌==◌, inl, inr, read_at-slice, write_at-overlay, overlay, length-overlay,
  length-slice, ◌>>=◌, ◌≡◌, refl, sym, ap, ◌∙◌, arith,
}
use audio_project.Ring.{
  RingBuf, used, free_space, masked, store_frame, copy_in, write_frames, write,
}
use audio_project.Ring.Valid.{
  IsValid, capacity_pos, masked-mod, write_pos-used, used_unique, free_space-used, clip-min,
  clipped, next_round,
}
use audio_project.Ring.Window.{
  frame_at, frame_within, window, length-window, window-push, contents, chunks,
}

shift_round : (n i left : ℕ) → n + i + suc left ≡ n + (i + 1) + left
shift_round n i left = omega arith

module _ {ℓ} {A : Type ℓ} (rb : RingBuf A) (v : IsValid rb) (samples : List A) where
  open rb use {capacity, channels, read_pos, write_pos}

  abbrev place : ℕ → ℕ
  place i = (read_pos + (used rb + i)) % capacity

  place-lt : (i : ℕ) → place i < capacity
  place-lt i = mod-lt _ (capacity_pos v)

  pub masked-place : (i : ℕ) → masked rb write_pos i ≡ place i
  masked-place i =
      masked-mod v write_pos i
      ∙ ap (λ t. (t + i) % capacity) (sym (write_pos-used v))
      ∙ mod-add-mod (read_pos + used rb) capacity i
      ∙ ap (λ t. t % capacity) (add_assoc read_pos (used rb) i)

  place_address : (i : ℕ) → masked rb write_pos i * channels % 2 ^ 32 ≡ place i * channels
  place_address i = rw (masked-place i) (
      mod-eq_of_lt
        (omega (arith, frame_within channels (place i) capacity (place-lt i), v.addressable)))

  chunk_within :
      (left i : ℕ)
      → (i + suc left) * channels ≤ length samples
      → i * channels + channels ≤ length samples
  chunk_within left i enough =
      le_trans (frame_within channels i (i + suc left) (omega arith)) enough

  -- One round stores one frame of the caller's, inside both arrays.
  pub store_frame_lem :
      (i : ℕ) (buffer : List A)
      → length buffer ≡ capacity * channels
      → i * channels + channels ≤ length samples
      → store_frame rb samples i buffer
        ≡ some (overlay buffer (masked rb write_pos i * channels) (frame_at samples channels i))
  unfolding store_frame
  store_frame_lem i buffer size within = rw (
    read_at-slice samples (i * channels) channels within,
    ◌>>=◌,
    place_address i,
    masked-place i,
    write_at-overlay buffer (place i * channels) (frame_at samples channels i) (
        rw (length-slice samples (i * channels) channels within)
          (omega (arith, frame_within channels (place i) capacity (place-lt i), size))),
  )

  copy_in-suc :
      (left i : ℕ) (buffer : List A)
      → length buffer ≡ capacity * channels
      → (i + suc left) * channels ≤ length samples
      → copy_in rb samples (suc left) i buffer
        ≡ copy_in rb samples left
            (i + 1)
            (overlay buffer (place i * channels) (frame_at samples channels i))
  unfolding copy_in
  copy_in-suc left i buffer size enough =
      rw (store_frame_lem i buffer size (chunk_within left i enough), ◌>>=◌, masked-place i)

  -- What the loop has done when it stops, with `left` frames to go from frame `i` on.
  record Copied (i left : ℕ) (buffer : List A) (result : Option (List A)) : Type ℓ where
    stored : List A
    returns : result ≡ some stored
    size : length stored ≡ capacity * channels
    queue :
        window capacity channels stored read_pos 0 (used rb + i + left)
        ≡ window capacity channels buffer read_pos 0 (used rb + i) ++ chunks channels samples i left

  copy_in-Copied :
      (left i : ℕ) (buffer : List A)
      → length buffer ≡ capacity * channels
      → (i + left) * channels ≤ length samples
      → used rb + i + left < capacity
      → Copied i left buffer (copy_in rb samples left i buffer)
  unfolding copy_in
  copy_in-Copied zero i buffer size enough room = record {
    stored = buffer;
    returns = refl;
    size = size;
    queue =
        ap (window capacity channels buffer read_pos 0) (add-zero (used rb + i))
        ∙ sym (append-nil (window capacity channels buffer read_pos 0 (used rb + i)));
  }
  copy_in-Copied (suc left) i buffer size enough room =
      let next = overlay buffer (place i * channels) (frame_at samples channels i) in
      let rest =
        copy_in-Copied left (i + 1) next
          (length-overlay buffer (place i * channels) (frame_at samples channels i) ∙ size)
          (rw (next_round i left) enough) (omega arith) in
      record {
        stored = rest.stored;
        returns = copy_in-suc left i buffer size enough ∙ rest.returns;
        size = rest.size;
        queue =
            ap (window capacity channels rest.stored read_pos 0) (shift_round (used rb) i left)
            ∙ rest.queue
            ∙ ap (λ t. t ++ chunks channels samples (i + 1) left)
                (ap (window capacity channels next read_pos 0) (sym (add_assoc (used rb) i 1))
                  ∙ window-push capacity channels buffer read_pos (used rb + i)
                      (frame_at samples channels i) v.read_in (omega arith) size
                      (length-slice samples (i * channels) channels (chunk_within left i enough)))
            ∙ append_assoc _ (frame_at samples channels i ∷ [])
                (chunks channels samples (i + 1) left);
      }

  -- The write position after `n` more frames.
  pub IsValid-advance :
      (stored : List A) (n : ℕ)
      → length stored ≡ capacity * channels
      → IsValid (record rb { buffer = stored; write_pos = masked rb write_pos n })
  IsValid-advance stored n size = record {
    bits = v.bits;
    power = v.power;
    narrow = v.narrow;
    storage = size;
    addressable = v.addressable;
    write_in = rw (masked-place n) (place-lt n);
    read_in = v.read_in;
  }

  pub used-advance :
      (stored : List A) (n : ℕ)
      → length stored ≡ capacity * channels
      → used rb + n < capacity
      → used (record rb { buffer = stored; write_pos = masked rb write_pos n }) ≡ used rb + n
  used-advance stored n size h =
      used_unique (IsValid-advance stored n size) (used rb + n) h (sym (masked-place n))

  frames-fit :
      (wanted : ℕ)
      → wanted * channels ≤ length samples
      → used rb + 0 + min wanted (free_space (some rb)) < capacity
  frames-fit wanted enough = omega (arith, free_space-used v)

  copied :
      (wanted : ℕ)
      → wanted * channels ≤ length samples
      → let n = min wanted (free_space (some rb)) in
        Copied 0 n rb.buffer (copy_in rb samples n 0 rb.buffer)
  copied wanted enough =
      copy_in-Copied (min wanted (free_space (some rb))) 0 rb.buffer v.storage
        (le_trans (mul-le-mul_right channels (clipped wanted (free_space (some rb)))) enough)
        (frames-fit wanted enough)

  -- With `wanted` frames in the caller's array the call stays inside both arrays, stores the first
  -- frames of the caller's in their order, as many as fit, and keeps the ring valid.
  pub write_frames_lem :
      (wanted : ℕ)
      → wanted * channels ≤ length samples
      → let n = min wanted (free_space (some rb)) in
        (rb' : RingBuf A) × (write_frames rb samples wanted ≡ some (n, rb'))
        × IsValid rb'
        × (rb'.capacity ≡ capacity)
        × (rb'.channels ≡ channels)
        × (contents rb' ≡ contents rb ++ chunks channels samples 0 n)
  unfolding write_frames
  write_frames_lem wanted enough = elim (Bool-cases (min wanted (free_space (some rb)) == 0)) [
    | inl e ↦
        let none_fit : min wanted (free_space (some rb)) ≡ 0 = ground arith in
        (rb, rw (clip-min, none_fit), v, refl, refl, rw none_fit (sym (append-nil (contents rb))))
    | inr e ↦
        let n = min wanted (free_space (some rb)) in
        let done = copied wanted enough in
        (
          record rb { buffer = done.stored; write_pos = masked rb write_pos n },
          rw (clip-min, e, done.returns),
          IsValid-advance done.stored n done.size,
          refl,
          refl,
          ap (window capacity channels done.stored read_pos 0)
                (used-advance done.stored n done.size (omega (arith, free_space-used v)))
              ∙ (rw (add-zero (used rb)) at (done.queue)),
        )
  ]

  -- Called on a valid ring with an array of at least `suc n` frames, `ae_ringbuf_write` returns, is
  -- inside both arrays, reports the frames that it stored, namely as many as there is room for
  -- beside the queue, appends exactly those to the queue in their order, and keeps the ring valid.
  pub write_refines :
      (n : ℕ)
      → suc n * channels ≤ length samples
      → let stored = min (suc n) (capacity - 1 - length (contents rb)) in
        (rb' : RingBuf A) × (write (some rb) (some samples) (pos (suc n)) ≡ some (stored, some rb'))
        × IsValid rb'
        × (rb'.capacity ≡ capacity)
        × (rb'.channels ≡ channels)
        × (contents rb' ≡ contents rb ++ chunks channels samples 0 stored)
  unfolding write
  write_refines n enough =
      let (rb', returns, valid, cap, chans, queue) = write_frames_lem (suc n) enough in
      (rb', rw (returns, ◌>>=◌, room), valid, cap, chans, rw (← room) queue)
    where
      room : min (suc n) (free_space (some rb)) ≡ min (suc n) (capacity - 1 - length (contents rb))
      room =
          omega (
            arith,
            free_space-used v,
            length-window capacity channels rb.buffer read_pos 0 (used rb),
          )
