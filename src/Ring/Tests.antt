-- ===== src/Ring/Tests.antt =====
-- core/src/ring_buffer.c on small inputs, and its theorems at inputs that meet their hypotheses.
use audio_project.Base.{
  ℕ, ◌≤◌, min, List, [], ◌∷◌, ◌++◌, true, some, none, pos, negsuc, length, overlay, read_at,
  write_at, ◌≡◌, refl, arith,
}
use audio_project.Ring.{
  RingBuf, smear, next_power_of_two, create, used, free_space, write_frames, write, copy_in,
  store_frame, read_frames, read, copy_out, load_frame, available,
}
use audio_project.Ring.Valid.{IsValid}
use audio_project.Ring.Window.{contents}
use audio_project.Ring.Create.{create_lem}
use audio_project.Ring.Write.{write_refines}
use audio_project.Ring.Read.{read_refines, interleave}

-- Room for three stereo frames; one is in it, round the end of the storage.
abbrev wrapped : RingBuf ℕ
wrapped = record {
  buffer = 0 ∷ 0 ∷ 0 ∷ 0 ∷ 0 ∷ 0 ∷ 7 ∷ 8 ∷ [];
  capacity = 4;
  channels = 2;
  write_pos = 0;
  read_pos = 3;
}

abbrev three_frames : List ℕ
three_frames = 1 ∷ 2 ∷ 3 ∷ 4 ∷ 5 ∷ 6 ∷ []

wrapped-IsValid : IsValid wrapped
wrapped-IsValid = record {
  bits = 2;
  power = refl;
  narrow = omega arith;
  storage = refl;
  addressable = omega arith;
  write_in = omega arith;
  read_in = omega arith;
}

contents-wrapped : contents wrapped ≡ (7 ∷ 8 ∷ []) ∷ []
unfolding used
contents-wrapped = refl

-- Two of three frames fit.
write_stops_when_full :
    write (some wrapped) (some three_frames) (pos 3)
    ≡ some (2, some (record wrapped { buffer = 1 ∷ 2 ∷ 3 ∷ 4 ∷ 0 ∷ 0 ∷ 7 ∷ 8 ∷ []; write_pos = 2 }))
unfolding write write_frames copy_in store_frame read_at write_at free_space used
write_stops_when_full = refl

null_and_negative :
    (write (some wrapped) none (pos 3) ≡ some (0, some wrapped))
    × (write (some wrapped) (some three_frames) (negsuc 4) ≡ some (0, some wrapped))
unfolding write
null_and_negative = (refl, refl)

read_one :
    read (some wrapped) (some (0 ∷ 0 ∷ 9 ∷ 9 ∷ [])) (pos 2)
    ≡ some (1, some (7 ∷ 8 ∷ 9 ∷ 9 ∷ []), some (record wrapped { read_pos = 0 }))
unfolding read read_frames copy_out load_frame read_at write_at available used
read_one = refl

powers :
    (next_power_of_two 5 ≡ pos 8)
    × (next_power_of_two 8 ≡ pos 8)
    × (next_power_of_two 61441 ≡ pos 65536)
unfolding next_power_of_two smear
powers = (refl, refl, refl)

-- The rings of core/src/audio_engine.c: 64 * 960 frames of two samples.
create_lem_example :
    (rb : RingBuf ℕ) × (create 0 true true (pos 61440) (pos 2) ≡ some rb)
    × IsValid rb
    × (contents rb ≡ [])
    × (rb.channels ≡ 2)
    × (61440 ≤ free_space (some rb))
    × (free_space (some rb) ≤ 122880)
create_lem_example = create_lem 0 61439 1 (omega arith) (omega arith)

abbrev silence : ℕ
silence = 0

write_refines_example :
    (rb : RingBuf ℕ) × (write (some wrapped) (some three_frames) (pos 3) ≡ some (2, some rb))
    × IsValid rb
    × (rb.capacity ≡ 4)
    × (rb.channels ≡ 2)
    × (contents rb ≡ (7 ∷ 8 ∷ []) ∷ (1 ∷ 2 ∷ []) ∷ (3 ∷ 4 ∷ []) ∷ [])
unfolding used
write_refines_example = write_refines wrapped wrapped-IsValid three_frames 2 (omega arith)

read_refines_example :
    (delivered : List (List ℕ)) × (rb : RingBuf ℕ) × (read
        (some wrapped)
        (some three_frames)
        (pos 3)
      ≡ some (length delivered, some (overlay three_frames 0 (interleave delivered)), some rb))
    × IsValid rb
    × (rb.channels ≡ 2)
    × (length delivered ≡ min 3 (length (contents wrapped)))
    × (contents wrapped ≡ delivered ++ contents rb)
read_refines_example = read_refines wrapped wrapped-IsValid three_frames 2 (omega arith)
