-- ===== src/Crypto/Tests.antt =====
-- Runs of the functions of core/src/crypto.c on small packets.
use audio_project.Base.{
  ℕ, ◌%◌, ◌^◌, ap, ◌⊎◌, read_at, write_at, List, [], ◌∷◌, ◌++◌, ◌≡◌, refl, arith, set, get_or,
  replicate, none, some, pos, minus_one, true, if◌then◌else◌, ◌==◌,
}
use audio_project.Crypto.{
  encrypt, decrypt, build_nonce, xor_stream, xor_from, stream_from, compute_tag, mix_from,
  fold_down, aad_bytes, seal, write_at_ℤ,
}
use audio_project.Crypto.Table.{
  Context, find_key, key_among, slot_among, fill_slot, key_or_derived, set_channel_key, derive_key,
  key_bytes, blank,
}
use audio_project.Crypto.Table.Lookup.{IsValid, set_channel_key_refines}
use audio_project.Crypto.Nonce.{build_nonce_injective}
use audio_project.Crypto.Exchange.{decrypt-encrypt, derived_keys_agree}
use audio_project.Crypto.Tamper.{changed_packet_refused}

-- A table with a key for channel 7.
abbrev some_key : List ℕ
some_key = replicate 20 0xa5 ++ replicate 12 0x3c

abbrev keyed : Context
keyed = record {
  keys = record { channel_id = 7; key = some_key; active = true } ∷ replicate 63 blank;
  num_keys = 1;
}

abbrev voice : List ℕ
voice = 1 ∷ 2 ∷ 250 ∷ []

abbrev header : List ℕ
header = replicate 20 9

abbrev room : List ℕ
room = replicate 40 0

abbrev header32 : List ℕ
header32 = replicate 32 9

keeps_header : key_or_derived 7 (some header32) ≡ some header32
unfolding key_or_derived read_at
keeps_header = refl

-- A table without keys, and with the derived one for channel 1.
abbrev empty : Context
empty = record { keys = replicate 64 blank; num_keys = 0 }

abbrev derived : Context
derived = record {
  keys = record { channel_id = 1; key = derive_key 1; active = true } ∷ replicate 63 blank;
  num_keys = 1;
}

empty-IsValid : IsValid empty
empty-IsValid = record { room = refl; bound = omega arith }

keyed-find_key : find_key keyed 7 ≡ some some_key
unfolding find_key key_among
keyed-find_key = refl

keyed-IsValid : IsValid keyed
keyed-IsValid = record { room = refl; bound = omega arith }

-- The packet of `voice` on channel 7, in front of what the buffer held.
abbrev packet : List ℕ
packet =
    0
    ∷ 0
    ∷ 0
    ∷ 7
    ∷ 85
    ∷ 102
    ∷ 119
    ∷ 136
    ∷ 0
    ∷ 0
    ∷ 0
    ∷ 42
    ∷ 164
    ∷ 167
    ∷ 95
    ∷ 249
    ∷ 248
    ∷ 250
    ∷ 0
    ∷ 0
    ∷ 144
    ∷ 0
    ∷ 144
    ∷ 0
    ∷ 144
    ∷ 0
    ∷ 144
    ∷ 0
    ∷ 144
    ∷ 0
    ∷ 144
    ∷ replicate 9 0

encrypts :
    encrypt
      (some keyed)
      7
      0x1122334455667788
      42
      (some header)
      (pos 20)
      (some voice)
      (pos 3)
      (some room)
      (pos 40)
    ≡ some (pos 31, some packet)
unfolding encrypt seal find_key key_among build_nonce xor_stream xor_from stream_from compute_tag
    mix_from fold_down aad_bytes write_at_ℤ read_at write_at
encrypts = refl

reads_header : aad_bytes (some header) (pos 20) ≡ some header
unfolding aad_bytes read_at
reads_header = refl

sets_derived : set_channel_key (some empty) 1 none ≡ some (pos 0, some derived)
unfolding set_channel_key slot_among key_or_derived fill_slot derive_key key_bytes
sets_derived = refl

abbrev near : ℕ
near = 258

abbrev serial : ℕ
serial = 5

build_nonce_injective_example :
    (near ≡ near) × (2 ^ 40 % 2 ^ 32 ≡ 2 ^ 50 % 2 ^ 32) × (serial ≡ serial)
unfolding build_nonce
build_nonce_injective_example =
    build_nonce_injective 258 (2 ^ 40) 5 258 (2 ^ 50) 5 (omega arith) (omega arith) (omega arith)
      (omega arith) refl

set_channel_key_refines_example :
    ((ctx' : Context) × (set_channel_key (some keyed) 7 (some header32) ≡ some (pos 0, some ctx'))
      × IsValid ctx'
      × ((c : ℕ) → find_key ctx' c ≡ (if 7 == c then some header32 else find_key keyed c)))
    ⊎ (set_channel_key (some keyed) 7 (some header32) ≡ some (minus_one, some keyed))
      × (keyed.num_keys ≡ 64)
      × (find_key keyed 7 ≡ none)
set_channel_key_refines_example =
    set_channel_key_refines keyed 7 (some header32) header32 keyed-IsValid keeps_header

decrypt-encrypt_example :
    (built : List ℕ) × (encrypt
        (some keyed)
        7
        0x1122334455667788
        42
        (some header)
        (pos 20)
        (some voice)
        (pos 3)
        (some room)
        (pos 40)
      ≡ some (pos 31, some built))
    × (decrypt (some keyed) 7 (some header) (pos 20) (some built) (pos 31) (some room) (pos 40)
        ≡ some (pos 3, some (voice ++ replicate 37 0)))
decrypt-encrypt_example =
    decrypt-encrypt keyed keyed 7 0x1122334455667788 42 some_key keyed-find_key keyed-find_key
      (some header) (pos 20) header voice room room reads_header (omega arith) (omega arith)

derived_keys_agree_example :
    (built : List ℕ) × (encrypt
        (some derived)
        1
        9
        42
        (some header)
        (pos 20)
        (some voice)
        (pos 3)
        (some room)
        (pos 40)
      ≡ some (pos 31, some built))
    × (decrypt (some derived) 1 (some header) (pos 20) (some built) (pos 31) (some room) (pos 40)
        ≡ some (pos 3, some (voice ++ replicate 37 0)))
derived_keys_agree_example =
    derived_keys_agree empty empty derived derived 1 9 42 (some header) (pos 20) header voice room
      room empty-IsValid empty-IsValid sets_derived sets_derived reads_header (omega arith)
      (omega arith)

changed_packet_refused_example :
    decrypt
      (some keyed)
      7
      (some header)
      (pos 20)
      (some (set packet 12 0))
      (pos 31)
      (some room)
      (pos 40)
    ≡ some (minus_one, some (replicate 40 0))
changed_packet_refused_example =
    changed_packet_refused keyed keyed 7 0x1122334455667788 42 some_key keyed-find_key
      keyed-find_key (some header) (pos 20) header voice room room packet (pos 31) 0 0 reads_header
      (omega arith) (omega arith) encrypts (omega arith)
      (λ q. absurd (omega (arith, ap (λ t. get_or t 12 0) q)))
