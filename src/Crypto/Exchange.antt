-- ===== src/Crypto/Exchange.antt =====
-- A packet of core/src/crypto.c on its way from a sender to a receiver that hold the same key.
use audio_project.Base.{
  ℕ, ◌+◌, ◌-◌, ◌≤◌, List, ◌++◌, ◌≡◌, refl, ap, ◌∙◌, arith, take_all, read_at-slice, length, drop,
  Option, none, some, ℤ, pos, le→ltb,
}
use audio_project.Crypto.{compute_tag, xor_stream, aad_bytes, unseal, build_nonce, encrypt, decrypt}
use audio_project.Crypto.Table.{Context, find_key, set_channel_key, derive_key}
use audio_project.Crypto.Table.Lookup.{IsValid, key_or_derived-none, find_key-set_channel_key}
use audio_project.Crypto.Nonce.{length-build_nonce}
use audio_project.Crypto.Tag.{length-compute_tag}
use audio_project.Crypto.Stream.{xor_stream_twice}
use audio_project.Crypto.Packet.{sealed, seal_lem, verdict, unseal_lem, accepted}

module _ (sender receiver : Context) (channel client sequence : ℕ) (key : List ℕ)
    (sends : find_key sender channel ≡ some key)
    (receives : find_key receiver channel ≡ some key) where
  pub encrypt_lem :
      (aad : Option (List ℕ)) (aad_len : ℤ) (extra plaintext output : List ℕ)
      → aad_bytes aad aad_len ≡ some extra
      → 28 + length plaintext ≤ length output
      → encrypt
          (some sender)
          channel
          client
          sequence
          aad
          aad_len
          (some plaintext)
          (pos (length plaintext))
          (some output)
          (pos (length output))
        ≡ some (
          pos (28 + length plaintext),
          some (
              sealed key (build_nonce channel client sequence) plaintext extra
              ++ drop (28 + length plaintext) output),
        )
  unfolding encrypt
  encrypt_lem aad aad_len extra plaintext output ha room =
      rw (le→ltb (length output + 0) (28 + length plaintext + 0) (omega arith), sends)
        (seal_lem key _ aad aad_len plaintext (length plaintext) output plaintext extra
          (length-build_nonce channel client sequence)
          (read_at-slice plaintext 0 (length plaintext) (omega arith)
            ∙ ap some (take_all (length plaintext) plaintext (omega arith)))
          refl ha room)

  pub decrypt_lem :
      (aad : Option (List ℕ)) (aad_len : ℤ) (iv ct tag rest output bytes extra : List ℕ)
      → length iv ≡ 12
      → length tag ≡ 16
      → xor_stream key iv ct ≡ bytes
      → aad_bytes aad aad_len ≡ some extra
      → length bytes ≤ length output
      → decrypt
          (some receiver)
          channel
          aad
          aad_len
          (some (iv ++ ct ++ tag ++ rest))
          (pos (28 + length bytes))
          (some output)
          (pos (length output))
        ≡ some (verdict key bytes extra tag output)
  unfolding decrypt
  decrypt_lem aad aad_len iv ct tag rest output bytes extra hi ht hx ha room =
      let n = length bytes in
      let exact : 28 + n - 28 ≡ n = omega arith in
      rw
        (
          le→ltb (28 + n + 0) 28 (omega arith),
          exact,
          le→ltb (length output + 0) (n + 0) (omega arith),
          receives,
        )
        (ap (λ t. unseal key aad aad_len (iv ++ ct ++ tag ++ rest) t output) exact
          ∙ unseal_lem key aad aad_len iv ct tag rest output bytes extra hi ht hx ha room)

  -- What the sender encrypts the receiver decrypts: with an output buffer that has room for the packet
  -- and another for the plaintext, the packet is 28 bytes longer than the plaintext, and decrypting it
  -- with the same associated data returns the length of the plaintext, whose bytes are then at the
  -- start of the receiver's buffer, with the rest of it as it was.
  pub decrypt-encrypt :
      (aad : Option (List ℕ)) (aad_len : ℤ) (extra plaintext output received : List ℕ)
      → aad_bytes aad aad_len ≡ some extra
      → 28 + length plaintext ≤ length output
      → length plaintext ≤ length received
      → (packet : List ℕ) × (encrypt
            (some sender)
            channel
            client
            sequence
            aad
            aad_len
            (some plaintext)
            (pos (length plaintext))
            (some output)
            (pos (length output))
          ≡ some (pos (28 + length plaintext), some packet))
        × (decrypt
              (some receiver)
              channel
              aad
              aad_len
              (some packet)
              (pos (28 + length plaintext))
              (some received)
              (pos (length received))
            ≡ some (pos (length plaintext), some (plaintext ++ drop (length plaintext) received)))
  unfolding sealed
  decrypt-encrypt aad aad_len extra plaintext output received ha room room' =
      let iv = build_nonce channel client sequence in
      let ct = xor_stream key iv plaintext in
      let tag = compute_tag key plaintext extra in
      (
        _,
        encrypt_lem aad aad_len extra plaintext output ha room,
        decrypt_lem aad aad_len iv ct tag (drop (28 + length plaintext) output) received plaintext
              extra (length-build_nonce channel client sequence)
              (length-compute_tag key plaintext extra) (xor_stream_twice key iv plaintext) ha room'
            ∙ ap some (accepted key plaintext extra tag received refl),
      )

-- Two sides that each set the channel's key to the derived one understand each other: what one
-- encrypts the other decrypts, as above.
pub derived_keys_agree :
    (a b a' b' : Context) (channel client sequence : ℕ) (aad : Option (List ℕ)) (aad_len : ℤ)
    (extra plaintext output received : List ℕ)
    → IsValid a
    → IsValid b
    → set_channel_key (some a) channel none ≡ some (pos 0, some a')
    → set_channel_key (some b) channel none ≡ some (pos 0, some b')
    → aad_bytes aad aad_len ≡ some extra
    → 28 + length plaintext ≤ length output
    → length plaintext ≤ length received
    → (packet : List ℕ) × (encrypt
          (some a')
          channel
          client
          sequence
          aad
          aad_len
          (some plaintext)
          (pos (length plaintext))
          (some output)
          (pos (length output))
        ≡ some (pos (28 + length plaintext), some packet))
      × (decrypt
            (some b')
            channel
            aad
            aad_len
            (some packet)
            (pos (28 + length plaintext))
            (some received)
            (pos (length received))
          ≡ some (pos (length plaintext), some (plaintext ++ drop (length plaintext) received)))
derived_keys_agree a b a' b' channel client sequence aad aad_len extra plaintext output received va
      vb sa sb =
    let known = key_or_derived-none channel in
    decrypt-encrypt a' b' channel client sequence (derive_key channel)
      (find_key-set_channel_key a a' channel none (derive_key channel) va known sa)
      (find_key-set_channel_key b b' channel none (derive_key channel) vb known sb) aad aad_len
      extra plaintext output received
