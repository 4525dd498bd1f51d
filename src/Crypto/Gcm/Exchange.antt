-- ===== src/Crypto/Gcm/Exchange.antt =====
-- A packet of the OpenSSL backend of core/src/crypto.c on its way between two sides with the same key.
use audio_project.Base.{
  ℕ, ◌+◌, ◌-◌, ◌≤◌, List, ◌++◌, Option, some, true, ℤ, pos, minus_one, length, drop, le→ltb, ◌≡◌,
  ◌≢◌, refl, sym, ap, ◌∙◌, arith,
}
use audio_project.Crypto.{aad_bytes, build_nonce}
use audio_project.Crypto.Table.{Context, find_key}
use audio_project.Crypto.Nonce.{length-build_nonce}
use audio_project.Crypto.Gcm.{Evp, sealing, opening, evp_encrypt, verify, evp_unseal, evp_decrypt}
use audio_project.Crypto.Gcm.Laws.{Lawful}
use audio_project.Crypto.Gcm.Steps.{
  evp_packet, evp_seal_lem, evp_unseal_lem, verify_accepts, verify_refuses,
}

module _ (evp : Evp) (lawful : Lawful evp) where
  open lawful use {expecting, crypt, mac}

  -- From the guards of the two functions on.
  module _ (ctx : Context) (channel : ℕ) (key : List ℕ) (has_key : find_key ctx channel ≡ some key)
      (aad : Option (List ℕ)) (aad_len : ℤ) (extra : List ℕ)
      (authentic : aad_bytes aad aad_len ≡ some extra) where
    evp_encrypt_lem :
        (client sequence : ℕ) (plaintext output : List ℕ)
        → 28 + length plaintext ≤ length output
        → evp_encrypt evp
            (some ctx)
            channel
            client
            sequence
            aad
            aad_len
            (some plaintext)
            (pos (length plaintext))
            (some output)
            (pos (length output))
          ≡ some (
            pos (28 + length plaintext),
            some (
                evp_packet evp lawful key (build_nonce channel client sequence) extra plaintext
                ++ drop (28 + length plaintext) output),
          )
    unfolding evp_encrypt
    evp_encrypt_lem client sequence plaintext output room =
        rw
          (
            evp_encrypt,
            le→ltb (length output + 0) (28 + length plaintext + 0) (omega arith),
            has_key,
          )
          (evp_seal_lem evp lawful key _ extra plaintext output aad aad_len
            (length-build_nonce channel client sequence) authentic room)

    evp_decrypt_lem :
        (iv ct tag rest output : List ℕ)
        → length iv ≡ 12
        → length tag ≡ 16
        → length ct ≤ length output
        → evp_decrypt evp
            (some ctx)
            channel
            aad
            aad_len
            (some (iv ++ ct ++ tag ++ rest))
            (pos (28 + length ct))
            (some output)
            (pos (length output))
          ≡ verify evp (
            true,
            length ct,
            crypt opening key iv ct ++ drop (length ct) output,
            expecting key iv extra ct tag,
          )
    unfolding evp_decrypt
    evp_decrypt_lem iv ct tag rest output hi ht room =
        let exact : 28 + length ct - 28 ≡ length ct = omega arith in
        rw
          (
            evp_decrypt,
            le→ltb (28 + length ct + 0) 28 (omega arith),
            exact,
            le→ltb (length output + 0) (length ct + 0) (omega arith),
            has_key,
          )
          (ap (λ t. evp_unseal evp key aad aad_len (iv ++ ct ++ tag ++ rest) t output) exact
            ∙ evp_unseal_lem evp lawful key iv ct tag rest extra output aad aad_len hi ht authentic
                room)

  -- With OpenSSL's calls as documented and one key on both sides, what the sender encrypts the receiver
  -- decrypts, for buffers with room for the packet and for the plaintext: the packet is 28 bytes longer
  -- than the plaintext, and decrypting it with the same associated data returns the length of the
  -- plaintext, whose bytes are then at the start of the receiver's buffer, with the rest of it as it was.
  pub evp_decrypt-evp_encrypt :
      (sender receiver : Context) (channel client sequence : ℕ) (key : List ℕ)
      (aad : Option (List ℕ)) (aad_len : ℤ) (extra plaintext output received : List ℕ)
      → find_key sender channel ≡ some key
      → find_key receiver channel ≡ some key
      → aad_bytes aad aad_len ≡ some extra
      → 28 + length plaintext ≤ length output
      → length plaintext ≤ length received
      → (packet : List ℕ) × (evp_encrypt evp
            (some sender)
            channel
            client
            sequence
            aad
            aad_len
            (some plaintext)
            (pos (length plaintext))
            (some output)
            (pos (length output))
          ≡ some (pos (28 + length plaintext), some packet))
        × (evp_decrypt evp
              (some receiver)
              channel
              aad
              aad_len
              (some packet)
              (pos (28 + length plaintext))
              (some received)
              (pos (length received))
            ≡ some (pos (length plaintext), some (plaintext ++ drop (length plaintext) received)))
  evp_decrypt-evp_encrypt sender receiver channel client sequence key aad aad_len extra plaintext
        output received sends receives authentic room room' =
      let iv = build_nonce channel client sequence in
      let ct = crypt sealing key iv plaintext in
      let tag = mac key iv extra ct in
      let n = length plaintext in
      let size : length ct ≡ n = lawful.length_crypt sealing key iv plaintext in
      let packet = evp_packet evp lawful key iv extra plaintext ++ drop (28 + n) output in
      (
        packet,
        evp_encrypt_lem sender channel key sends aad aad_len extra authentic client sequence
            plaintext output room,
        ap
              (λ k.
                evp_decrypt evp (some receiver) channel aad aad_len (some packet) (pos (28 + k))
                  (some received) (pos (length received)))
              (sym size)
            ∙ evp_decrypt_lem receiver channel key receives aad aad_len extra authentic iv ct tag
                (drop (28 + n) output) received (length-build_nonce channel client sequence)
                (lawful.length_mac key iv extra ct) (omega (arith, size, room'))
            ∙ verify_accepts evp lawful key iv extra ct tag
                (crypt opening key iv ct ++ drop (length ct) received) refl
            ∙ ap (λ k. some (pos k, some (crypt opening key iv ct ++ drop k received))) size
            ∙ ap (λ t. some (pos n, some (t ++ drop n received)))
                (lawful.crypt_back key iv plaintext),
      )

  -- With OpenSSL's calls as documented, a packet whose tag is not the one of its IV, its ciphertext and
  -- the associated data under the receiver's key is refused. What was deciphered stays in the buffer.
  pub evp_wrong_tag_refused :
      (receiver : Context) (channel : ℕ) (key : List ℕ) (aad : Option (List ℕ)) (aad_len : ℤ)
      (extra iv ct tag rest output : List ℕ)
      → find_key receiver channel ≡ some key
      → aad_bytes aad aad_len ≡ some extra
      → length iv ≡ 12
      → length tag ≡ 16
      → length ct ≤ length output
      → tag ≢ mac key iv extra ct
      → evp_decrypt evp
          (some receiver)
          channel
          aad
          aad_len
          (some (iv ++ ct ++ tag ++ rest))
          (pos (28 + length ct))
          (some output)
          (pos (length output))
        ≡ some (minus_one, some (crypt opening key iv ct ++ drop (length ct) output))
  evp_wrong_tag_refused receiver channel key aad aad_len extra iv ct tag rest output receives
        authentic hi ht room wrong =
      evp_decrypt_lem receiver channel key receives aad aad_len extra authentic iv ct tag rest
        output hi ht room
      ∙ verify_refuses evp lawful key iv extra ct tag
          (crypt opening key iv ct ++ drop (length ct) output) ht wrong
