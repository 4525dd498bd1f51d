-- ===== src/Crypto/Tamper.antt =====
-- What `ae_crypto_decrypt` of core/src/crypto.c does with a packet or associated data that were changed.
use mathlib.Core.List.{append_assoc}
use mathlib.Core.Path.{subst}
use mathlib.Core.Option.{some-injective}
use audio_project.Base.{
  ℕ, ◌+◌, ◌-◌, ◌≤◌, ◌<◌, List, ◌++◌, ◌≡◌, ◌≢◌, refl, sym, ap, ◌∙◌, arith, Bool-cases, read_at-slice,
  take_all, ltb→lt, set_same, length, get_or, set, drop, length-append, replicate, Option, some, ℤ,
  pos, minus_one, ltb, set_behind, set_front, length-set, inl, inr,
}
use audio_project.Crypto.{compute_tag, xor_stream, aad_bytes, build_nonce, encrypt, decrypt}
use audio_project.Crypto.Table.{Context, find_key}
use audio_project.Crypto.Nonce.{length-build_nonce}
use audio_project.Crypto.Tag.{length-compute_tag, compute_tag-plaintext, compute_tag-aad}
use audio_project.Crypto.Stream.{xor_stream_twice, length-xor_stream, xor_stream-set}
use audio_project.Crypto.Packet.{sealed, refused}
use audio_project.Crypto.Exchange.{encrypt_lem, decrypt_lem}

-- A byte of the ciphertext exchanged.
set_ciphertext :
    (iv ct tag rest : List ℕ) (j v : ℕ)
    → length iv ≡ 12
    → j < length ct
    → set (iv ++ ct ++ tag ++ rest) (12 + j) v ≡ iv ++ set ct j v ++ tag ++ rest
set_ciphertext iv ct tag rest j v hi h =
    ap (λ t. set t (12 + j) v) (append_assoc (iv ++ ct) tag rest ∙ append_assoc iv ct (tag ++ rest))
    ∙ set_behind iv (ct ++ (tag ++ rest)) (12 + j) j v (omega arith)
    ∙ ap (λ t. iv ++ t) (set_front ct (tag ++ rest) j v h)
    ∙ sym (append_assoc iv (set ct j v) (tag ++ rest))
    ∙ sym (append_assoc (iv ++ set ct j v) tag rest)

-- A byte of the tag exchanged.
set_tag :
    (iv ct tag rest : List ℕ) (j k v : ℕ)
    → length iv ≡ 12
    → j ≡ length ct + k
    → k < length tag
    → set (iv ++ ct ++ tag ++ rest) (12 + j) v ≡ iv ++ ct ++ set tag k v ++ rest
set_tag iv ct tag rest j k v hi e h =
    ap (λ t. set t (12 + j) v) (append_assoc (iv ++ ct) tag rest)
    ∙ set_behind (iv ++ ct) (tag ++ rest) (12 + j) k v (omega (arith, length-append iv ct))
    ∙ ap (λ t. iv ++ ct ++ t) (set_front tag rest k v h)
    ∙ sym (append_assoc (iv ++ ct) (set tag k v) rest)

pub all_aad : (aad : List ℕ) (n : ℕ) → length aad ≡ n → aad_bytes (some aad) (pos n) ≡ some aad
unfolding aad_bytes
all_aad aad n e = read_at-slice aad 0 n (omega arith) ∙ ap some (take_all n aad (omega arith))

module _ (sender receiver : Context) (channel client sequence : ℕ) (key : List ℕ)
    (sends : find_key sender channel ≡ some key)
    (receives : find_key receiver channel ≡ some key) where
  changed_ciphertext :
      (aad : Option (List ℕ)) (aad_len : ℤ) (extra iv plaintext rest received : List ℕ) (j v : ℕ)
      → length iv ≡ 12
      → aad_bytes aad aad_len ≡ some extra
      → length plaintext ≤ length received
      → j < length plaintext
      → v ≢ get_or (xor_stream key iv plaintext) j 0
      → decrypt
          (some receiver)
          channel
          aad
          aad_len
          (some (
            iv ++ set (xor_stream key iv plaintext) j v ++ compute_tag key plaintext extra ++ rest))
          (pos (28 + length plaintext))
          (some received)
          (pos (length received))
        ≡ some
            (minus_one, some (replicate (length plaintext) 0 ++ drop (length plaintext) received))
  changed_ciphertext aad aad_len extra iv plaintext rest received j v hi ha room h new =
      let ct = xor_stream key iv plaintext in
      let tag = compute_tag key plaintext extra in
      let (w, e, back) =
        xor_stream-set key iv ct j v (omega (arith, length-xor_stream key iv plaintext)) in
      let twice : xor_stream key iv ct ≡ plaintext = xor_stream_twice key iv plaintext in
      let bytes = set plaintext j w in
      let plain : xor_stream key iv (set ct j v) ≡ bytes = e ∙ ap (λ t. set t j w) twice in
      let same : length bytes ≡ length plaintext = length-set plaintext j w in
      let differ : tag ≢ compute_tag key bytes extra = λ q. new (
        back (
          compute_tag-plaintext key plaintext extra j w h (sym q)
          ∙ ap (λ t. get_or t j 0) (sym twice))) in
      subst
        (λ n.
          decrypt (some receiver) channel aad aad_len (some (iv ++ set ct j v ++ tag ++ rest))
            (pos (28 + n)) (some received) (pos (length received))
          ≡ some (minus_one, some (replicate n 0 ++ drop n received)))
        same
        (decrypt_lem sender receiver channel client sequence key sends receives aad aad_len iv
            (set ct j v) tag rest received bytes extra hi (length-compute_tag key plaintext extra)
            plain ha (omega arith)
          ∙ ap some (
              refused key bytes extra tag received (length-compute_tag key plaintext extra) differ))

  changed_tag :
      (aad : Option (List ℕ)) (aad_len : ℤ) (extra iv plaintext tag rest received : List ℕ)
      → length iv ≡ 12
      → length tag ≡ 16
      → aad_bytes aad aad_len ≡ some extra
      → length plaintext ≤ length received
      → tag ≢ compute_tag key plaintext extra
      → decrypt
          (some receiver)
          channel
          aad
          aad_len
          (some (iv ++ xor_stream key iv plaintext ++ tag ++ rest))
          (pos (28 + length plaintext))
          (some received)
          (pos (length received))
        ≡ some
            (minus_one, some (replicate (length plaintext) 0 ++ drop (length plaintext) received))
  changed_tag aad aad_len extra iv plaintext tag rest received hi ht ha room new =
      decrypt_lem sender receiver channel client sequence key sends receives aad aad_len iv
        (xor_stream key iv plaintext) tag rest received plaintext extra hi ht
        (xor_stream_twice key iv plaintext) ha room
      ∙ ap some (refused key plaintext extra tag received ht new)

  packet_is :
      (aad : Option (List ℕ)) (aad_len : ℤ) (extra plaintext output packet : List ℕ) (sent : ℤ)
      → aad_bytes aad aad_len ≡ some extra
      → 28 + length plaintext ≤ length output
      → encrypt
          (some sender)
          channel
          client
          sequence
          aad
          aad_len
          (some plaintext)
          (pos (length plaintext))
          (some output)
          (pos (length output))
        ≡ some (sent, some packet)
      → packet
        ≡ sealed key (build_nonce channel client sequence) plaintext extra
          ++ drop (28 + length plaintext) output
  packet_is aad aad_len extra plaintext output packet sent ha room built = some-injective _ _ (
      ap (λ t. t.1)
        (some-injective _ _ (
          sym built
          ∙ encrypt_lem sender receiver channel client sequence key sends receives aad aad_len extra
              plaintext output ha room)))

  -- The packet after one byte of its ciphertext or its tag was exchanged for another is refused: the
  -- receiver gets -1, and zeros in place of the plaintext.
  pub changed_packet_refused :
      (aad : Option (List ℕ)) (aad_len : ℤ) (extra plaintext output received packet : List ℕ)
      (sent : ℤ) (j v : ℕ)
      → aad_bytes aad aad_len ≡ some extra
      → 28 + length plaintext ≤ length output
      → length plaintext ≤ length received
      → encrypt
          (some sender)
          channel
          client
          sequence
          aad
          aad_len
          (some plaintext)
          (pos (length plaintext))
          (some output)
          (pos (length output))
        ≡ some (sent, some packet)
      → j < length plaintext + 16
      → set packet (12 + j) v ≢ packet
      → decrypt
          (some receiver)
          channel
          aad
          aad_len
          (some (set packet (12 + j) v))
          (pos (28 + length plaintext))
          (some received)
          (pos (length received))
        ≡ some
            (minus_one, some (replicate (length plaintext) 0 ++ drop (length plaintext) received))
  unfolding sealed
  changed_packet_refused aad aad_len extra plaintext output received packet sent j v ha room room'
        built h new =
      let iv = build_nonce channel client sequence in
      let ct = xor_stream key iv plaintext in
      let tag = compute_tag key plaintext extra in
      let rest = drop (28 + length plaintext) output in
      let hi = length-build_nonce channel client sequence in
      let ht = length-compute_tag key plaintext extra in
      let lc = length-xor_stream key iv plaintext in
      let is : packet ≡ iv ++ ct ++ tag ++ rest =
        packet_is aad aad_len extra plaintext output packet sent ha room built in
      elim (Bool-cases (ltb j (length plaintext))) [
        | inl q ↦
            let within : j < length ct = omega (arith, lc, ltb→lt j (length plaintext) q) in
            let cut : set packet (12 + j) v ≡ iv ++ set ct j v ++ tag ++ rest =
              ap (λ t. set t (12 + j) v) is ∙ set_ciphertext iv ct tag rest j v hi within in
            ap
              (λ t.
                decrypt (some receiver) channel aad aad_len (some t) (pos (28 + length plaintext))
                  (some received) (pos (length received)))
              cut
            ∙ changed_ciphertext aad aad_len extra iv plaintext rest received j v hi ha room'
                (ltb→lt j (length plaintext) q)
                (λ e.
                  new
                    (cut ∙ ap (λ t. iv ++ t ++ tag ++ rest) (set_same ct j v 0 within e) ∙ sym is))
        | inr q ↦
            let k = j - length plaintext in
            let within : k < length tag = ground (arith, ht) in
            let cut : set packet (12 + j) v ≡ iv ++ ct ++ set tag k v ++ rest =
              ap (λ t. set t (12 + j) v) is
              ∙ set_tag iv ct tag rest j k v hi (ground (arith, lc)) within in
            ap
              (λ t.
                decrypt (some receiver) channel aad aad_len (some t) (pos (28 + length plaintext))
                  (some received) (pos (length received)))
              cut
            ∙ changed_tag aad aad_len extra iv plaintext (set tag k v) rest received hi
                (length-set tag k v ∙ ht) ha room'
                (λ e. new (cut ∙ ap (λ t. iv ++ ct ++ t ++ rest) e ∙ sym is))
      ]

  -- The receiver whose associated data differ in one byte from the sender's refuses the packet, and
  -- leaves zeros in place of the plaintext.
  pub changed_aad_refused :
      (aad plaintext output received packet : List ℕ) (sent : ℤ) (j v : ℕ)
      → 28 + length plaintext ≤ length output
      → length plaintext ≤ length received
      → encrypt
          (some sender)
          channel
          client
          sequence
          (some aad)
          (pos (length aad))
          (some plaintext)
          (pos (length plaintext))
          (some output)
          (pos (length output))
        ≡ some (sent, some packet)
      → j < length aad
      → v ≢ get_or aad j 0
      → decrypt
          (some receiver)
          channel
          (some (set aad j v))
          (pos (length aad))
          (some packet)
          (pos (28 + length plaintext))
          (some received)
          (pos (length received))
        ≡ some
            (minus_one, some (replicate (length plaintext) 0 ++ drop (length plaintext) received))
  unfolding sealed
  changed_aad_refused aad plaintext output received packet sent j v room room' built h new =
      let iv = build_nonce channel client sequence in
      let tag = compute_tag key plaintext aad in
      let aad' = set aad j v in
      let read : aad_bytes (some aad') (pos (length aad)) ≡ some aad' =
        all_aad aad' (length aad) (length-set aad j v) in
      let is =
        packet_is (some aad) (pos (length aad)) aad plaintext output packet sent
          (all_aad aad (length aad) refl) room built in
      ap
        (λ t.
          decrypt (some receiver) channel (some aad') (pos (length aad)) (some t)
            (pos (28 + length plaintext)) (some received) (pos (length received)))
        is
      ∙ changed_tag (some aad') (pos (length aad)) aad' iv plaintext tag
          (drop (28 + length plaintext) output) received
          (length-build_nonce channel client sequence) (length-compute_tag key plaintext aad) read
          room' (λ e. new (compute_tag-aad key plaintext aad j v h (sym e)))
