-- ===== src/Crypto/Gcm/Steps.antt =====
-- The EVP calls in core/src/crypto.c one by one, and the bodies of `ae_crypto_encrypt` and
-- `ae_crypto_decrypt` around them.
use mathlib.Core.List.{append_assoc}
use audio_project.Base.{
  ℕ, zero, suc, ◌+◌, ◌≤◌, List, [], ◌++◌, Option, none, some, Bool, true, ℤ, pos, negsuc, minus_one,
  length, length-append, length-drop, drop, drop-drop, take_all, read_at, write_at, read_at-slice,
  read_behind, write_behind, if◌then◌else◌, ◌>>=◌, ◌≡◌, ◌≢◌, refl, sym, ap, ◌∙◌, arith,
}
use audio_project.Crypto.{aad_bytes}
use audio_project.Crypto.Gcm.{
  Evp, Mode, sealing, opening, choose_ivlen, with_key, with_aad, with_text, finish, evp_seal,
  expect_tag, verify, evp_unseal,
}
use audio_project.Crypto.Gcm.Laws.{Lawful}

module _ (evp : Evp) (lawful : Lawful evp) where
  open lawful use {blank, ready, done, expecting, crypt, mac}

  with_key_lem :
      (m : Mode) (key iv from : List ℕ)
      → read_at from 0 12 ≡ some iv
      → length iv ≡ 12
      → with_key evp m (choose_ivlen evp (evp.init_cipher m blank)) key from
        ≡ some (true, ready m key iv [])
  unfolding with_key choose_ivlen
  with_key_lem m key iv from reads long =
      ap (λ p. with_key evp m (choose_ivlen evp p) key from) (lawful.cipher_law m)
      ∙ ap (λ p. with_key evp m p key from) (lawful.ivlen_law m)
      ∙ ap (λ o. o >>= (λ v. some (evp.init_key m (lawful.sized m) key v))) reads
      ∙ ap some (lawful.key_law m key iv long)

  with_aad_lem :
      (m : Mode) (key iv extra : List ℕ) (aad : Option (List ℕ)) (aad_len : ℤ)
      → aad_bytes aad aad_len ≡ some extra
      → (n : ℕ) × (with_aad evp m (true, ready m key iv []) aad aad_len
          ≡ some (true, n, ready m key iv extra))
  unfolding with_aad aad_bytes read_at
  with_aad_lem m key iv extra none aad_len h =
      (0, ap (λ o. o >>= (λ t. some (true, 0, ready m key iv t))) h)
  with_aad_lem m key iv extra (some aad) (pos zero) h =
      (0, ap (λ o. o >>= (λ t. some (true, 0, ready m key iv t))) h)
  with_aad_lem m key iv extra (some aad) (negsuc n) h =
      (0, ap (λ o. o >>= (λ t. some (true, 0, ready m key iv t))) h)
  with_aad_lem m key iv extra (some aad) (pos (suc n)) h = (
    length extra,
    ap (λ o. o >>= (λ t. some (evp.update_aad m (ready m key iv []) t))) h
        ∙ ap some (lawful.aad_law m key iv extra),
  )

  with_text_lem :
      (m : Mode) (key iv extra input output output' text : List ℕ) (k off n at : ℕ)
      → read_at input off n ≡ some text
      → length text ≡ n
      → write_at output at (crypt m key iv text) ≡ some output'
      → with_text evp m (true, k, ready m key iv extra) input off (pos n) output at
        ≡ some (true, n, output', done m key iv extra text)
  unfolding with_text
  with_text_lem m key iv extra input output output' text k off n at reads long writes =
      let after : Bool × List ℕ × evp.CipherCtx → Option (Bool × ℕ × List ℕ × evp.CipherCtx) =
        λ r. write_at output at r.1 >>= (λ o. some (r.0, length r.1, o, r.2)) in
      let size = lawful.length_crypt m key iv text in
      ap (λ o. o >>= (λ t. after (evp.update m (ready m key iv extra) t (pos n)))) reads
      ∙ ap (λ k. after (evp.update m (ready m key iv extra) text (pos k))) (sym long)
      ∙ ap after (lawful.text_law m key iv extra text)
      ∙ ap
          (λ o. o >>= (λ t. some (true, length (crypt m key iv text), t, done m key iv extra text)))
          writes
      ∙ ap (λ k. some (true, k, output', done m key iv extra text)) (size ∙ long)

  finish_lem :
      (key iv extra text output output' : List ℕ)
      → write_at output (12 + length text) (mac key iv extra (crypt sealing key iv text))
        ≡ some output'
      → finish evp (true, length text, output, done sealing key iv extra text)
        ≡ some (pos (28 + length text), some output')
  unfolding finish write_at
  finish_lem key iv extra text output output' writes =
      let n = length text in
      let tail : Bool × List ℕ → ℕ → List ℕ → Option (ℤ × Option (List ℕ)) = λ t at a.
        write_at a at t.1 >>= (λ b. some (if t.0 then pos (at + 16) else minus_one, some b)) in
      let after : Bool × List ℕ × evp.CipherCtx → Option (ℤ × Option (List ℕ)) = λ r.
        write_at output (12 + n) r.1 >>= (λ a.
          if r.0
          then tail (evp.get_tag r.2 16) (12 + n + length r.1) a
          else some (minus_one, some a)) in
      ap after (lawful.final_law key iv extra text)
      ∙ ap (λ t. tail t (12 + n + 0) output) (lawful.get_law key iv extra text)
      ∙ ap (λ k. tail (true, mac key iv extra (crypt sealing key iv text)) k output) (omega arith)
      ∙ ap (λ o. o >>= (λ b. some (pos (12 + n + 16), some b))) writes
      ∙ ap (λ k. some (pos k, some output')) (omega arith)

  -- IV || ciphertext || tag.
  abbrev pub evp_packet : List ℕ → List ℕ → List ℕ → List ℕ → List ℕ
  evp_packet key iv extra text =
      iv ++ crypt sealing key iv text ++ mac key iv extra (crypt sealing key iv text)

  pub evp_seal_lem :
      (key iv extra plaintext output : List ℕ) (aad : Option (List ℕ)) (aad_len : ℤ)
      → length iv ≡ 12
      → aad_bytes aad aad_len ≡ some extra
      → 28 + length plaintext ≤ length output
      → evp_seal evp key iv aad aad_len plaintext (pos (length plaintext)) output
        ≡ some (
          pos (28 + length plaintext),
          some (evp_packet key iv extra plaintext ++ drop (28 + length plaintext) output),
        )
  unfolding evp_seal
  evp_seal_lem key iv extra plaintext output aad aad_len long ha room =
      let n = length plaintext in
      let ct = crypt sealing key iv plaintext in
      let tag = mac key iv extra ct in
      let lc : length ct ≡ n = lawful.length_crypt sealing key iv plaintext in
      let lt : length tag ≡ 16 = lawful.length_mac key iv extra ct in
      let rest1 = drop (length iv) output in
      let rest2 = drop (length ct) rest1 in
      let (k, authenticated) = with_aad_lem sealing key iv extra aad aad_len ha in
      let whole : (src : List ℕ) → read_at src 0 (length src) ≡ some src = λ src.
        read_at-slice src 0 (length src) (omega arith)
        ∙ ap some (take_all (length src) src (omega arith)) in
      let started : read_at iv 0 12 ≡ some iv = ap (read_at iv 0) (sym long) ∙ whole iv in
      let texted =
        with_text_lem sealing key iv extra plaintext (iv ++ rest1) (iv ++ ct ++ rest2) plaintext k 0
          n 12 (whole plaintext) refl
          (write_behind iv rest1 ct 12 (sym long)
            (omega (arith, length-drop (length iv) output))) in
      let finished =
        finish_lem key iv extra plaintext (iv ++ ct ++ rest2)
          (iv ++ ct ++ tag ++ drop (length tag) rest2)
          (write_behind (iv ++ ct) rest2 tag (12 + n) (omega (arith, length-append iv ct))
            (omega (arith, length-drop (length iv) output, length-drop (length ct) rest1))) in
      rw
        (
          evp_seal,
          write_behind [] output iv 0 refl (omega arith),
          lawful.new_law,
          with_key_lem sealing key iv iv started long,
          authenticated,
          texted,
          finished,
          ◌>>=◌,
        )
        (ap (λ t. some (pos (28 + n), some (iv ++ ct ++ tag ++ t)))
          (ap (drop (length tag)) (drop-drop (length iv) (length ct) output)
            ∙ drop-drop (length iv + length ct) (length tag) output
            ∙ ap (λ t. drop t output) (omega arith)))

  -- A packet comes to its last step: the deciphered text is in the buffer, and the tag is expected.
  pub evp_unseal_lem :
      (key iv ct tag rest extra output : List ℕ) (aad : Option (List ℕ)) (aad_len : ℤ)
      → length iv ≡ 12
      → length tag ≡ 16
      → aad_bytes aad aad_len ≡ some extra
      → length ct ≤ length output
      → evp_unseal evp key aad aad_len (iv ++ ct ++ tag ++ rest) (length ct) output
        ≡ verify evp (
          true,
          length ct,
          crypt opening key iv ct ++ drop (length ct) output,
          expecting key iv extra ct tag,
        )
  unfolding evp_unseal expect_tag verify
  evp_unseal_lem key iv ct tag rest extra output aad aad_len hi ht ha room =
      let n = length ct in
      let input = iv ++ ct ++ tag ++ rest in
      let text = crypt opening key iv ct in
      let lc : length text ≡ n = lawful.length_crypt opening key iv ct in
      let behind_ct : input ≡ iv ++ ct ++ (tag ++ rest) = append_assoc (iv ++ ct) tag rest in
      let behind_iv : input ≡ iv ++ (ct ++ (tag ++ rest)) =
        behind_ct ∙ append_assoc iv ct (tag ++ rest) in
      let output' = text ++ drop n output in
      let (k, authenticated) = with_aad_lem opening key iv extra aad aad_len ha in
      let iv_read : read_at input 0 12 ≡ some iv =
        ap (λ t. read_at t 0 12) behind_iv
        ∙ read_behind [] iv (ct ++ (tag ++ rest)) 0 12 refl (sym hi) in
      let ct_read : read_at input 12 n ≡ some ct =
        ap (λ t. read_at t 12 n) behind_iv ∙ read_behind iv ct (tag ++ rest) 12 n (sym hi) refl in
      let tag_read : read_at input (12 + n) 16 ≡ some tag =
        ap (λ t. read_at t (12 + n) 16) behind_ct
        ∙ read_behind (iv ++ ct) tag rest (12 + n) 16 (omega (arith, length-append iv ct))
            (sym ht) in
      let texted =
        with_text_lem opening key iv extra input output output' ct k 12 n 0 ct_read refl (
          write_behind [] output text 0 refl (omega (arith, lc))
          ∙ ap (λ k. some (text ++ drop k output)) lc) in
      let expected : expect_tag evp (true, n, output', done opening key iv extra ct) input (12 + n)
          ≡ some (true, n, output', expecting key iv extra ct tag) =
        ap
          (λ o. o >>= (λ t.
            let r = evp.set_tag (done opening key iv extra ct) t in some (r.0, n, output', r.1)))
          tag_read
        ∙ ap (λ r. some (r.0, n, output', r.1)) (lawful.set_law key iv extra ct tag ht) in
      rw
        (
          evp_unseal,
          lawful.new_law,
          with_key_lem opening key iv input iv_read hi,
          authenticated,
          texted,
          expected,
          ◌>>=◌,
        )
        refl

  module _ (key iv extra ct tag output : List ℕ) where
    abbrev pub last_step : Option (ℤ × Option (List ℕ))
    last_step = verify evp (true, length ct, output, expecting key iv extra ct tag)

    pub verify_accepts : tag ≡ mac key iv extra ct → last_step ≡ some (pos (length ct), some output)
    unfolding verify write_at
    verify_accepts same =
        ap
          (λ (r : Bool × List ℕ × evp.CipherCtx).
            write_at output (length ct) r.1
            >>= (λ a. some (if r.0 then pos (length ct + length r.1) else minus_one, some a)))
          (lawful.accept_law key iv extra ct tag same)
        ∙ ap (λ k. some (pos k, some output)) (omega arith)

    pub verify_refuses :
        length tag ≡ 16 → tag ≢ mac key iv extra ct → last_step ≡ some (minus_one, some output)
    unfolding verify write_at
    verify_refuses ht other =
        ap
          (λ (r : Bool × List ℕ × evp.CipherCtx).
            write_at output (length ct) r.1
            >>= (λ a. some (if r.0 then pos (length ct + length r.1) else minus_one, some a)))
          (lawful.refuse_law key iv extra ct tag ht other)
