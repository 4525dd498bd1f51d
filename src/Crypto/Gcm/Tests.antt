-- ===== src/Crypto/Gcm/Tests.antt =====
-- Runs of the OpenSSL backend of core/src/crypto.c, with a context that keeps what it was given, and with
-- the stream and the tag of the other backend in place of AES and GHASH.
use audio_project.Base.{
  ℕ, List, [], ◌∷◌, ◌++◌, none, some, Bool, true, false, pos, minus_one, length, replicate, drop,
  Bool-cases, ◌==◌, ◌≡◌, ◌≢◌, refl, sym, ◌∙◌, arith, inl, inr, ap, get_or,
}
use audio_project.Crypto.{xor_stream, compute_tag, mix_from, fold_down, differences, aad_bytes}
use audio_project.Crypto.Stream.{
  length-xor_stream, xor_stream_twice, differences_eq, eq_differences,
}
use audio_project.Crypto.Tag.{length-compute_tag}
use audio_project.Crypto.Table.{Context, find_key, key_among, blank}
use audio_project.Crypto.Gcm.{Evp, evp_encrypt, evp_decrypt}
use audio_project.Crypto.Gcm.Laws.{Lawful}
use audio_project.Crypto.Gcm.Exchange.{evp_decrypt-evp_encrypt, evp_wrong_tag_refused}

data ToyCtx : Type 0 where
  unset picked_ctx sized_ctx : ToyCtx
  ready_ctx : List ℕ → List ℕ → List ℕ → ToyCtx
  done_ctx : List ℕ → List ℕ → List ℕ → List ℕ → ToyCtx
  expecting_ctx : List ℕ → List ℕ → List ℕ → List ℕ → List ℕ → ToyCtx

toy_aad : ToyCtx → List ℕ → Bool × ℕ × ToyCtx
toy_aad (ready_ctx key iv aad) more = (true, length more, ready_ctx key iv more)
toy_aad c more = (false, 0, c)

toy_update : ToyCtx → List ℕ → Bool × List ℕ × ToyCtx
toy_update (ready_ctx key iv aad) text = (true, xor_stream key iv text, done_ctx key iv aad text)
toy_update c text = (false, [], c)

toy_set_tag : ToyCtx → List ℕ → Bool × ToyCtx
toy_set_tag (done_ctx key iv aad sent) tag = (true, expecting_ctx key iv aad sent tag)
toy_set_tag c tag = (false, c)

toy_get_tag : ToyCtx → ℕ → Bool × List ℕ
toy_get_tag (done_ctx key iv aad text) size = (true, compute_tag key (xor_stream key iv text) aad)
toy_get_tag c size = (false, [])

toy_final : ToyCtx → Bool × List ℕ × ToyCtx
toy_final (expecting_ctx key iv aad sent tag) =
    (differences 0 tag (compute_tag key sent aad) == 0, [], expecting_ctx key iv aad sent tag)
toy_final c = (true, [], c)

abbrev toy_evp : Evp
toy_evp = record {
  CipherCtx = ToyCtx;
  ctx_new = some unset;
  init_cipher = λ m c. (true, picked_ctx);
  set_ivlen = λ c n. (true, sized_ctx);
  init_key = λ m c key iv. (true, ready_ctx key iv []);
  update_aad = λ m c aad. toy_aad c aad;
  update = λ m c text len. toy_update c text;
  final = λ m c. toy_final c;
  get_tag = toy_get_tag;
  set_tag = toy_set_tag;
}

toy_accepts :
    (key iv aad sent tag : List ℕ)
    → tag ≡ compute_tag key sent aad
    → toy_final (expecting_ctx key iv aad sent tag) ≡ (true, [], expecting_ctx key iv aad sent tag)
unfolding toy_final
toy_accepts key iv aad sent tag same = rw (toy_final, differences_eq tag _ same) refl

toy_refuses :
    (key iv aad sent tag : List ℕ)
    → length tag ≡ 16
    → tag ≢ compute_tag key sent aad
    → toy_final (expecting_ctx key iv aad sent tag) ≡ (false, [], expecting_ctx key iv aad sent tag)
unfolding toy_final
toy_refuses key iv aad sent tag ht other =
    elim (Bool-cases (differences 0 tag (compute_tag key sent aad) == 0)) [
      | inl q ↦ absurd (
          other
            (eq_differences tag _ (ht ∙ sym (length-compute_tag key sent aad)) (ground (arith, q))))
      | inr q ↦ rw (toy_final, q) refl
    ]

toy_evp-Lawful : Lawful toy_evp
unfolding toy_aad toy_update toy_set_tag toy_get_tag toy_final
toy_evp-Lawful = record {
  blank = unset;
  picked = λ m. picked_ctx;
  sized = λ m. sized_ctx;
  ready = λ m key iv aad. ready_ctx key iv aad;
  done = λ m key iv aad text. done_ctx key iv aad text;
  expecting = expecting_ctx;
  crypt = λ m key iv text. xor_stream key iv text;
  mac = λ key iv aad sent. compute_tag key sent aad;
  length_crypt = λ m key iv text. length-xor_stream key iv text;
  crypt_back = xor_stream_twice;
  length_mac = λ key iv aad sent. length-compute_tag key sent aad;
  new_law = refl;
  cipher_law = λ m. refl;
  ivlen_law = λ m. refl;
  key_law = λ m key iv h. refl;
  aad_law = λ m key iv aad. refl;
  text_law = λ m key iv aad text. refl;
  final_law = λ key iv aad text. refl;
  get_law = λ key iv aad text. refl;
  set_law = λ key iv aad sent tag h. refl;
  accept_law = toy_accepts;
  refuse_law = toy_refuses;
}

-- A table with a key for channel 7.
abbrev zero_key : List ℕ
zero_key = replicate 32 0

abbrev one_key : Context
one_key = record {
  keys = record { channel_id = 7; key = zero_key; active = true } ∷ replicate 63 blank;
  num_keys = 1;
}

finds_key : find_key one_key 7 ≡ some zero_key
unfolding find_key key_among
finds_key = refl

abbrev words : List ℕ
words = 3 ∷ 200 ∷ []

evp_decrypt-evp_encrypt_example :
    (packet : List ℕ) × (evp_encrypt toy_evp
        (some one_key)
        7
        5
        9
        none
        (pos 0)
        (some words)
        (pos 2)
        (some (replicate 40 0))
        (pos 40)
      ≡ some (pos 30, some packet))
    × (evp_decrypt toy_evp
          (some one_key)
          7
          none
          (pos 0)
          (some packet)
          (pos 30)
          (some (replicate 4 1))
          (pos 4)
        ≡ some (pos 2, some (words ++ drop 2 (replicate 4 1))))
unfolding aad_bytes
evp_decrypt-evp_encrypt_example =
    evp_decrypt-evp_encrypt toy_evp toy_evp-Lawful one_key one_key 7 5 9 zero_key none (pos 0) []
      words (replicate 40 0) (replicate 4 1) finds_key finds_key refl (omega arith) (omega arith)

tag_ends : get_or (compute_tag zero_key (5 ∷ 6 ∷ []) []) 15 0 ≡ 0
unfolding compute_tag mix_from fold_down
tag_ends = refl

-- All bytes of the tag are 1, where the last one ought to be 0.
evp_wrong_tag_refused_example :
    evp_decrypt toy_evp
      (some one_key)
      7
      none
      (pos 0)
      (some (replicate 12 0 ++ (5 ∷ 6 ∷ []) ++ replicate 16 1 ++ []))
      (pos 30)
      (some (replicate 4 1))
      (pos 4)
    ≡ some (
      minus_one,
      some (xor_stream zero_key (replicate 12 0) (5 ∷ 6 ∷ []) ++ drop 2 (replicate 4 1)),
    )
unfolding aad_bytes xor_stream toy_evp-Lawful
evp_wrong_tag_refused_example =
    evp_wrong_tag_refused toy_evp toy_evp-Lawful one_key 7 zero_key none (pos 0) [] (replicate 12 0)
      (5 ∷ 6 ∷ []) (replicate 16 1) [] (replicate 4 1) finds_key refl refl refl (omega arith)
      (λ e. absurd (omega (arith, tag_ends, ap (λ t. get_or t 15 0) e)))
