-- ===== src/Crypto/Gcm/Laws.antt =====
-- What OpenSSL documents of the EVP calls in core/src/crypto.c, for an AES-256-GCM context.
use audio_project.Base.{ℕ, List, [], some, true, false, pos, length, ◌≡◌, ◌≢◌}
use audio_project.Crypto.Gcm.{Evp, Mode, sealing, opening}

-- The contexts that the calls give, and what they write: a text is as long as its ciphertext, opening
-- undoes sealing, `final` writes nothing, and an opening context accepts exactly the tag of what it read.
pub record Lawful (evp : Evp) : Type 0 where
  pub blank : evp.CipherCtx
  pub picked : Mode → evp.CipherCtx
  pub sized : Mode → evp.CipherCtx
  pub ready : Mode → List ℕ → List ℕ → List ℕ → evp.CipherCtx
  pub done : Mode → List ℕ → List ℕ → List ℕ → List ℕ → evp.CipherCtx
  pub expecting : List ℕ → List ℕ → List ℕ → List ℕ → List ℕ → evp.CipherCtx
  pub crypt : Mode → List ℕ → List ℕ → List ℕ → List ℕ
  pub mac : List ℕ → List ℕ → List ℕ → List ℕ → List ℕ
  pub length_crypt : (m : Mode) (key iv text : List ℕ) → length (crypt m key iv text) ≡ length text
  pub crypt_back : (key iv text : List ℕ) → crypt opening key iv (crypt sealing key iv text) ≡ text
  pub length_mac : (key iv aad sent : List ℕ) → length (mac key iv aad sent) ≡ 16
  pub new_law : evp.ctx_new ≡ some blank
  pub cipher_law : (m : Mode) → evp.init_cipher m blank ≡ (true, picked m)
  pub ivlen_law : (m : Mode) → evp.set_ivlen (picked m) 12 ≡ (true, sized m)
  pub key_law :
      (m : Mode) (key iv : List ℕ)
      → length iv ≡ 12
      → evp.init_key m (sized m) key iv ≡ (true, ready m key iv [])
  pub aad_law :
      (m : Mode) (key iv aad : List ℕ)
      → evp.update_aad m (ready m key iv []) aad ≡ (true, length aad, ready m key iv aad)
  pub text_law :
      (m : Mode) (key iv aad text : List ℕ)
      → evp.update m (ready m key iv aad) text (pos (length text))
        ≡ (true, crypt m key iv text, done m key iv aad text)
  pub final_law :
      (key iv aad text : List ℕ)
      → evp.final sealing (done sealing key iv aad text) ≡ (true, [], done sealing key iv aad text)
  pub get_law :
      (key iv aad text : List ℕ)
      → evp.get_tag (done sealing key iv aad text) 16
        ≡ (true, mac key iv aad (crypt sealing key iv text))
  pub set_law :
      (key iv aad sent tag : List ℕ)
      → length tag ≡ 16
      → evp.set_tag (done opening key iv aad sent) tag ≡ (true, expecting key iv aad sent tag)
  pub accept_law :
      (key iv aad sent tag : List ℕ)
      → tag ≡ mac key iv aad sent
      → evp.final opening (expecting key iv aad sent tag)
        ≡ (true, [], expecting key iv aad sent tag)
  pub refuse_law :
      (key iv aad sent tag : List ℕ)
      → length tag ≡ 16
      → tag ≢ mac key iv aad sent
      → evp.final opening (expecting key iv aad sent tag)
        ≡ (false, [], expecting key iv aad sent tag)
