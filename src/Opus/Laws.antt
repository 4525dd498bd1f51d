-- ===== src/Opus/Laws.antt =====
-- What the documentation of libopus promises of the calls in core/src/opus_codec.c, and what the
-- wrapper's functions keep of it.
use audio_project.Base.{
  ℕ, suc, ◌≤◌, List, Option, none, some, Bool, false, ℤ, pos, minus_one, positive?, length, inl,
  inr, ◌≡◌, refl, Option-cases,
}
use audio_project.Opus.{Codec, OpusEncoder, OpusDecoder, frame_size, encode, decode, decode_plc}

-- At most `max_data_bytes` bytes are written, and no more than `frame_size` samples; an array keeps its
-- size.
pub record Lawful {F : Type 0} (codec : Codec F) : Type 0 where
  pub encode_room :
      (e : codec.Encoder) (pcm : List F) (out : List ℕ)
      → length (codec.encode_float e pcm frame_size out (pos (length out))).1 ≡ length out
  pub encode_fits :
      (e : codec.Encoder) (pcm : List F) (out : List ℕ) (n : ℕ)
      → (codec.encode_float e pcm frame_size out (pos (length out))).0 ≡ pos n
      → n ≤ length out
  pub decode_room :
      (d : codec.Decoder) (packet : Option (List ℕ)) (len : ℤ) (pcm : List F) (fec : Bool)
      → length (codec.decode_float d packet len pcm frame_size fec).1 ≡ length pcm

module _ {F : Type 0} (codec : Codec F) (lawful : Lawful codec) where
  open codec use {Encoder, Decoder, encode_float, decode_float}

  -- The result of `encode` for arrays that are there: the buffer keeps its size, and the encoded length
  -- is within it.
  pub encode_lem :
      (enc : Option (OpusEncoder Encoder)) (pcm : List F) (out : List ℕ)
      → (ret : ℤ) × (out' : List ℕ) × (enc' : Option (OpusEncoder Encoder)) × (encode codec enc
            (some pcm)
            (some out)
            (pos (length out))
          ≡ (ret, some out', enc'))
        × (length out' ≡ length out)
        × ((n : ℕ) → ret ≡ pos (suc n) → suc n ≤ length out)
  unfolding encode
  encode_lem none pcm out = (minus_one, out, none, refl, refl, λ n e. absurd (cc e))
  encode_lem (some enc) pcm out = elim (Option-cases enc.opus) [
    | inl q ↦ (minus_one, out, some enc, simp (encode, q), refl, λ n e. absurd (cc e))
    | inr (opus, q) ↦
        let r = encode_float opus pcm frame_size out (pos (length out)) in
        (
          r.0,
          r.1,
          some (record { opus = some r.2 }),
          rw (encode, q) refl,
          lawful.encode_room opus pcm out,
          λ n e. lawful.encode_fits opus pcm out (suc n) e,
        )
  ]

  pub decode_lem :
      (dec : Option (OpusDecoder Decoder)) (packet : Option (List ℕ)) (len : ℤ) (pcm : List F)
      → (ret : ℤ) × (pcm' : List F) × (dec' : Option (OpusDecoder Decoder)) × (decode codec dec
            packet len
            (some pcm)
          ≡ (ret, some pcm', dec'))
        × (length pcm' ≡ length pcm)
  unfolding decode
  decode_lem none packet len pcm = (minus_one, pcm, none, refl, refl)
  decode_lem (some dec) none len pcm = (minus_one, pcm, some dec, refl, refl)
  decode_lem (some dec) (some packet) len pcm = elim (Option-cases dec.opus) [
    | inl q ↦ (minus_one, pcm, some dec, simp (decode, q), refl)
    | inr (opus, q) ↦ elim (Option-cases (positive? len)) [
      | inl t ↦ (minus_one, pcm, some dec, simp (decode, q, t), refl)
      | inr (n, t) ↦
          let r = decode_float opus (some packet) len pcm frame_size false in
          (
            r.0,
            r.1,
            some (record { opus = some r.2 }),
            rw (decode, q, t) refl,
            lawful.decode_room opus (some packet) len pcm false,
          )
    ]
  ]

  pub decode_plc_lem :
      (dec : Option (OpusDecoder Decoder)) (pcm : List F)
      → (ret : ℤ) × (pcm' : List F) × (dec' : Option (OpusDecoder Decoder)) × (decode_plc codec dec
            (some pcm)
          ≡ (ret, some pcm', dec'))
        × (length pcm' ≡ length pcm)
  unfolding decode_plc
  decode_plc_lem none pcm = (minus_one, pcm, none, refl, refl)
  decode_plc_lem (some dec) pcm = elim (Option-cases dec.opus) [
    | inl q ↦ (minus_one, pcm, some dec, simp (decode_plc, q), refl)
    | inr (opus, q) ↦
        let r = decode_float opus none (pos 0) pcm frame_size false in
        (
          r.0,
          r.1,
          some (record { opus = some r.2 }),
          rw (decode_plc, q) refl,
          lawful.decode_room opus none (pos 0) pcm false,
        )
  ]
