-- ===== src/Samples.antt =====
-- Numbers in place of floats, and a codec of two bytes in place of libopus, for runs of the code.
use audio_project.Base.{
  ℕ, suc, ◌+◌, ◌-◌, ◌*◌, ◌/◌, ◌≤◌, List, [], ◌∷◌, ◌++◌, ℤ, pos, negsuc, ltb, length, ◌≡◌, refl,
  arith,
}
use audio_project.Float.{Floats}
use audio_project.Opus.{Codec, Request}
use audio_project.Opus.Laws.{Lawful}

abbrev pub numbers : Floats
numbers = record {
  F = ℕ;
  zero_f = 0;
  one_f = 1;
  small_f = 1;
  of_int = λ n. n;
  add = λ a b. a + b;
  sub = λ a b. a - b;
  mul = λ a b. a * b;
  div = λ a b. a / b;
  abs = λ n. n;
  tanh = λ n. n;
  lt = ltb;
}

-- Two bytes stand for every frame, where there is room; the encoder is the list of its settings.
pub two_bytes : List ℕ → List ℕ
two_bytes (a ∷ b ∷ out) = 1 ∷ 2 ∷ out
two_bytes out = out

pub room_for : List ℕ → ℤ
room_for (a ∷ b ∷ out) = pos 2
room_for out = negsuc 1

abbrev pub toy_codec : (F : Type 0) → Codec F
toy_codec F = record {
  Encoder = List Request;
  Decoder = ℕ;
  encoder_ctl = λ e r. e ++ (r ∷ []);
  encode_float = λ e pcm n out size. (room_for out, two_bytes out, e);
  decode_float = λ d packet len pcm n fec. (pos 960, pcm, suc d);
}

two_bytes_room : (out : List ℕ) → length (two_bytes out) ≡ length out
unfolding two_bytes
two_bytes_room [] = refl
two_bytes_room (a ∷ []) = refl
two_bytes_room (a ∷ b ∷ out) = refl

two_bytes_fit : (out : List ℕ) (n : ℕ) → room_for out ≡ pos n → n ≤ length out
unfolding room_for
two_bytes_fit [] n e = absurd (cc e)
two_bytes_fit (a ∷ []) n e = absurd (cc e)
two_bytes_fit (a ∷ b ∷ out) n e = ground arith

pub toy_codec-Lawful : (F : Type 0) → Lawful (toy_codec F)
toy_codec-Lawful F = record {
  encode_room = λ e pcm out. two_bytes_room out;
  encode_fits = λ e pcm out n h. two_bytes_fit out n h;
  decode_room = λ d packet len pcm fec. refl;
}
