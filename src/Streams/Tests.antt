-- ===== src/Streams/Tests.antt =====
-- Runs of the stream table of core/src/audio_engine.c, with numbers in place of floats.
use audio_project.Base.{
  ℕ, ◌+◌, ◌-◌, ◌*◌, ◌/◌, ◌∷◌, ◌≡◌, refl, none, some, true, false, ltb, pos, replicate,
}
use audio_project.Float.{Floats}
use audio_project.Rtp.Sequence.{cleared}
use audio_project.Streams.{Stream, Engine, find_stream, find_among, create_stream}
use audio_project.Streams.Search.{count}
use audio_project.Streams.Count.{IsValid, Created, create_stream_refines}

abbrev numbers : Floats
numbers = record {
  F = ℕ;
  zero_f = 0;
  one_f = 1;
  small_f = 1;
  of_int = λ n. n;
  add = λ a b. a + b;
  sub = λ a b. a - b;
  mul = λ a b. a * b;
  div = λ a b. a / b;
  abs = λ n. n;
  tanh = λ n. n;
  lt = ltb;
}

-- A stream of client 7, whose decoder is a number, and an entry that is not used.
abbrev speaker : Stream ℕ ℕ
speaker = record {
  client_id = 7;
  active = true;
  decoder = some 1;
  jitter = none;
  seq_tracker = cleared;
  volume = 1;
  volume_target = 1;
  last_recv_ms = 100;
}

abbrev unused : Stream ℕ ℕ
unused = record {
  client_id = 0;
  active = false;
  decoder = none;
  jitter = none;
  seq_tracker = cleared;
  volume = 0;
  volume_target = 0;
  last_recv_ms = 0;
}

abbrev one_speaker : Engine ℕ ℕ
one_speaker = record {
  client_id = 5;
  jitter_buffer_frames = pos 3;
  streams = unused ∷ speaker ∷ replicate 62 unused;
  stream_count = 1;
  active_streams = 1;
}

one_speaker-IsValid : IsValid one_speaker
unfolding count
one_speaker-IsValid = record { room = refl; counted = refl; published = refl }

-- The engine makes no stream for itself, and finds the one that is there.
own_client_refused : create_stream numbers one_speaker 5 200 (some 2) true ≡ (none, one_speaker)
unfolding create_stream
own_client_refused = refl

finds_speaker : create_stream numbers one_speaker 7 200 (some 2) true ≡ (some 1, one_speaker)
unfolding create_stream find_stream find_among
finds_speaker = refl

create_stream_refines_example : Created numbers one_speaker 7 (some 1) one_speaker
create_stream_refines_example =
    create_stream_refines numbers one_speaker one_speaker 7 200 (some 2) true (some 1)
      one_speaker-IsValid finds_speaker
