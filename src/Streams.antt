-- ===== src/Streams.antt =====
-- The table of remote streams of core/src/audio_engine.c. Codec, clock and float values are parameters:
-- a call that creates a decoder or reads the clock takes the result as an argument. A pointer into the
-- table is its index, and NULL is `none`. The count of streams is an `int` that is taken down only for
-- an active stream, so it is a number here.
pub mod Search
pub mod Count
pub mod Update
mod Tests
use mathlib.Core.Option
use audio_project.Base.{
  ℕ, zero, suc, ◌+◌, ◌-◌, List, [], ◌∷◌, Option, none, some, Bool, true, false, ◌&&◌, ℤ, pos,
  positive?, ◌==◌, if◌then◌else◌, get_elem?, set,
}
use audio_project.Float.{Floats}
use audio_project.Jitter.{Jitter}
use audio_project.Jitter as Buffer
use audio_project.Rtp.Sequence.{Tracker, cleared}

-- AE_MAX_USERS_PER_CH
abbrev pub max_users : ℕ
max_users = 64

-- `remote_stream_t`, with the decoders of a type `D`.
pub record Stream (F D : Type 0) : Type 0 where
  pub client_id : ℕ
  pub active : Bool
  pub decoder : Option D
  pub jitter : Option (Jitter F)
  pub seq_tracker : Tracker
  pub volume : F
  pub volume_target : F
  pub last_recv_ms : ℕ

-- The fields of `struct ae_engine` that the table's functions use.
pub record Engine (F D : Type 0) : Type 0 where
  pub client_id : ℕ
  pub jitter_buffer_frames : ℤ
  pub streams : List (Stream F D)
  pub stream_count : ℕ
  pub active_streams : ℕ

module _ {F D : Type 0} where
  -- The loop of `find_stream` over the entries that are left.
  unfoldable pub find_among : List (Stream F D) → ℕ → Option ℕ
  find_among [] client = none
  find_among (s ∷ streams) client =
      let rest = find_among streams client in
      if s.active && (s.client_id == client) then some 0 else Option.map suc rest

  unfoldable pub find_stream : Engine F D → ℕ → Option ℕ
  find_stream e client = find_among e.streams client

  -- The search for an empty slot in `create_stream`.
  pub free_slot : List (Stream F D) → Option ℕ
  free_slot [] = none
  free_slot (s ∷ streams) =
      let rest = free_slot streams in if s.active then Option.map suc rest else some 0

  -- The assignments of `destroy_stream` to the entry.
  abbrev pub ended : Stream F D → Stream F D
  ended s = record s { active = false; decoder = none; jitter = none }

  pub destroy_stream : Engine F D → Option ℕ → Engine F D
  destroy_stream e none = e
  destroy_stream e (some i) = elim (get_elem? e.streams i) [
    | none ↦ e
    | some s ↦
        if s.active
        then record e {
          streams = set e.streams i (ended s);
          stream_count = e.stream_count - 1;
          active_streams = e.stream_count - 1;
        }
        else e
  ]

  -- The loop of `ae_engine_leave_channel` from entry `i` on, with `left` entries to go: the test on
  -- `active` is the one that `destroy_stream` makes once more.
  pub destroy_from : ℕ → ℕ → Engine F D → Engine F D
  destroy_from zero i e = e
  destroy_from (suc left) i e = destroy_from left (i + 1) (destroy_stream e (some i))

  pub destroy_all : Engine F D → Engine F D
  destroy_all e = destroy_from max_users 0 e

module _ (floats : Floats) {D : Type 0} where
  open floats use {F, one_f}

  -- The entry that `create_stream` fills in; `memory` is whether the jitter buffer's `calloc` succeeds.
  pub new_stream : Engine F D → ℕ → ℕ → Option D → Bool → Stream F D
  new_stream e client now decoder memory =
      let depth : ℕ = elim (positive? e.jitter_buffer_frames) [ none ↦ 3 | some n ↦ n ] in
      record {
        client_id = client;
        active = true;
        decoder = decoder;
        jitter = Buffer.create floats memory (pos depth) (pos 2) (pos Buffer.buf_frames);
        seq_tracker = cleared;
        volume = one_f;
        volume_target = one_f;
        last_recv_ms = now;
      }

  pub create_stream : Engine F D → ℕ → ℕ → Option D → Bool → Option ℕ × Engine F D
  create_stream e client now decoder memory =
      if client == e.client_id then (none, e) else elim (find_stream e client) [
        | some i ↦ (some i, e)
        | none ↦ elim (free_slot e.streams) [
          | none ↦ (none, e)
          | some i ↦ (
            some i,
            record e {
              streams = set e.streams i (new_stream e client now decoder memory);
              stream_count = e.stream_count + 1;
              active_streams = e.stream_count + 1;
            },
          )
        ]
      ]
