-- ===== src/Rtp/Tests.antt =====
-- core/src/rtp.c on small inputs, and its theorems at inputs that meet their hypotheses.
use audio_project.Base.{
  ℕ, ◌+◌, ◌-◌, ◌%◌, ◌^◌, ◌≤◌, ◌<◌, List, [], ◌∷◌, ◌++◌, some, pos, minus_one, length, replicate,
  ◌≡◌, ◌≢◌, ◌⊎◌, arith,
}
use audio_project.Rtp.{Header, build_packet, parse_header, get_payload}
use audio_project.Rtp.Layout.{IsHeader}
use audio_project.Rtp.Packet.{parse-build_packet, packet_bytes}
use audio_project.Rtp.Overrun.{build_packet_safe}
use audio_project.Rtp.Sequence.{Tracker, cleared, track, feed}
use audio_project.Rtp.Sequence.Laws.{
  consecutive, feed-consecutive, track_accounts, early_late_rejected,
}

abbrev audio : Header
audio = record {
  server_id = 1;
  channel_id = 2;
  client_id = 2 ^ 40 + 3;
  packet_type = 0;
  flags = 1;
  payload_length = 0;
}

audio-IsHeader : IsHeader audio
audio-IsHeader = omega arith

abbrev payload : List ℕ
payload = 9 ∷ 8 ∷ 7 ∷ []

abbrev buffer : List ℕ
buffer = replicate 30 0

parse-build_packet_example :
    (packet : List ℕ) × (build_packet (some audio) (some payload) (pos 3) (some buffer) (pos 30)
      ≡ some (pos 23, some packet))
    × (parse_header (some packet) (pos 23) (some audio)
        ≡ some (pos 0, some (record audio { payload_length = 3 })))
    × (get_payload (some packet) (pos 23) ≡ some (payload ++ replicate 7 0))
parse-build_packet_example =
    parse-build_packet audio audio payload 3 buffer 30 23 audio-IsHeader (omega arith) (omega arith)
      (omega arith) (omega arith) (omega arith)

build_packet_safe_example :
    (((22 < 20 + 3) ⊎ (1500 < 20 + 3))
      × (build_packet (some audio) (some payload) (pos 3) (some buffer) (pos 22)
          ≡ some (minus_one, some buffer)))
    ⊎ ((20 + 3 ≤ 22)
        × (20 + 3 ≤ 1500)
        × (build_packet (some audio) (some payload) (pos 3) (some buffer) (pos 22)
            ≡ some (pos (20 + 3), some (packet_bytes audio payload 3 buffer)))
        × (length (packet_bytes audio payload 3 buffer) ≡ length buffer))
build_packet_safe_example =
    build_packet_safe audio payload 3 buffer 22 (omega arith) (omega arith) (omega arith)

-- Across the wrap.
feed-consecutive_example :
    let (kinds, t) = feed cleared (consecutive (2 ^ 32 - 2) 4) in
    (kinds ≡ replicate 4 (pos 0))
    × (t.next_seq ≡ (2 ^ 32 - 2 + 4) % 2 ^ 32)
    × (t.received ≡ 4)
    × (t.lost ≡ 0)
    × (t.reordered ≡ 0)
feed-consecutive_example = feed-consecutive 3 (2 ^ 32 - 2) (omega arith) (omega arith)

-- Ten packets seen, 20 being expected, three lost.
abbrev early : Tracker
early = record { next_seq = 20; max_seq = 19; received = 10; lost = 3; reordered = 0 }

track_accounts_example :
    let (kind, t) = track early 25 in
    (t.received ≡ 11)
    × (((kind ≡ pos 0) × (t.next_seq ≡ 26) × ((t.lost + 20) % 2 ^ 32 ≡ 28) × (t.reordered ≡ 0))
        ⊎ ((kind ≢ pos 0)
            × (25 < 20)
            × (t.next_seq ≡ 20)
            × (t.max_seq ≡ 19)
            × (t.lost ≤ 3)
            × (3 ≤ t.lost + 1)))
track_accounts_example =
    track_accounts early 25 (omega arith) (omega arith) (omega arith) (omega arith) (omega arith)

early_late_rejected_example :
    let (kind, t) = track early 15 in (kind ≡ minus_one) × (t.lost ≡ 3) × (t.reordered ≡ 0)
early_late_rejected_example =
    early_late_rejected early 15 (omega arith) (omega arith) (omega arith) (omega arith)
      (omega arith)

abbrev later_on : Tracker
later_on = record { next_seq = 2000; max_seq = 1999; received = 10; lost = 3; reordered = 0 }
