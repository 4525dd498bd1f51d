-- ===== src/Engine/Session/Tests.antt =====
-- Runs of the session calls of core/src/audio_engine.c on a new engine.
use audio_project.Base.{
  ℕ, List, [], ◌∷◌, none, some, true, false, pos, replicate, if◌then◌else◌, ◌≡◌, ◌⊎◌, refl, arith,
}
use audio_project.Samples.{numbers, toy_codec}
use audio_project.Opus.{Request}
use audio_project.Network.{Answers}
use audio_project.Engine.{AeEngine, World, ErrorCode, Creation, create, ae_ok, err_not_connected}
use audio_project.Engine.Ready.{Granted, Ready, create_ready, idle_world}
use audio_project.Engine.Channel.{channel_str_to_id}
use audio_project.Engine.Channel.Number.{channel_str_to_id-decimal, nothing, digit}
use audio_project.Engine.Session.{
  Greeting, destroy, connect, join_channel, leave_channel, leave_all_channels,
}
use audio_project.Engine.Session.Valid.{Valid}
use audio_project.Engine.Run.{no_socket_left, Reach-Valid, here, later, by_connect}
use audio_project.Engine.Session.Outcome.{connect_reports, Dialled}
use audio_project.Engine.Session.Total.{connect_total}
use audio_project.Engine.Session.Leave.{Left, NoStreams, leave_channel_ends}
use audio_project.Engine.Session.Join.{join_channel_gives, Entered}

abbrev all_granted : Creation (List Request)
all_granted = record {
  engine_memory = true;
  encoder_memory = true;
  opus_error = pos 0;
  opus = some [];
  capture_struct = true;
  capture_samples = true;
  playback_struct = true;
  playback_samples = true;
  mixer_memory = true;
  crypto_memory = true;
  network_memory = true;
}

granted : Granted all_granted []
granted = record {
  engine = refl;
  encoder = refl;
  no_error = refl;
  made = refl;
  capture_ok = (refl, refl);
  playback_ok = (refl, refl);
  mixer_ok = refl;
  crypto_ok = refl;
  network_ok = refl;
}

create_ready_example :
    (e : AeEngine (toy_codec ℕ)) × (create numbers (toy_codec ℕ) none all_granted ≡ some e)
    × Valid e idle_world
    × Ready numbers (toy_codec ℕ) e
    × (e.connected ≡ false)
    × (e.channel.active ≡ false)
create_ready_example = create_ready numbers (toy_codec ℕ) none all_granted [] granted

new_engine : AeEngine (toy_codec ℕ)
new_engine = (create_ready numbers (toy_codec ℕ) none all_granted [] granted).0

new_engine_made : create numbers (toy_codec ℕ) none all_granted ≡ some new_engine
unfolding new_engine
new_engine_made = (create_ready numbers (toy_codec ℕ) none all_granted [] granted).1

new_engine-Valid : Valid new_engine idle_world
unfolding new_engine
new_engine-Valid = (create_ready numbers (toy_codec ℕ) none all_granted [] granted).2

abbrev working : Answers
working = record {
  resolved = some (2 ∷ 0 ∷ 31 ∷ 144 ∷ []);
  socket = some 9;
  flags = pos 2;
  set_flags = pos 0;
  connects = true;
  now = 1000;
}

abbrev greeting : Greeting
greeting = record { now = 1001; sent_ms = 1002; answer = pos 20; ka_buf = replicate 20 0 }

-- "voice-7" and "voice"
abbrev seventh : List ℕ
seventh = 118 ∷ 111 ∷ 105 ∷ 99 ∷ 101 ∷ 45 ∷ 55 ∷ []

abbrev voice : List ℕ
voice = 118 ∷ 111 ∷ 105 ∷ 99 ∷ 101 ∷ []

dialled_up :
    (code : ErrorCode) × (e' : AeEngine (toy_codec ℕ)) × (world' : World) × (connect
        (some new_engine)
        (some voice)
        (pos 8080)
        working
        greeting
        idle_world
      ≡ some (code, some e', world'))
dialled_up =
    connect_total new_engine voice (pos 8080) working greeting idle_world new_engine-Valid refl

connect_reports_example :
    Valid dialled_up.1 dialled_up.2 × Dialled new_engine working dialled_up.0 dialled_up.1
connect_reports_example =
    connect_reports new_engine voice (pos 8080) working greeting idle_world dialled_up.0
      dialled_up.1 dialled_up.2 new_engine-Valid dialled_up.3

channel_str_to_id-decimal_example : channel_str_to_id (some seventh) ≡ some 7
channel_str_to_id-decimal_example =
    channel_str_to_id-decimal voice 55 [] (digit (omega arith) (omega arith) nothing) (omega arith)

-- The engine behind the connection.
online : AeEngine (toy_codec ℕ)
unfolding dialled_up
online = dialled_up.1

online-Valid : Valid online dialled_up.2
unfolding online
online-Valid =
    (connect_reports new_engine voice (pos 8080) working greeting idle_world dialled_up.0
      dialled_up.1 dialled_up.2 new_engine-Valid dialled_up.3).0

seventh_number : channel_str_to_id (some seventh) ≡ some 7
seventh_number =
    channel_str_to_id-decimal voice 55 [] (digit (omega arith) (omega arith) nothing) (omega arith)

join_channel_gives_example :
    (code : ErrorCode) × (e' : AeEngine (toy_codec ℕ)) × (join_channel numbers
        (some online)
        (some seventh)
      ≡ some (code, some e'))
    × Valid e' dialled_up.2
    × (((online.connected ≡ true)
          × (code ≡ ae_ok)
          × Entered numbers seventh e'
          × (e'.channel.channel_id_num ≡ 7)
          × Left online e')
        ⊎ (online.connected ≡ false) × (code ≡ err_not_connected) × (e' ≡ online))
join_channel_gives_example =
    join_channel_gives numbers online seventh 7 dialled_up.2 online-Valid seventh_number

Reach-Valid_example : Valid dialled_up.1 dialled_up.2
Reach-Valid_example =
    Reach-Valid numbers new_engine idle_world dialled_up.1 dialled_up.2
      (later here (by_connect (some voice) (pos 8080) working greeting dialled_up.0 dialled_up.3))
      new_engine-Valid

no_socket_left_example : (destroy (some dialled_up.1) dialled_up.2).system.open_sockets ≡ []
no_socket_left_example =
    no_socket_left numbers none all_granted [] new_engine dialled_up.1 dialled_up.2 granted
      new_engine_made
      (later here (by_connect (some voice) (pos 8080) working greeting dialled_up.0 dialled_up.3))

leave_channel_ends_example :
    (e' : AeEngine (toy_codec ℕ)) × (leave_channel (some online) (some seventh) ≡ (ae_ok, some e'))
    × (leave_all_channels (some online) ≡ some (if online.channel.active then e' else online))
    × Valid e' dialled_up.2
    × (e'.channel.active ≡ false)
    × (e'.transmitting ≡ false)
    × NoStreams e'
leave_channel_ends_example = leave_channel_ends online seventh dialled_up.2 online-Valid
