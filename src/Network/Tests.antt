-- ===== src/Network/Tests.antt =====
-- Runs of core/src/network.c: a connection that works, and one whose socket refuses O_NONBLOCK.
use audio_project.Base.{
  ℕ, List, [], ◌∷◌, some, none, true, false, ℤ, pos, minus_one, replicate, ◌≡◌, refl, arith,
}
use audio_project.Network.{
  Net, System, Answers, create, connect, destroy, resolve, set_up, established, set_nonblocking,
  close_existing, forget, without, recv, datagram,
}
use audio_project.Network.Valid.{IsValid}
use audio_project.Network.Reach.{created, later, by_connect, nothing_held, create-IsValid, no_leak}
use audio_project.Network.Outcome.{Outcome, connect-Outcome, Received, recv_lem}

abbrev fresh : Net
fresh = record {
  sock = none;
  connected = false;
  last_send_time_ms = 0;
  last_keepalive_ms = 0;
  server_host = replicate 256 0;
  server_port = 0;
  addr_storage = replicate 128 0;
  addr_len = 0;
}

fresh_lem : create true ≡ some fresh
unfolding create
fresh_lem = refl

abbrev working : Answers
working = record {
  resolved = some (2 ∷ 0 ∷ 31 ∷ 144 ∷ []);
  socket = some 9;
  flags = pos 2;
  set_flags = pos 0;
  connects = true;
  now = 1000;
}

-- The host "ab".
abbrev host_name : List ℕ
host_name = 97 ∷ 98 ∷ []

abbrev online : Net
online = established fresh 9 host_name 8080 (2 ∷ 0 ∷ 31 ∷ 144 ∷ []) 1000

abbrev one_socket : System
one_socket = record { open_sockets = 9 ∷ []; address_lists = 0; outbox = [] }

connects :
    connect (some fresh) (some host_name) 8080 working nothing_held
    ≡ (pos 0, some online, one_socket)
unfolding connect resolve set_up set_nonblocking close_existing forget
connects = refl

refused :
    connect
      (some fresh)
      (some host_name)
      8080
      (record working { set_flags = minus_one })
      nothing_held
    ≡ (minus_one, some fresh, nothing_held)
unfolding connect resolve set_up set_nonblocking close_existing forget without
refused = refl

no_leak_example : IsValid online one_socket × ((destroy (some online) one_socket).open_sockets ≡ [])
no_leak_example =
    no_leak online one_socket
      (later (created fresh_lem) (by_connect (some host_name) 8080 working (pos 0) connects))

connect-Outcome_example :
    (net' : Net) × (sys' : System) × (status : ℤ) × (connect
        (some fresh)
        (some host_name)
        8080
        working
        nothing_held
      ≡ (status, some net', sys'))
    × IsValid net' sys'
    × Outcome working status net'
connect-Outcome_example =
    connect-Outcome fresh nothing_held host_name 8080 working (create-IsValid fresh fresh_lem)

recv_lem_example :
    (status : ℤ) × (buf' : List ℕ) × (recv
        (some online)
        (some (0 ∷ 0 ∷ 0 ∷ []))
        (pos 3)
        (datagram (5 ∷ 6 ∷ []))
      ≡ some (status, some buf'))
    × Received online (0 ∷ 0 ∷ 0 ∷ []) (datagram (5 ∷ 6 ∷ [])) status buf'
recv_lem_example = recv_lem online (0 ∷ 0 ∷ 0 ∷ []) (datagram (5 ∷ 6 ∷ [])) (omega arith)
