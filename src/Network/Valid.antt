-- ===== src/Network/Valid.antt =====
-- What holds of the socket of core/src/network.c between any two calls, and that connecting keeps it.
use audio_project.Base.{
  ℕ, zero, suc, ◌+◌, ◌-◌, ◌⊎◌, List, [], ◌∷◌, Option, none, some, Bool, true, false, ℤ, pos, negsuc,
  minus_one, leb, length, get_elem?, ◌≡◌, refl, ap, ◌∙◌, arith, inl, inr, Bool-cases, Option-cases,
}
use audio_project.Network.{
  Net, System, Answers, close_existing, forget, resolve, set_up, established, set_nonblocking,
  without, close_socket, freeaddrinfo,
}
use audio_project.Network.Strings.{length-overlay, length-strncpy, strncpy_behind}

abbrev pub held : Option ℕ → List ℕ
held none = []
held (some fd) = fd ∷ []

abbrev pub has_socket : Option ℕ → Bool
has_socket none = false
has_socket (some fd) = true

-- The system holds the handle's own socket and nothing else; `connected` says whether there is one; the
-- arrays keep their sizes, and the host's name its terminator.
pub record IsValid (net : Net) (sys : System) : Type 0 where
  pub opened : sys.open_sockets ≡ held net.sock
  pub freed : sys.address_lists ≡ 0
  pub agrees : net.connected ≡ has_socket net.sock
  pub host_room : length net.server_host ≡ 256
  pub terminated : get_elem? net.server_host 255 ≡ some 0
  pub addr_room : length net.addr_storage ≡ 128

-- A handle without a socket, and a system that holds nothing for it.
pub record Closed (net : Net) (sys : System) : Type 0 where
  pub valid : IsValid net sys
  pub no_socket : net.sock ≡ none

without_held : (fd : ℕ) → without fd (fd ∷ []) ≡ []
unfolding without
without_held fd = ground arith

pub forget-Closed :
    (net : Net) (sys : System) → IsValid net sys → Closed (forget net) (close_existing net sys)
unfolding forget close_existing without
forget-Closed net sys v = elim (Option-cases net.sock) [
  | inl q ↦ rw (forget, close_existing, q) (record { valid = v; no_socket = q })
  | inr (fd, q) ↦
      rw (forget, close_existing, q)
        (record {
          valid = record {
            opened = ap (without fd) (v.opened ∙ ap held q) ∙ without_held fd;
            freed = v.freed;
            agrees = refl;
            host_room = v.host_room;
            terminated = v.terminated;
            addr_room = v.addr_room;
          };
          no_socket = refl;
        })
]

pub established-IsValid :
    (net : Net) (fd : ℕ) (host : List ℕ) (port : ℕ) (address : List ℕ) (now : ℕ) (sys : System)
    → IsValid net sys
    → sys.open_sockets ≡ []
    → IsValid
        (established net fd host port address now)
        (record sys { open_sockets = fd ∷ sys.open_sockets })
unfolding established
established-IsValid net fd host port address now sys v closed = record {
  opened = ap (◌∷◌ fd) closed;
  freed = v.freed;
  agrees = refl;
  host_room = length-strncpy net.server_host host 255 (omega (arith, v.host_room)) ∙ v.host_room;
  terminated = strncpy_behind net.server_host host 255 ∙ v.terminated;
  addr_room = elim (Bool-cases (leb (length address) 128)) [
    | inl q ↦ rw q (length-overlay net.addr_storage address ∙ v.addr_room)
    | inr q ↦ rw q v.addr_room
  ];
}

abbrev looked_up : System → System
looked_up sys = record sys { address_lists = sys.address_lists + 1 }

abbrev with_socket : ℕ → System → System
with_socket fd sys = record sys { open_sockets = fd ∷ sys.open_sockets }

failed-IsValid :
    (net : Net) (sys sys' : System)
    → Closed net sys
    → sys'.open_sockets ≡ []
    → sys'.address_lists ≡ 0
    → IsValid (record net { sock = none }) sys'
failed-IsValid net sys sys' c e f = record {
  opened = e;
  freed = f;
  agrees = c.valid.agrees ∙ ap has_socket c.no_socket;
  host_room = c.valid.host_room;
  terminated = c.valid.terminated;
  addr_room = c.valid.addr_room;
}

nothing_open : (net : Net) (sys : System) → Closed net sys → sys.open_sockets ≡ []
nothing_open net sys c = c.valid.opened ∙ ap held c.no_socket

-- The new socket takes O_NONBLOCK, and `connect` succeeds.
abbrev pub Usable : Answers → Type 0
Usable answers =
    (set_nonblocking answers.flags answers.set_flags ≡ pos 0) × (answers.connects ≡ true)

-- Both outcomes of `set_up`.
pub set_up-cases :
    (net : Net) (fd : ℕ) (host : List ℕ) (port : ℕ) (address : List ℕ) (answers : Answers)
    (sys : System)
    → ((set_up net fd host port address answers sys
          ≡ (minus_one, record net { sock = none }, freeaddrinfo (close_socket fd sys)))
        × ¬ Usable answers)
      ⊎ (set_up net fd host port address answers sys
          ≡ (pos 0, established net fd host port address answers.now, freeaddrinfo sys))
        × Usable answers
unfolding set_up
set_up-cases net fd host port address answers sys =
    go (set_nonblocking answers.flags answers.set_flags) refl
  where
    go :
        (r : ℤ)
        → set_nonblocking answers.flags answers.set_flags ≡ r
        → ((set_up net fd host port address answers sys
              ≡ (minus_one, record net { sock = none }, freeaddrinfo (close_socket fd sys)))
            × ¬ Usable answers)
          ⊎ (set_up net fd host port address answers sys
              ≡ (pos 0, established net fd host port address answers.now, freeaddrinfo sys))
            × Usable answers
    go (pos zero) q = elim (Bool-cases answers.connects) [
      | inl e ↦ inr (rw (set_up, q, e) refl, (q, e))
      | inr e ↦ inl (rw (set_up, q, e) refl, λ u. cc (u.1, e))
    ]
    go (pos (suc n)) q = inl (rw (set_up, q) refl, λ u. cc (q, u.0))
    go (negsuc n) q = inl (rw (set_up, q) refl, λ u. cc (q, u.0))

set_up-IsValid :
    (net : Net) (fd : ℕ) (host : List ℕ) (port : ℕ) (address : List ℕ) (answers : Answers)
    (sys : System)
    → Closed net sys
    → IsValid
        (set_up net fd host port address answers (with_socket fd (looked_up sys))).1
        (set_up net fd host port address answers (with_socket fd (looked_up sys))).2
unfolding set_up established
set_up-IsValid net fd host port address answers sys c =
    let freed : sys.address_lists + 1 - 1 ≡ 0 = omega (arith, c.valid.freed) in
    let failed =
      failed-IsValid net sys (freeaddrinfo (close_socket fd (with_socket fd (looked_up sys)))) c
        (ap (λ t. without fd (fd ∷ t)) (nothing_open net sys c) ∙ without_held fd) freed in
    let good =
      established-IsValid net fd host port address answers.now sys c.valid
        (nothing_open net sys c) in
    let good' : IsValid (established net fd host port address answers.now)
        (freeaddrinfo (with_socket fd (looked_up sys))) =
      record {
        opened = good.opened;
        freed = freed;
        agrees = good.agrees;
        host_room = good.host_room;
        terminated = good.terminated;
        addr_room = good.addr_room;
      } in
    elim (set_up-cases net fd host port address answers (with_socket fd (looked_up sys))) [
      | inl (e, bad) ↦ rw e failed
      | inr (e, good) ↦ rw e good'
    ]

-- What `resolve` leaves is valid on each of its branches.
pub resolve-IsValid :
    (net : Net) (host : List ℕ) (port : ℕ) (answers : Answers) (sys : System)
    → Closed net sys
    → IsValid (resolve net host port answers sys).1 (resolve net host port answers sys).2
unfolding resolve
resolve-IsValid net host port answers sys c = elim (Option-cases answers.resolved) [
  | inl q ↦ rw (resolve, q) c.valid
  | inr (address, q) ↦ elim (Option-cases answers.socket) [
    | inl r ↦
        rw (resolve, q, r)
          (failed-IsValid net sys (freeaddrinfo (looked_up sys)) c (nothing_open net sys c)
            (omega (arith, c.valid.freed)))
    | inr (fd, r) ↦ rw (resolve, q, r) (set_up-IsValid net fd host port address answers sys c)
  ]
]
