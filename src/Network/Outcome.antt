-- ===== src/Network/Outcome.antt =====
-- What `ae_net_connect`, `ae_net_send` and `ae_net_recv` of core/src/network.c report.
use mathlib.Core.Option.{none-ne-some}
use audio_project.Base.{
  suc, ℕ, read_at-slice, ltb_ℤ, ◌++◌, ◌+◌, ◌*◌, ◌^◌, ◌<◌, ◌≤◌, min, List, [], ◌∷◌, none, some, true,
  false, ℤ, pos, minus_one, length, take, overlay, ◌⊎◌, inl, inr, ◌≡◌, ◌≢◌, refl, ap, ◌∙◌, arith,
  Bool-cases, Option-cases, length-take, write_at-overlay, ◌>>=◌,
}
use audio_project.Network.{
  Net, System, Answers, Reply, datagram, failed, connect, close_existing, forget, resolve,
  established, send, recv, would_block, time_ms,
}
use audio_project.Network.Valid.{
  IsValid, Usable, has_socket, forget-Closed, set_up-cases, resolve-IsValid,
}

-- The host has an address, the system gives a socket, and the socket is usable.
abbrev pub Reachable : Answers → ℕ → Type 0
Reachable answers fd =
    ((address : List ℕ) × (answers.resolved ≡ some address))
    × (answers.socket ≡ some fd)
    × Usable answers

-- Status 0 with the new socket, or -1 without one.
abbrev pub Outcome : Answers → ℤ → Net → Type 0
Outcome answers status net =
    ((fd : ℕ) × Reachable answers fd
      × (status ≡ pos 0)
      × (net.sock ≡ some fd)
      × (net.connected ≡ true))
    ⊎ ((fd : ℕ) → ¬ Reachable answers fd)
      × (status ≡ minus_one)
      × (net.sock ≡ none)
      × (net.connected ≡ false)

resolve-Outcome :
    (net : Net) (host : List ℕ) (port : ℕ) (answers : Answers) (sys : System)
    → net.sock ≡ none
    → net.connected ≡ false
    → Outcome answers (resolve net host port answers sys).0 (resolve net host port answers sys).1
unfolding resolve established
resolve-Outcome net host port answers sys no_socket off = elim (Option-cases answers.resolved) [
  | inl q ↦ rw (resolve, q) (inr (λ fd r. none-ne-some _ r.0.1, refl, no_socket, off))
  | inr (address, q) ↦ elim (Option-cases answers.socket) [
    | inl r ↦ rw (resolve, q, r) (inr (λ fd u. none-ne-some _ u.1, refl, refl, off))
    | inr (fd, r) ↦
        elim (set_up-cases net fd host port address answers (record sys {
          address_lists = sys.address_lists + 1;
          open_sockets = fd ∷ sys.open_sockets;
        })) [
          | inl (e, bad) ↦ rw (resolve, q, r, e) (inr (λ other u. bad u.2, refl, refl, off))
          | inr (e, good) ↦
              rw (resolve, q, r, e) (inl (fd, ((address, refl), refl, good), refl, refl, refl))
        ]
  ]
]

-- `ae_net_connect` on a valid handle, connected before or not: it returns 0 exactly where the host
-- resolves, a socket is given, and the socket takes O_NONBLOCK and connects; then the handle has that
-- socket and is connected. In every other case it returns -1, and the handle has no socket and is not
-- connected.
pub connect-Outcome :
    (net : Net) (sys : System) (host : List ℕ) (port : ℕ) (answers : Answers)
    → IsValid net sys
    → (net' : Net) × (sys' : System) × (status : ℤ) × (connect
          (some net)
          (some host)
          port
          answers
          sys
        ≡ (status, some net', sys'))
      × IsValid net' sys'
      × Outcome answers status net'
unfolding connect
connect-Outcome net sys host port answers v =
    let c = forget-Closed net sys v in
    let result = resolve (forget net) host port answers (close_existing net sys) in
    (
      result.1,
      result.2,
      result.0,
      refl,
      resolve-IsValid (forget net) host port answers (close_existing net sys) c,
      resolve-Outcome (forget net) host port answers (close_existing net sys) c.no_socket
          (c.valid.agrees ∙ ap has_socket c.no_socket),
    )

-- The values of `ae_net_recv`, and what it leaves in the buffer: without a socket, and with one for a
-- datagram, for no data (EAGAIN) and for another error.
abbrev pub Received : Net → List ℕ → Reply → ℤ → List ℕ → Type 0
Received net buf reply status buf' =
    ((net.sock ≡ none) × (status ≡ minus_one) × (buf' ≡ buf))
    ⊎ (fd : ℕ) × (net.sock ≡ some fd)
      × (((bytes : List ℕ) × (reply ≡ datagram bytes)
            × (status ≡ pos (min (length buf) (length bytes)))
            × (buf' ≡ overlay buf 0 (take (length buf) bytes)))
          ⊎ ((reply ≡ failed 11) × (status ≡ pos 0) × (buf' ≡ buf))
          ⊎ (errno : ℕ) × (reply ≡ failed errno)
            × (errno ≢ 11)
            × (status ≡ minus_one)
            × (buf' ≡ buf))

-- `ae_net_recv` with the size of its buffer stays within it. Without a socket it returns -1. With one it
-- returns the length of the datagram, cut to the buffer, with its bytes at the front of the buffer; or 0
-- where the socket has no data, which is error 11; or -1 on any other error. Without a datagram the
-- buffer is unchanged.
pub recv_lem :
    (net : Net) (buf : List ℕ) (reply : Reply)
    → 0 < length buf
    → (status : ℤ) × (buf' : List ℕ) × (recv (some net) (some buf) (pos (length buf)) reply
        ≡ some (status, some buf'))
      × Received net buf reply status buf'
unfolding recv would_block
recv_lem net (b ∷ buf) (datagram bytes) h = elim (Option-cases net.sock) [
  | inl q ↦ (minus_one, b ∷ buf, rw (recv, q) refl, inl (q, refl, refl))
  | inr (fd, q) ↦
      let got = take (length (b ∷ buf)) bytes in
      let long : length got ≡ min (length (b ∷ buf)) (length bytes) =
        length-take (length (b ∷ buf)) bytes in
      (
        pos (length got),
        overlay (b ∷ buf) 0 got,
        rw (recv, q, write_at-overlay (b ∷ buf) 0 got (omega (arith, long)), ◌>>=◌) refl,
        inr (fd, q, inl (bytes, refl, ap pos long, refl)),
      )
]
recv_lem net (b ∷ buf) (failed errno) h = elim (Option-cases net.sock) [
  | inl q ↦ (minus_one, b ∷ buf, rw (recv, q) refl, inl (q, refl, refl))
  | inr (fd, q) ↦ elim (Bool-cases (would_block errno)) [
    | inl e ↦ (
      pos 0,
      b ∷ buf,
      rw (recv, q, e) refl,
      inr (fd, q, inr (inl (ap failed (ground arith), refl, refl))),
    )
    | inr e ↦ (
      minus_one,
      b ∷ buf,
      rw (recv, q, e) refl,
      inr (fd, q, inr (inr (errno, refl, ground arith, refl, refl))),
    )
  ]
]
recv_lem net [] reply h = absurd (omega arith)

-- What `ae_net_send` returns and changes.
abbrev pub Sent : Net → System → List ℕ → ℤ → ℕ → ℤ → Net → System → Type 0
Sent net sys bytes answer now status net' sys' =
    ((net.sock ≡ none) × (status ≡ minus_one) × (net' ≡ net) × (sys' ≡ sys))
    ⊎ (fd : ℕ) × (net.sock ≡ some fd)
      × (sys' ≡ record sys { outbox = sys.outbox ++ (bytes ∷ []) })
      × ((status ≡ answer) × (net' ≡ record net { last_send_time_ms = now })
          ⊎ (status ≡ minus_one) × (net' ≡ net) × (ltb_ℤ answer (pos 0) ≡ true))

-- `ae_net_send` of `n` bytes from a buffer of at least as many stays within it. Without a socket it
-- returns -1 and nothing happens; with one exactly those bytes go out as one datagram, and the result is
-- what `send` of the system returned, with the time stored, or -1 where that is negative.
pub send_lem :
    (net : Net) (sys : System) (bytes : List ℕ) (n : ℕ) (answer : ℤ) (now : ℕ)
    → suc n ≤ length bytes
    → (status : ℤ) × (net' : Net) × (sys' : System) × (send
          (some net)
          (some bytes)
          (pos (suc n))
          answer
          now
          sys
        ≡ some (status, some net', sys'))
      × Sent net sys (take (suc n) bytes) answer now status net' sys'
unfolding send
send_lem net sys bytes n answer now h = elim (Option-cases net.sock) [
  | inl q ↦ (minus_one, net, sys, simp (send, q), inl (q, refl, refl, refl))
  | inr (fd, q) ↦
      let front = read_at-slice bytes 0 (suc n) (omega (arith, h)) in
      let after = record sys { outbox = sys.outbox ++ (take (suc n) bytes ∷ []) } in
      elim (Bool-cases (ltb_ℤ answer (pos 0))) [
        | inl bad ↦ (
          minus_one,
          net,
          after,
          simp (send, q, front, bad),
          inr (fd, q, refl, inr (refl, refl, bad)),
        )
        | inr good ↦ (
          answer,
          record net { last_send_time_ms = now },
          after,
          simp (send, q, front, good),
          inr (fd, q, refl, inl (refl, refl)),
        )
      ]
]

-- The clock in milliseconds follows the clock's two fields, while it fits 64 bits.
pub time_ms_mono :
    (sec nsec sec' nsec' : ℕ)
    → nsec < 10 ^ 9
    → nsec' < 10 ^ 9
    → sec' * 1000 + 1000 < 2 ^ 64
    → (sec < sec') ⊎ (sec ≡ sec') × (nsec ≤ nsec')
    → time_ms sec nsec ≤ time_ms sec' nsec'
unfolding time_ms
time_ms_mono sec nsec sec' nsec' a b c (inl h) = omega arith
time_ms_mono sec nsec sec' nsec' a b c (inr (h, k)) = omega arith
