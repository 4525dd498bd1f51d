-- ===== src/Network/Reach.antt =====
-- Any sequence of calls on the socket of core/src/network.c.
use mathlib.Core.Option.{some-injective}
use mathlib.Core.Path.{subst, subst₂}
use audio_project.Base.{ℕ, ◌≢◌, List, [], Option, none, some, true, ℤ, ◌≡◌, refl, ap, ◌∙◌, arith}
use audio_project.Network.{
  Net, System, Answers, create, connect, disconnect, send, close_existing, forget, destroy,
}
use audio_project.Network.Valid.{held, IsValid, forget-Closed, resolve-IsValid}

-- One call of the module on a handle that is there.
pub data Step (net : Net) (sys : System) : Net → System → Type 0 where
  by_connect :
      {net' : Net} {sys' : System} (host : Option (List ℕ)) (port : ℕ) (answers : Answers)
      (status : ℤ)
      → connect (some net) host port answers sys ≡ (status, some net', sys')
      → Step net sys net' sys'
  by_disconnect :
      {net' : Net} {sys' : System}
      → disconnect (some net) sys ≡ (some net', sys')
      → Step net sys net' sys'
  by_send :
      {net' : Net} {sys' : System} (bytes : Option (List ℕ)) (len answer : ℤ) (now : ℕ) (status : ℤ)
      → send (some net) bytes len answer now sys ≡ some (status, some net', sys')
      → Step net sys net' sys'

abbrev pub nothing_held : System
nothing_held = record { open_sockets = []; address_lists = 0; outbox = [] }

-- The states after any calls on a new handle.
pub data Reach : Net → System → Type 0 where
  created : {net : Net} → create true ≡ some net → Reach net nothing_held
  later :
      {net net' : Net} {sys sys' : System}
      → Reach net sys
      → Step net sys net' sys'
      → Reach net' sys'

pub connect-IsValid :
    (net : Net) (sys : System) (host : Option (List ℕ)) (port : ℕ) (answers : Answers) (status : ℤ)
    (net' : Net) (sys' : System)
    → IsValid net sys
    → connect (some net) host port answers sys ≡ (status, some net', sys')
    → IsValid net' sys'
unfolding connect
connect-IsValid net sys none port answers status net' sys' v e =
    let same : net ≡ net' = some-injective _ _ (ap (λ p. p.1) e) in
    let kept : sys ≡ sys' = ap (λ p. p.2) e in subst₂ IsValid same kept v
connect-IsValid net sys (some host) port answers status net' sys' v e =
    subst₂ IsValid (some-injective _ _ (ap (λ p. p.1) e)) (ap (λ p. p.2) e) (
      resolve-IsValid (forget net) host port answers (close_existing net sys)
        (forget-Closed net sys v))

disconnect-IsValid :
    (net : Net) (sys : System) (net' : Net) (sys' : System)
    → IsValid net sys
    → disconnect (some net) sys ≡ (some net', sys')
    → IsValid net' sys'
unfolding disconnect
disconnect-IsValid net sys net' sys' v e =
    let c = forget-Closed net sys v in
    subst₂ IsValid (some-injective _ _ (ap (λ p. p.0) e)) (ap (λ p. p.1) e) (record {
      opened = c.valid.opened ∙ ap held c.no_socket;
      freed = c.valid.freed;
      agrees = refl;
      host_room = v.host_room;
      terminated = v.terminated;
      addr_room = v.addr_room;
    })

pub send-IsValid :
    (net : Net) (sys : System) (bytes : Option (List ℕ)) (len answer : ℤ) (now : ℕ) (status : ℤ)
    (net' : Net) (sys' : System)
    → IsValid net sys
    → send (some net) bytes len answer now sys ≡ some (status, some net', sys')
    → IsValid net' sys'
unfolding send
send-IsValid net sys bytes len answer now status net' sys' v e = ground arith

-- The handle that `ae_net_disconnect` leaves.
pub disconnect_gives :
    (net : Net) (sys : System)
    → IsValid net sys
    → (net' : Net) × (sys' : System) × (disconnect (some net) sys ≡ (some net', sys'))
      × IsValid net' sys'
unfolding disconnect
disconnect_gives net sys v = (_, _, refl, disconnect-IsValid net sys _ _ v refl)

send_never_null :
    (net : Net) (sys : System) (bytes : Option (List ℕ)) (len answer : ℤ) (now : ℕ) (status : ℤ)
    (sys' : System)
    → send (some net) bytes len answer now sys ≢ some (status, none, sys')
unfolding send
send_never_null net sys bytes len answer now status sys' = ground arith

-- The handle that `ae_net_send` leaves.
pub sent-IsValid :
    (net : Net) (sys : System) (bytes : Option (List ℕ)) (len answer : ℤ) (now : ℕ) (status : ℤ)
    (after : Option Net) (sys' : System)
    → IsValid net sys
    → send (some net) bytes len answer now sys ≡ some (status, after, sys')
    → (net' : Net) × (after ≡ some net') × IsValid net' sys'
sent-IsValid net sys bytes len answer now status none sys' v e =
    absurd (send_never_null net sys bytes len answer now status sys' e)
sent-IsValid net sys bytes len answer now status (some net') sys' v e =
    (net', refl, send-IsValid net sys bytes len answer now status net' sys' v e)

Step-IsValid :
    {net net' : Net} {sys sys' : System}
    → Step net sys net' sys'
    → IsValid net sys
    → IsValid net' sys'
Step-IsValid (by_connect host port answers status e) v =
    connect-IsValid _ _ host port answers status _ _ v e
Step-IsValid (by_disconnect e) v = disconnect-IsValid _ _ _ _ v e
Step-IsValid (by_send bytes len answer now status e) v =
    send-IsValid _ _ bytes len answer now status _ _ v e

pub create-IsValid : (net : Net) → create true ≡ some net → IsValid net nothing_held
unfolding create
create-IsValid net e =
    subst (λ n. IsValid n nothing_held) (some-injective _ _ e)
      (record {
        opened = refl;
        freed = refl;
        agrees = refl;
        host_room = refl;
        terminated = refl;
        addr_room = refl;
      })

pub create_gives : (net : Net) × (create true ≡ some net) × IsValid net nothing_held
unfolding create
create_gives = let made : create true ≡ some _ = refl in (_, made, create-IsValid _ made)

pub Reach-IsValid : (net : Net) (sys : System) → Reach net sys → IsValid net sys
Reach-IsValid net sys (created e) = create-IsValid net e
Reach-IsValid net sys (later before step) = Step-IsValid step (Reach-IsValid _ _ before)

pub destroy_closes :
    (net : Net) (sys : System) → IsValid net sys → (destroy (some net) sys).open_sockets ≡ []
unfolding destroy close_existing forget
destroy_closes net sys v = let c = forget-Closed net sys v in c.valid.opened ∙ ap held c.no_socket

-- No socket leaks: after any calls of `ae_net_connect`, `ae_net_disconnect` and `ae_net_send` on a new
-- handle, with any arguments and any answers of the system, the only socket that is open is the
-- handle's, there is one exactly where `connected` is set, every result of `getaddrinfo` is freed, the
-- stored host name ends within its array, and `ae_net_destroy` leaves no socket open.
pub no_leak :
    (net : Net) (sys : System)
    → Reach net sys
    → IsValid net sys × ((destroy (some net) sys).open_sockets ≡ [])
no_leak net sys r = let v = Reach-IsValid net sys r in (v, destroy_closes net sys v)
