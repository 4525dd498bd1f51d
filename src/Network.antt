-- ===== src/Network.antt =====
-- core/src/network.h and core/src/network.c: the UDP socket of one engine, in the POSIX branch. What
-- the operating system answers to a call is an argument; what it holds on behalf of the module is a
-- `System`. A pointer that may be NULL is an `Option`, an `int` a `ℤ`, AE_INVALID_SOCKET is `none`, and
-- an outer `none` is an access outside a buffer. Winsock's branch and the sizes of the socket's buffers
-- are left out.
pub mod Strings
pub mod Valid
pub mod Reach
pub mod Outcome
mod Tests
use audio_project.Base.{
  ℕ, zero, suc, ◌+◌, ◌-◌, ◌*◌, ◌/◌, ◌%◌, ◌^◌, List, [], ◌∷◌, ◌++◌, Option, none, some, Bool, true,
  false, ◌||◌, ℤ, pos, negsuc, minus_one, leb, ltb_ℤ, ◌==◌, if◌then◌else◌, length, take, drop,
  replicate, overlay, read_at, write_at, ◌>>=◌,
}

-- `ae_net_t`
pub record Net : Type 0 where
  pub sock : Option ℕ
  pub connected : Bool
  pub last_send_time_ms : ℕ
  pub last_keepalive_ms : ℕ
  pub server_host : List ℕ
  pub server_port : ℕ
  pub addr_storage : List ℕ
  pub addr_len : ℕ

-- The descriptors that are open, the results of `getaddrinfo` that are not freed yet, and the datagrams
-- that were handed to `send`.
pub record System : Type 0 where
  pub open_sockets : List ℕ
  pub address_lists : ℕ
  pub outbox : List (List ℕ)

-- A descriptor out of the list.
pub without : ℕ → List ℕ → List ℕ
without fd [] = []
without fd (x ∷ fds) = let rest = without fd fds in if x == fd then fds else x ∷ rest

abbrev pub close_socket : ℕ → System → System
close_socket fd sys = record sys { open_sockets = without fd sys.open_sockets }

abbrev pub freeaddrinfo : System → System
freeaddrinfo sys = record sys { address_lists = sys.address_lists - 1 }

-- The answers of the two calls of `fcntl`.
pub set_nonblocking : ℤ → ℤ → ℤ
set_nonblocking (negsuc n) set_flags = minus_one
set_nonblocking (pos flags) set_flags = if ltb_ℤ set_flags (pos 0) then minus_one else pos 0

-- EAGAIN and EWOULDBLOCK, which are one number on Linux and Android.
abbrev pub eagain : ℕ
eagain = 11

pub would_block : ℕ → Bool
would_block errno = errno == eagain || errno == eagain

-- `ae_net_time_ms` from the two fields of the clock's `struct timespec`.
pub time_ms : ℕ → ℕ → ℕ
time_ms tv_sec tv_nsec = (tv_sec * 1000 % 2 ^ 64 + tv_nsec / 1000000) % 2 ^ 64

-- The flag says whether the `calloc` succeeds.
pub create : Bool → Option Net
create memory =
    if memory
    then some (record {
      sock = none;
      connected = false;
      last_send_time_ms = 0;
      last_keepalive_ms = 0;
      server_host = replicate 256 0;
      server_port = 0;
      addr_storage = replicate 128 0;
      addr_len = 0;
    })
    else none

-- `if (net->sock != AE_INVALID_SOCKET) close_socket(net->sock);`
pub close_existing : Net → System → System
close_existing net sys = elim net.sock [ none ↦ sys | some fd ↦ close_socket fd sys ]

pub destroy : Option Net → System → System
destroy none sys = sys
destroy (some net) sys = close_existing net sys

-- `strncpy(dst, src, n)` for a string without its terminator, into an array of more than `n` bytes.
abbrev pub strncpy : List ℕ → List ℕ → ℕ → List ℕ
strncpy dst src n = take n (src ++ replicate n 0) ++ drop n dst

-- What the calls of `ae_net_connect` answer: the address found, the descriptor, the two results of
-- `fcntl`, whether `connect` succeeds, and the clock.
pub record Answers : Type 0 where
  pub resolved : Option (List ℕ)
  pub socket : Option ℕ
  pub flags : ℤ
  pub set_flags : ℤ
  pub connects : Bool
  pub now : ℕ

-- The assignments at the end of `ae_net_connect`.
pub established : Net → ℕ → List ℕ → ℕ → List ℕ → ℕ → Net
established net fd host port address now =
    let kept = leb (length address) 128 in
    record net {
      sock = some fd;
      connected = true;
      last_keepalive_ms = now;
      server_host = strncpy net.server_host host 255;
      server_port = port;
      addr_storage = if kept then overlay net.addr_storage 0 address else net.addr_storage;
      addr_len = if kept then length address else net.addr_len;
    }

-- The steps on a new socket: `fcntl`, then `connect`. Each failure closes it.
pub set_up : Net → ℕ → List ℕ → ℕ → List ℕ → Answers → System → ℤ × Net × System
set_up net fd host port address answers sys =
    let failed : ℤ × Net × System =
      (minus_one, record net { sock = none }, freeaddrinfo (close_socket fd sys)) in
    let done : ℤ × Net × System =
      (pos 0, established net fd host port address answers.now, freeaddrinfo sys) in
    elim (set_nonblocking answers.flags answers.set_flags) [
      | pos zero ↦ if answers.connects then done else failed
      | _ ↦ failed
    ]

-- `ae_net_connect` from `getaddrinfo` on.
pub resolve : Net → List ℕ → ℕ → Answers → System → ℤ × Net × System
resolve net host port answers sys = elim answers.resolved [
  | none ↦ (minus_one, net, sys)
  | some address ↦
      let found = record sys { address_lists = sys.address_lists + 1 } in
      elim answers.socket [
        | none ↦ (minus_one, record net { sock = none }, freeaddrinfo found)
        | some fd ↦
            set_up net fd host port address answers
              (record found { open_sockets = fd ∷ found.open_sockets })
      ]
]

-- `net->sock = AE_INVALID_SOCKET; net->connected = false;` where there was a socket.
pub forget : Net → Net
forget net = elim net.sock [ none ↦ net | some fd ↦ record net { sock = none; connected = false } ]

pub connect : Option Net → Option (List ℕ) → ℕ → Answers → System → ℤ × Option Net × System
connect (some net) (some host) port answers sys =
    let (status, net', sys') = resolve (forget net) host port answers (close_existing net sys) in
    (status, some net', sys')
connect net host port answers sys = (minus_one, net, sys)

pub disconnect : Option Net → System → Option Net × System
disconnect none sys = (none, sys)
disconnect (some net) sys =
    (some (record net { sock = none; connected = false }), close_existing net sys)

-- `answer` is what `send` returns, and `now` the clock behind it.
pub send : Option Net → Option (List ℕ) → ℤ → ℤ → ℕ → System → Option (ℤ × Option Net × System)
send (some net) (some bytes) (pos (suc n)) answer now sys = elim net.sock [
  | none ↦ some (minus_one, some net, sys)
  | some fd ↦ do
    datagram ← read_at bytes 0 (suc n)
    let sys' = record sys { outbox = sys.outbox ++ (datagram ∷ []) }
    if ltb_ℤ answer (pos 0)
        then some (minus_one, some net, sys')
        else some (answer, some (record net { last_send_time_ms = now }), sys')
]
send net bytes len answer now sys = some (minus_one, net, sys)

-- What `recv` finds: a datagram, or an error number.
pub data Reply : Type 0 where
  datagram : List ℕ → Reply
  failed : ℕ → Reply

-- A datagram longer than the buffer is cut. The returned `int` and the buffer after the call.
pub recv : Option Net → Option (List ℕ) → ℤ → Reply → Option (ℤ × Option (List ℕ))
recv (some net) (some buf) (pos (suc n)) reply = elim net.sock [
  | none ↦ some (minus_one, some buf)
  | some fd ↦ elim reply [
    | datagram bytes ↦ do
      let got = take (suc n) bytes
      buf' ← write_at buf 0 got
      some (pos (length got), some buf')
    | failed errno ↦ some (if would_block errno then pos 0 else minus_one, some buf)
  ]
]
recv net buf buf_size reply = some (minus_one, buf)

pub is_connected : Option Net → Bool
is_connected none = false
is_connected (some net) = net.connected
