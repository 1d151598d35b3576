-- ===== src/Net/Worker.antt =====
-- client/src/net/client.cpp: `Handshake`, `DoConnectOnce` and `WorkerLoop`. The answers of the
-- socket calls are arguments.
pub mod Backoff
pub mod Upgrade
mod Tests
use crimson_desert_online_mo.Common.{
  ℕ, zero, suc, ◌+◌, ◌-◌, ◌*◌, Bool, true, false, not, ◌&&◌, ◌||◌, Option, none, some, List, [],
  ◌∷◌, ◌++◌, ◌==◌, ltb, leb, if◌then◌else◌, length, codes,
}
use crimson_desert_online_mo.Net.Json.{JsonLib}
use crimson_desert_online_mo.Net.Receive.{Drained, waiting, stop, on_chunks}

abbrev starts_with : List ℕ → List ℕ → Bool
starts_with [] s = true
starts_with (p ∷ ps) [] = false
starts_with (p ∷ ps) (c ∷ cs) = (p == c) && starts_with ps cs

-- `find(p) != npos`.
abbrev pub contains : List ℕ → List ℕ → Bool
contains p [] = starts_with p []
contains p (c ∷ cs) = starts_with p (c ∷ cs) || contains p cs

abbrev pub crlfcrlf : List ℕ
crlfcrlf = 13 ∷ 10 ∷ 13 ∷ 10 ∷ []

abbrev pub switching : List ℕ
switching = codes "101"

-- An answer of `recv`: the bytes read, `some []` if the peer has closed, `none` for an error.
abbrev pub Read : Type 0
Read = Option (List ℕ)

-- The loop that reads the response's headers: the text read and the answers that are left. It fails
-- where `recv` gives nothing, and beyond 8192 bytes. A list that ends stands for an error.
pub read_response : List ℕ → List Read → Option (List ℕ × List Read)
read_response resp [] = if contains crlfcrlf resp then some (resp, []) else none
read_response resp (none ∷ reads) =
    if contains crlfcrlf resp then some (resp, none ∷ reads) else none
read_response resp (some [] ∷ reads) =
    if contains crlfcrlf resp then some (resp, some [] ∷ reads) else none
read_response resp (some (c ∷ cs) ∷ reads) =
    let longer = resp ++ c ∷ cs in
    let rest = if ltb 8192 (length longer) then none else read_response longer reads in
    if contains crlfcrlf resp then some (resp, some (c ∷ cs) ∷ reads) else rest

accept : Option (List ℕ × List Read) → Option (List Read)
accept none = none
accept (some (resp, left)) = if contains switching resp then some left else none

-- `Handshake`: whether the request went out, then the response.
pub handshake : Bool → List Read → Option (List Read)
unfolding accept
handshake false reads = none
handshake true reads = accept (read_response [] reads)

-- The chunks up to the first read that brings no bytes.
abbrev pub chunks : List Read → List (List ℕ)
chunks [] = []
chunks (none ∷ reads) = []
chunks (some [] ∷ reads) = []
chunks (some (c ∷ cs) ∷ reads) = (c ∷ cs) ∷ chunks reads

-- `ReceiveLoop` begins with an empty buffer.
pub receive : (L : JsonLib) → List Read → Drained L
receive L reads = on_chunks L (stop L waiting []) (chunks reads)

-- One address of `getaddrinfo`: whether `socket` and `connect` succeed.
pub record Address : Type 0 where
  pub opens : Bool
  pub connects : Bool

-- The loop over the addresses: the index of the one that is connected.
pub first_connected : ℕ → List Address → Option ℕ
first_connected i [] = none
first_connected i (a ∷ rest) =
    if a.opens && a.connects then some i else first_connected (suc i) rest

-- What one connection does to the client, in order.
pub data Act : Type 0 where
  set_connected : Bool → Act
  set_socket : ℕ → Act
  on_connected on_disconnected run_receive_loop close_socket : Act

-- What the outside answers in one `DoConnectOnce`: the addresses, `none` if the name is not
-- resolved, whether the handshake succeeds, and how `ReceiveLoop` ends.
pub record Attempt : Type 0 where
  pub addresses : Option (List Address)
  pub upgraded : Bool
  pub clean : Bool

connect_socket : Attempt → Option ℕ → List Act × Bool
connect_socket a none = ([], false)
connect_socket a (some i) = if not a.upgraded then (set_socket i ∷ close_socket ∷ [], false) else (
  set_socket i
      ∷ set_connected true
      ∷ on_connected
      ∷ run_receive_loop
      ∷ set_connected false
      ∷ on_disconnected
      ∷ close_socket
      ∷ [],
  a.clean,
)

connect_address : Attempt → Option (List Address) → List Act × Bool
connect_address a none = ([], false)
connect_address a (some addresses) = connect_socket a (first_connected 0 addresses)

pub do_connect_once : Attempt → List Act × Bool
unfolding connect_socket connect_address
do_connect_once a = connect_address a a.addresses

abbrev pub initial_backoff : ℕ
initial_backoff = 500

abbrev pub max_backoff : ℕ
max_backoff = 30000

pub next_backoff : ℕ → ℕ
next_backoff b = if ltb max_backoff (b * 2) then max_backoff else b * 2

-- The reset after a session that ended cleanly.
pub settle : ℕ → Bool → ℕ
settle b clean = if clean then initial_backoff else b

-- The sleeps of 100ms of one pause, given what each test of `running_` reads.
pub pause : ℕ → ℕ → List Bool → ℕ
pause backoff waited [] = 0
pause backoff waited (running ∷ tests) =
    let rest = suc (pause backoff (waited + 100) tests) in
    if ltb waited backoff && running then rest else 0

-- The pauses of `WorkerLoop` while it goes on running, in milliseconds.
pub worker_loop : ℕ → List Attempt → List ℕ
unfolding settle next_backoff
worker_loop b [] = []
worker_loop b (a ∷ attempts) =
    let wait = settle b (do_connect_once a).1 in wait ∷ worker_loop (next_backoff wait) attempts
