-- ===== src/Net/Worker/Tests.antt =====
-- Failures, pauses, a connection and a response.
use Prim.Native.Nat.{min}
use crimson_desert_online_mo.Common.{
  ℕ, ◌+◌, ◌*◌, ◌^◌, ◌≡◌, refl, true, false, none, some, List, [], ◌∷◌, ◌++◌, get_elem?, All, codes,
  arith,
}
use crimson_desert_online_mo.Net.Worker.{
  Attempt, handshake, read_response, accept, max_backoff, worker_loop, do_connect_once,
  connect_address, connect_socket, first_connected,
}
use crimson_desert_online_mo.Net.Worker.Backoff.{Link, Fails, worker_loop_doubles}
use crimson_desert_online_mo.Net.Worker.Upgrade.{handshake_drops}

-- No name, no connection, no upgrade; then a session that ends cleanly.
abbrev unresolved : Attempt
unresolved = record { addresses = none; upgraded = false; clean = false }

abbrev refused : Attempt
refused = record {
  addresses = some (record { opens = true; connects = false } ∷ []);
  upgraded = false;
  clean = false;
}

abbrev unanswered : Attempt
unanswered = record {
  addresses = some (record { opens = true; connects = true } ∷ []);
  upgraded = false;
  clean = false;
}

abbrev fine : Attempt
fine = record {
  addresses =
      some
        (record { opens = true; connects = false } ∷ record { opens = true; connects = true } ∷ []);
  upgraded = true;
  clean = true;
}

failing_attempts : All Fails (unresolved ∷ refused ∷ unanswered ∷ [])
unfolding do_connect_once connect_address connect_socket first_connected
failing_attempts = (refl, (refl, (refl, tt)))

worker_loop_doubles_example :
    get_elem?
      (worker_loop (min max_backoff (500 * 2 ^ 4)) (unresolved ∷ refused ∷ unanswered ∷ []))
      2
    ≡ some (min max_backoff (500 * 2 ^ (4 + 2)))
worker_loop_doubles_example =
    worker_loop_doubles (unresolved ∷ refused ∷ unanswered ∷ []) 4 2 failing_attempts (omega arith)

abbrev unlinked : Link
unlinked = record { connected = false; socket = none; ups = 0; downs = 0 }

-- The last bytes of the headers, with the first frame behind them.
abbrev head : List ℕ
head = codes "TTP/1.1 101 \r\n\r\n"

handshake_drops_example :
    handshake true (some (72 ∷ head ++ 0x81 ∷ 0 ∷ []) ∷ some (7 ∷ []) ∷ [])
    ≡ some (some (7 ∷ []) ∷ [])
handshake_drops_example =
    handshake_drops 72 head (0x81 ∷ 0 ∷ []) (some (7 ∷ []) ∷ []) refl refl (omega arith)

accepted : handshake true (some (72 ∷ head) ∷ some (7 ∷ []) ∷ []) ≡ some (some (7 ∷ []) ∷ [])
unfolding handshake read_response accept
accepted = refl
