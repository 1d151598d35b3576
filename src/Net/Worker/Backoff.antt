-- ===== src/Net/Worker/Backoff.antt =====
-- The reconnection pauses, and the order of the callbacks.
use crimson_desert_online_mo.Common.{
  ℕ, zero, suc, ◌+◌, ◌*◌, ◌^◌, ◌≤◌, ◌<◌, ◌≡◌, refl, ap, ◌∙◌, ◌⊎◌, inr, Bool, true, false, Option,
  none, some, List, [], ◌∷◌, length, get_elem?, All, arith,
}
use Prim.Native.Nat.{min}
use native.Mathlib.Nat.{pow-suc}
use crimson_desert_online_mo.Net.Worker.{
  Address, Attempt, Act, set_connected, set_socket, on_connected, on_disconnected, run_receive_loop,
  close_socket, connect_socket, connect_address, first_connected, do_connect_once, initial_backoff,
  max_backoff, next_backoff, settle, pause, worker_loop,
}

abbrev pub IsBackoff : ℕ → Type 0
IsBackoff b = (initial_backoff ≤ b) × (b ≤ max_backoff)

-- From a backoff between half a second and thirty seconds, every pause lies between these.
pub worker_loop-IsBackoff :
    (b : ℕ) (attempts : List Attempt) → IsBackoff b → All IsBackoff (worker_loop b attempts)
unfolding worker_loop
worker_loop-IsBackoff b [] h = tt
worker_loop-IsBackoff b (a ∷ attempts) h =
    let now : IsBackoff (settle b (do_connect_once a).1) = ground arith in
    (
      now,
      worker_loop-IsBackoff (next_backoff (settle b (do_connect_once a).1)) attempts (ground arith),
    )

-- Attempts that all fail.
abbrev pub Fails : Attempt → Type 0
Fails a = (do_connect_once a).1 ≡ false

next_backoff-settle :
    (a : Attempt) (k : ℕ)
    → Fails a
    → next_backoff (settle (min max_backoff (500 * 2 ^ k)) (do_connect_once a).1)
      ≡ min max_backoff (500 * 2 ^ suc k)
unfolding next_backoff settle
next_backoff-settle a k h = rw h (ground (arith, pow-suc 2 k))

-- From a pause of 500ms doubled k times, up to 30s, where all attempts fail the i-th next pause is
-- 500ms doubled k + i times, up to 30s.
pub worker_loop_doubles :
    (attempts : List Attempt) (k i : ℕ)
    → All Fails attempts
    → i < length attempts
    → get_elem? (worker_loop (min max_backoff (500 * 2 ^ k)) attempts) i
      ≡ some (min max_backoff (500 * 2 ^ (k + i)))
unfolding worker_loop
worker_loop_doubles [] k i h lt = absurd (omega arith)
worker_loop_doubles (a ∷ attempts) k zero h lt = ground arith
worker_loop_doubles (a ∷ attempts) k (suc i) h lt = rw (next_backoff-settle a k h.0) (
    worker_loop_doubles attempts (suc k) i h.1 (omega arith)
    ∙ ap (λ n. some (min max_backoff (500 * 2 ^ n))) (omega arith))

-- A clean session makes the next pause the first one again, whatever came before.
pub worker_loop_reset :
    (b c : ℕ) (a : Attempt) (attempts : List Attempt)
    → (do_connect_once a).1 ≡ true
    → worker_loop b (a ∷ attempts) ≡ worker_loop c (a ∷ attempts)
unfolding worker_loop
worker_loop_reset b c a attempts h = rw h

-- A pause that is not broken off, and has tests enough, sleeps until the backoff is over, to the
-- next 100ms.
pub pause_whole :
    (backoff waited : ℕ) (tests : List Bool)
    → All (λ t. t ≡ true) tests
    → backoff ≤ waited + 100 * length tests
    → (backoff ≤ waited + 100 * pause backoff waited tests)
      × ((waited + 100 * pause backoff waited tests < backoff + 100)
          ⊎ (pause backoff waited tests ≡ 0))
unfolding pause
pause_whole backoff waited [] h enough = (omega arith, inr refl)
pause_whole backoff waited (t ∷ tests) h enough =
    ground (arith, pause_whole backoff (waited + 100) tests h.1)

-- The client as the acts of a connection leave it.
pub record Link : Type 0 where
  pub connected : Bool
  pub socket : Option ℕ
  pub ups : ℕ
  pub downs : ℕ

pub act : Link → Act → Link
act l (set_connected b) = record l { connected = b }
act l (set_socket i) = record l { socket = some i }
act l on_connected = record l { ups = l.ups + 1 }
act l on_disconnected = record l { downs = l.downs + 1 }
act l run_receive_loop = l
act l close_socket = record l { socket = none }

pub acts : Link → List Act → Link
acts l [] = l
acts l (a ∷ as') = acts (act l a) as'

connect_socket_leaves :
    (a : Attempt) (o : Option ℕ) (l : Link)
    → l.connected ≡ false
    → l.socket ≡ none
    → let l' = acts l (connect_socket a o).0 in
      (l'.connected ≡ false)
      × (l'.socket ≡ none)
      × (l'.ups + l.downs ≡ l'.downs + l.ups)
      × (((connect_socket a o).1 ≡ false) ⊎ (l'.ups ≡ l.ups + 1))
unfolding connect_socket acts act
connect_socket_leaves a none l hc hs = ground arith
connect_socket_leaves a (some i) l hc hs = ground arith

-- From a client that is not connected and has no socket, whatever happens, one connection ends with
-- the flag cleared and the socket closed, and each `onConnected` has its `onDisconnected`; it
-- counts as clean only after an `onConnected`.
pub do_connect_once_leaves :
    (a : Attempt) (l : Link)
    → l.connected ≡ false
    → l.socket ≡ none
    → let l' = acts l (do_connect_once a).0 in
      (l'.connected ≡ false)
      × (l'.socket ≡ none)
      × (l'.ups + l.downs ≡ l'.downs + l.ups)
      × (((do_connect_once a).1 ≡ false) ⊎ (l'.ups ≡ l.ups + 1))
unfolding do_connect_once
do_connect_once_leaves a l hc hs = go a.addresses
  where
    go :
        (o : Option (List Address))
        → let l' = acts l (connect_address a o).0 in
          (l'.connected ≡ false)
          × (l'.socket ≡ none)
          × (l'.ups + l.downs ≡ l'.downs + l.ups)
          × (((connect_address a o).1 ≡ false) ⊎ (l'.ups ≡ l.ups + 1))
    go none = unfold acts in ground arith
    go (some addresses) = connect_socket_leaves a (first_connected 0 addresses) l hc hs
