-- ===== src/Sync/Puzzle/Gate.antt =====
-- Who may act in a puzzle.
use crimson_desert_online_mo.Common.{
  ◌≡◌, ◌≢◌, ◌↔◌, ◌⊎◌, Bool, true, false, some, List, [], ◌∷◌, String, eq_iff, arith,
}
use crimson_desert_online_mo.Sync.Puzzle.{
  PuzzleSync, Event, started, ended, token, ticked, inits, shut_down, hook_puzzle_input, init,
  shutdown, on_puzzle_start, on_puzzle_token, on_puzzle_end, tick, is_local_controller,
  local_input_allowed, hooked_puzzle_input, request_pass, step, run,
}

-- The engine's handler is called exactly if there is one and either no puzzle is active or the local
-- player is the controller; otherwise the input is refused.
pub hooked_puzzle_input-gate :
    (local : String) (engine : Bool) (p : PuzzleSync)
    → ((hooked_puzzle_input local (some engine) p).0 ≡ true)
      ↔ ((p.puzzle_active ≡ false) ⊎ ((p.controller_id ≢ "") × (p.controller_id ≡ local)))
unfolding hooked_puzzle_input local_input_allowed is_local_controller
hooked_puzzle_input-gate local engine p =
    ground (arith, eq_iff p.controller_id local, eq_iff p.controller_id "")

-- Between two puzzles nothing of the last one is left.
abbrev pub IsClean : PuzzleSync → Type 0
IsClean p =
    (p.puzzle_active ≡ true)
    ⊎ ((p.puzzle_id ≡ "") × (p.controller_id ≡ "") × (p.queue ≡ []) × (p.token_time_remaining ≡ 0))

step-IsClean : (e : Event) (p : PuzzleSync) → IsClean p → IsClean (step e p)
unfolding step on_puzzle_start on_puzzle_end on_puzzle_token tick init hook_puzzle_input shutdown
step-IsClean (started id) p h = ground arith
step-IsClean (ended id) p h = ground arith
step-IsClean (token id controller remaining queue) p h = ground arith
step-IsClean (ticked now) p h = ground arith
step-IsClean (inits found created enabled) p h = ground arith
step-IsClean (shut_down found) p h = ground arith

-- If it is so at the start, whatever packets and ticks come, an inactive puzzle has no id, no
-- controller, no queue and no time.
pub run-IsClean : (es : List Event) (p : PuzzleSync) → IsClean p → IsClean (run es p)
unfolding run
run-IsClean [] p h = h
run-IsClean (e ∷ es) p h = run-IsClean es (step e p) (step-IsClean e p h)

-- The end of another puzzle than the one that is known changes nothing; the end of that one, or of
-- any where none is known, frees the input of every player.
pub on_puzzle_end_effect :
    (id local : String) (p : PuzzleSync)
    → ((p.puzzle_id ≢ "") × (p.puzzle_id ≢ id) × (on_puzzle_end id p ≡ p))
      ⊎ (((p.puzzle_id ≡ "") ⊎ (p.puzzle_id ≡ id))
          × (local_input_allowed local (on_puzzle_end id p) ≡ true))
unfolding on_puzzle_end local_input_allowed
on_puzzle_end_effect id local p = ground (arith, eq_iff p.puzzle_id id, eq_iff p.puzzle_id "")

-- A pass is asked for exactly if a client is there, the local player holds the token and the puzzle
-- has an id; the request names that puzzle.
pub request_pass_iff :
    (local id : String) (has_client : Bool) (p : PuzzleSync)
    → (request_pass local has_client p ≡ some id) ↔ (
        (has_client ≡ true)
        × (p.puzzle_active ≡ true)
        × (p.controller_id ≢ "")
        × (p.controller_id ≡ local)
        × (p.puzzle_id ≢ "")
        × (p.puzzle_id ≡ id))
unfolding request_pass is_local_controller
request_pass_iff local id has_client p =
    ground (arith, eq_iff p.controller_id local, eq_iff p.controller_id "", eq_iff p.puzzle_id "")
