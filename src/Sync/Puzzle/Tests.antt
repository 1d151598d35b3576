-- ===== src/Sync/Puzzle/Tests.antt =====
-- A puzzle with a controller.
use crimson_desert_online_mo.Common.{List, false, eq_iff, ◌-◌, ◌≡◌, refl, true, [], ◌∷◌, arith}
use crimson_desert_online_mo.Common.Int.{pos}
use crimson_desert_online_mo.Sync.Puzzle.{
  PuzzleSync, Event, started, token, ticked, inits, run, step, on_puzzle_start, tick, idle,
  on_puzzle_token, local_input_allowed, is_local_controller,
}
use crimson_desert_online_mo.Sync.Puzzle.Exclusive.{local_input_allowed_exclusive}
use crimson_desert_online_mo.Sync.Puzzle.Countdown.{ticks, last_of, ticks_elapsed}

-- Player "a" controls, "b" waits, 30 s are left.
abbrev playing : PuzzleSync
playing = record {
  puzzle_active = true;
  hook_installed = true;
  token_time_remaining = 30000;
  puzzle_id = "gate";
  controller_id = "a";
  queue = "b" ∷ [];
  last_tick_ms = 1000;
}

-- Both have the puzzle and its token; "b" has ticked and hooked between them.
abbrev of_a : List Event
of_a = started "gate" ∷ token "gate" "a" (pos 30000) [] ∷ ticked 1000 ∷ []

abbrev of_b : List Event
of_b = inits true true true ∷ started "gate" ∷ ticked 700 ∷ token "gate" "a" (pos 30000) [] ∷ []

active : (run of_a idle).puzzle_active ≡ true
unfolding run step on_puzzle_token on_puzzle_start tick
active = refl

allowed : local_input_allowed "a" (run of_a idle) ≡ true
unfolding run step on_puzzle_token on_puzzle_start tick local_input_allowed is_local_controller
allowed = refl

local_input_allowed_exclusive_example : local_input_allowed "b" (run of_b idle) ≡ false
local_input_allowed_exclusive_example =
    local_input_allowed_exclusive of_a of_b "a" "b" (ground (arith, eq_iff "a" "b")) refl active
      allowed

ticks_elapsed_example :
    (ticks (1500 ∷ 1500 ∷ 32000 ∷ []) playing).token_time_remaining
    ≡ playing.token_time_remaining - (last_of 1000 (1500 ∷ 1500 ∷ 32000 ∷ []) - 1000)
ticks_elapsed_example =
    ticks_elapsed (1500 ∷ 1500 ∷ 32000 ∷ []) playing refl (omega arith) (ground arith)
