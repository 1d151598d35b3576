-- ===== src/Sync/Puzzle.antt =====
-- client/src/sync/puzzle_sync.h and puzzle_sync.cpp: the control token of a cooperative puzzle.
-- Times are whole milliseconds. The answers of the hook library are arguments.
pub mod Gate
pub mod Countdown
pub mod Exclusive
mod Tests
use crimson_desert_online_mo.Common.{
  ℕ, ◌+◌, ◌-◌, Bool, true, false, not, ◌&&◌, ◌||◌, Option, none, some, List, [], ◌∷◌, String, ◌==◌,
  ltb, str_eq, if◌then◌else◌,
}
use crimson_desert_online_mo.Common.Int.{ℤ, pos, negsuc}

pub record PuzzleSync : Type 0 where
  pub puzzle_active : Bool
  pub hook_installed : Bool
  pub token_time_remaining : ℕ
  pub puzzle_id : String
  pub controller_id : String
  pub queue : List String
  pub last_tick_ms : ℕ

abbrev pub idle : PuzzleSync
idle = record {
  puzzle_active = false;
  hook_installed = false;
  token_time_remaining = 0;
  puzzle_id = "";
  controller_id = "";
  queue = [];
  last_tick_ms = 0;
}

abbrev pub is_empty : String → Bool
is_empty s = str_eq s ""

-- `HookPuzzleInput`: whether the function was found, and whether the two calls of MinHook succeed.
pub hook_puzzle_input : Bool → Bool → Bool → PuzzleSync → PuzzleSync × Bool
hook_puzzle_input found created enabled p =
    if not found
    then (p, false)
    else if not created
    then (p, false)
    else if not enabled
    then (p, false)
    else (record p { hook_installed = true }, true)

-- `Init` drops the answer; without the hook only the gate is missing.
pub init : Bool → Bool → Bool → PuzzleSync → PuzzleSync
init found created enabled p = (hook_puzzle_input found created enabled p).0

pub shutdown : Bool → PuzzleSync → PuzzleSync
shutdown found p = if p.hook_installed && found then record p { hook_installed = false } else p

pub on_puzzle_start : String → PuzzleSync → PuzzleSync
on_puzzle_start id p = record p {
  puzzle_id = id;
  controller_id = "";
  queue = [];
  puzzle_active = true;
  token_time_remaining = 0;
}

-- `remainingMs < 0 ? 0 : remainingMs`.
abbrev pub not_negative : ℤ → ℕ
not_negative (pos n) = n
not_negative (negsuc n) = 0

pub on_puzzle_token : String → String → ℤ → List String → PuzzleSync → PuzzleSync
on_puzzle_token id controller remaining queue p = record p {
  puzzle_id = id;
  controller_id = controller;
  queue = queue;
  puzzle_active = true;
  token_time_remaining = not_negative remaining;
}

-- The end of another puzzle than the one that is known is ignored.
pub on_puzzle_end : String → PuzzleSync → PuzzleSync
on_puzzle_end id p =
    if not (is_empty p.puzzle_id) && not (str_eq p.puzzle_id id) then p else record p {
      puzzle_id = "";
      controller_id = "";
      queue = [];
      puzzle_active = false;
      token_time_remaining = 0;
    }

-- `rem -= dt; rem < 0 ? 0 : rem`.
abbrev count_down : ℕ → ℕ → ℕ
count_down remaining dt = if ltb remaining dt then 0 else remaining - dt

pub tick : ℕ → PuzzleSync → PuzzleSync
tick now p =
    let last = if p.last_tick_ms == 0 then now else p.last_tick_ms in
    let p' = record p { last_tick_ms = now } in
    if p.puzzle_active && ltb last now
    then record p' { token_time_remaining = count_down p.token_time_remaining (now - last) }
    else p'

-- The local id is `Session::LocalId()`.
pub is_local_controller : String → PuzzleSync → Bool
is_local_controller local p =
    if not p.puzzle_active
    then false
    else not (is_empty p.controller_id) && str_eq p.controller_id local

pub local_input_allowed : String → PuzzleSync → Bool
local_input_allowed local p = if not p.puzzle_active then true else is_local_controller local p

-- `HookedPuzzleInput`: whether the engine's handler is called, and the answer. `engine` is what it
-- would answer, `none` if there is none to call.
pub hooked_puzzle_input : String → Option Bool → PuzzleSync → Bool × Bool
hooked_puzzle_input local engine p =
    if not (local_input_allowed local p)
    then (false, false)
    else elim engine [ none ↦ (false, false) | some accepted ↦ (true, accepted) ]

-- The puzzle id of the PUZZLE_PASS that is sent. `has_client` is `Session::Client() != nullptr`.
pub request_pass : String → Bool → PuzzleSync → Option String
request_pass local has_client p =
    if not (is_local_controller local p)
    then none
    else if is_empty p.puzzle_id
    then none
    else if has_client
    then some p.puzzle_id
    else none

-- What can reach the component.
pub data Event : Type 0 where
  started ended : String → Event
  token : String → String → ℤ → List String → Event
  ticked : ℕ → Event
  inits : Bool → Bool → Bool → Event
  shut_down : Bool → Event

pub step : Event → PuzzleSync → PuzzleSync
step (started id) p = on_puzzle_start id p
step (ended id) p = on_puzzle_end id p
step (token id controller remaining queue) p = on_puzzle_token id controller remaining queue p
step (ticked now) p = tick now p
step (inits found created enabled) p = init found created enabled p
step (shut_down found) p = shutdown found p

pub run : List Event → PuzzleSync → PuzzleSync
run [] p = p
run (e ∷ es) p = run es (step e p)
