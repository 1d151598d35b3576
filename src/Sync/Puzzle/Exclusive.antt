-- ===== src/Sync/Puzzle/Exclusive.antt =====
-- Who may act in a puzzle, where several clients have had the same packets.
use crimson_desert_online_mo.Common.{
  ℕ, ◌≡◌, ◌≢◌, false, Bool-cases, inl, inr, ◌∙◌, sym, refl, subst, Bool, true, List, [], ◌∷◌,
  String, eq_iff, arith,
}
use crimson_desert_online_mo.Common.Int.{ℤ}
use crimson_desert_online_mo.Sync.Puzzle.{
  PuzzleSync, Event, started, ended, token, ticked, inits, shut_down, idle, hook_puzzle_input, init,
  shutdown, on_puzzle_start, on_puzzle_token, on_puzzle_end, tick, is_local_controller,
  local_input_allowed, step, run,
}

-- What comes from the server; ticks, `Init` and `Shutdown` are each client's own.
abbrev pub packets : List Event → List Event
packets [] = []
packets (started id ∷ es) = started id ∷ packets es
packets (ended id ∷ es) = ended id ∷ packets es
packets (token id controller remaining queue ∷ es) =
    token id controller remaining queue ∷ packets es
packets (ticked now ∷ es) = packets es
packets (inits found created enabled ∷ es) = packets es
packets (shut_down found ∷ es) = packets es

-- The same puzzle with the same controller.
record Alike (p q : PuzzleSync) : Type 0 where
  active : p.puzzle_active ≡ q.puzzle_active
  id : p.puzzle_id ≡ q.puzzle_id
  controller : p.controller_id ≡ q.controller_id

started-Alike : (id : String) (p q : PuzzleSync) → Alike (step (started id) p) (step (started id) q)
unfolding step on_puzzle_start
started-Alike id p q = record { active = refl; id = refl; controller = refl }

token-Alike :
    (id controller : String) (remaining : ℤ) (queue : List String) (p q : PuzzleSync)
    → Alike
        (step (token id controller remaining queue) p)
        (step (token id controller remaining queue) q)
unfolding step on_puzzle_token
token-Alike id controller remaining queue p q = record {
  active = refl;
  id = refl;
  controller = refl;
}

ended-Alike :
    (id : String) (p q : PuzzleSync) → Alike p q → Alike (step (ended id) p) (step (ended id) q)
unfolding step on_puzzle_end
ended-Alike id p q s = record {
  active = ground (arith, s.active, s.id);
  id = ground (arith, s.id);
  controller = ground (arith, s.controller, s.id);
}

ticked-Alike : (now : ℕ) (p q : PuzzleSync) → Alike p q → Alike (step (ticked now) p) q
unfolding step tick
ticked-Alike now p q s = record {
  active = ground (arith, s.active);
  id = ground (arith, s.id);
  controller = ground (arith, s.controller);
}

inits-Alike :
    (found created enabled : Bool) (p q : PuzzleSync)
    → Alike p q
    → Alike (step (inits found created enabled) p) q
unfolding step init hook_puzzle_input
inits-Alike found created enabled p q s = record {
  active = ground (arith, s.active);
  id = ground (arith, s.id);
  controller = ground (arith, s.controller);
}

shut_down-Alike : (found : Bool) (p q : PuzzleSync) → Alike p q → Alike (step (shut_down found) p) q
unfolding step shutdown
shut_down-Alike found p q s = record {
  active = ground (arith, s.active);
  id = ground (arith, s.id);
  controller = ground (arith, s.controller);
}

run-packets :
    (es : List Event) (p q : PuzzleSync) → Alike p q → Alike (run es p) (run (packets es) q)
unfolding run
run-packets [] p q s = s
run-packets (started id ∷ es) p q s =
    run-packets es (step (started id) p) (step (started id) q) (started-Alike id p q)
run-packets (ended id ∷ es) p q s =
    run-packets es (step (ended id) p) (step (ended id) q) (ended-Alike id p q s)
run-packets (token id controller remaining queue ∷ es) p q s =
    run-packets es _ _ (token-Alike id controller remaining queue p q)
run-packets (ticked now ∷ es) p q s =
    run-packets es (step (ticked now) p) q (ticked-Alike now p q s)
run-packets (inits found created enabled ∷ es) p q s =
    run-packets es (step (inits found created enabled) p) q
      (inits-Alike found created enabled p q s)
run-packets (shut_down found ∷ es) p q s =
    run-packets es (step (shut_down found) p) q (shut_down-Alike found p q s)

one_controller :
    (p q : PuzzleSync) (a b : String)
    → p.puzzle_active ≡ true
    → q.puzzle_active ≡ true
    → p.controller_id ≡ q.controller_id
    → local_input_allowed a p ≡ true
    → local_input_allowed b q ≡ true
    → a ≡ b
unfolding local_input_allowed is_local_controller
one_controller p q a b on on' same ha hb =
    ground (arith, eq_iff p.controller_id a, eq_iff q.controller_id b)

-- Two clients of different players that start without a puzzle and have had the same packets of the
-- server in the same order, whatever ticks, hooks and shut-downs each has had between them: while a
-- puzzle is active for one of them and its `LocalInputAllowed` answers true, that of the other answers
-- false.
pub local_input_allowed_exclusive :
    (es fs : List Event) (a b : String)
    → a ≢ b
    → packets es ≡ packets fs
    → (run es idle).puzzle_active ≡ true
    → local_input_allowed a (run es idle) ≡ true
    → local_input_allowed b (run fs idle) ≡ false
local_input_allowed_exclusive es fs a b apart same on ha =
    let start : Alike idle idle = record { active = refl; id = refl; controller = refl } in
    let left = run-packets es idle idle start in
    let right =
      subst (λ ps. Alike (run fs idle) (run ps idle)) (sym same) (run-packets fs idle idle start) in
    elim (Bool-cases (local_input_allowed b (run fs idle))) [
      | inl hb ↦ absurd (
          apart (
            one_controller (run es idle) (run fs idle) a b on (right.active ∙ sym left.active ∙ on)
              (left.controller ∙ sym right.controller) ha hb))
      | inr refused ↦ refused
    ]
