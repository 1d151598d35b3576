-- ===== src/Sync/Puzzle/Countdown.antt =====
-- The displayed countdown.
use crimson_desert_online_mo.Common.{ℕ, ◌-◌, ◌≤◌, ◌<◌, ◌≡◌, true, List, [], ◌∷◌, arith}
use crimson_desert_online_mo.Sync.Puzzle.{PuzzleSync, tick}

pub ticks : List ℕ → PuzzleSync → PuzzleSync
ticks [] p = p
ticks (t ∷ ts) p = ticks ts (tick t p)

-- Times that do not go back, and the last of them.
abbrev pub Rising : ℕ → List ℕ → Type 0
Rising t [] = Unit {0}
Rising t (u ∷ us) = (t ≤ u) × Rising u us

abbrev pub last_of : ℕ → List ℕ → ℕ
last_of t [] = t
last_of t (u ∷ us) = last_of u us

last_of-le : (t : ℕ) (us : List ℕ) → Rising t us → t ≤ last_of t us
last_of-le t [] h = omega arith
last_of-le t (u ∷ us) h = omega (arith, last_of-le u us h.1)

-- While the puzzle stays active, after a first tick and as long as the clock does not go back, any
-- number of ticks takes the time that has passed off the countdown, which stops at zero.
pub ticks_elapsed :
    (ts : List ℕ) (p : PuzzleSync)
    → p.puzzle_active ≡ true
    → 0 < p.last_tick_ms
    → Rising p.last_tick_ms ts
    → (ticks ts p).token_time_remaining
      ≡ p.token_time_remaining - (last_of p.last_tick_ms ts - p.last_tick_ms)
unfolding ticks tick
ticks_elapsed [] p active started h = omega arith
ticks_elapsed (t ∷ ts) p active started h =
    ground (arith, ticks_elapsed ts (tick t p), last_of-le t ts h.1)
