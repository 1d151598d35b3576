-- ===== src/Session/Quiet.antt =====
-- client/src/session.cpp with the player sync and the combat sync: the memory of the game over any run
-- of a session that is not the host. The code that MinHook patches is not part of that memory but of
-- the state of the hook library, which is followed along with it.
use crimson_desert_online_mo.Common.{ℕ, All, ◌≡◌, Bool, List}
use crimson_desert_online_mo.Net.Json.{JsonLib}
use crimson_desert_online_mo.Game.Memory.{Memory, System}
use crimson_desert_online_mo.Game.Offsets.{GameOffsets}
use crimson_desert_online_mo.Sync.Combat.Hooks.{MinHook}
use crimson_desert_online_mo.Session.{
  Session, Event, Message, on_packet, rpc, state_call, join_calls, join_request, tick, host_session,
  join_session_by, leave_session, shutdown, on_connected,
}
use crimson_desert_online_mo.Session
use crimson_desert_online_mo.Session.Parts.{Parts}
use crimson_desert_online_mo.Session.Guest.{IsGuest}
use crimson_desert_online_mo.Session.Calm.{Calm}

module _ (L : JsonLib) (M : MinHook) (sys : System) (g : GameOffsets) where
  open L use {Value}

  module _ (mem : Memory) (h : M.State) where
    abbrev CalmWorld : Session × Parts L M sys g → Type 0
    CalmWorld w = Calm L M sys g mem h w.1

    abbrev AllGuest : List (ℕ × Bool × Event Value) → Type 0
    AllGuest es = All (λ (e : ℕ × Bool × Event Value). IsGuest L e.2) es

  -- The memory of the game and the state of the hook library.
  abbrev pub Untouched : Memory → M.State → Session × Parts L M sys g → Type 0
  Untouched mem h w = (w.1.memory ≡ mem) × (w.1.hooks ≡ h)
