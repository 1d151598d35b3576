-- ===== src/Sync/Cutscene.antt =====
-- client/src/sync/cutscene_sync.h and cutscene_sync.cpp: when the local player is in a cutscene.
-- `World` is what the handlers change of session.h, player_sync.h and modal.h, with the packets
-- that they have given to the client. Times are whole milliseconds.
pub mod Pairing
pub mod Flag
mod Tests
use crimson_desert_online_mo.Common.{
  ℕ, zero, suc, ◌+◌, ◌-◌, Bool, true, false, not, ◌&&◌, ◌||◌, Option, none, some, List, [], ◌∷◌,
  ◌==◌, ltb, if◌then◌else◌,
}
use crimson_desert_online_mo.Game.Memory.{Memory, System, add_ptr, is_readable, safe_read}
use crimson_desert_online_mo.Game.Offsets.{GameOffsets}
use crimson_desert_online_mo.Game.Resolve.{get_local_player_base}
use crimson_desert_online_mo.Net.Protocol.{PacketType, cutscene_start, cutscene_end}
use crimson_desert_online_mo.Ui.Modal.{ModalState, close_modal}

pub record CutsceneSync : Type 0 where
  pub active : Bool
  pub hook_installed : Bool
  pub poll_fallback : Bool
  pub cinematic_flag_addr : ℕ
  pub last_poll_ms : ℕ
  pub last_polled_flag : Bool

-- `sent` has the latest packet first; `has_client` is `Session::Client() != nullptr`.
pub record World : Type 0 where
  pub cutscene_active : Bool
  pub suspended : Bool
  pub modal : ModalState
  pub has_client : Bool
  pub sent : List PacketType

pub record State : Type 0 where
  pub sync : CutsceneSync
  pub world : World

pub send : PacketType → World → World
send type w = if w.has_client then record w { sent = type ∷ w.sent } else w

pub on_cutscene_start : State → State
unfolding send
on_cutscene_start s = if s.sync.active then s else record {
  sync = record s.sync { active = true };
  world = send cutscene_start (record s.world {
    cutscene_active = true;
    suspended = true;
    modal = close_modal s.world.modal;
  });
}

pub on_cutscene_end : State → State
unfolding send
on_cutscene_end s = if not s.sync.active then s else record {
  sync = record s.sync { active = false };
  world = send cutscene_end (record s.world { cutscene_active = false; suspended = false });
}

pub transition : Bool → State → State
unfolding on_cutscene_start on_cutscene_end
transition entering s = if entering then on_cutscene_start s else on_cutscene_end s

-- `HookedCutscene`: the state, and whether the engine's routine is called.
pub hooked_cutscene : Bool → Bool → State → State × Bool
unfolding transition
hooked_cutscene entering has_engine s = (transition entering s, has_engine)

-- The answers of MinHook are arguments.
pub hook_cutscene_function : GameOffsets → Bool → Bool → CutsceneSync → CutsceneSync × Bool
hook_cutscene_function g created enabled c =
    if g.cutscene_fn == 0
    then (c, false)
    else if not created
    then (c, false)
    else if not enabled
    then (c, false)
    else (record c { hook_installed = true }, true)

pub shutdown : GameOffsets → CutsceneSync → CutsceneSync
shutdown g c =
    if c.hook_installed && not (g.cutscene_fn == 0) then record c { hook_installed = false } else c

module _ (sys : System) (mem : Memory) where
  -- A byte that can be read and reads 0 or 1.
  pub plausible_flag : ℕ → Bool
  plausible_flag addr =
      let v = safe_read sys mem addr 1 in is_readable sys addr 1 && ((v == 0) || (v == 1))

  -- The loop of `ScanForCinematicFlag` with the rounds left.
  pub scan_flag : ℕ → ℕ → ℕ → Option ℕ
  scan_flag base zero off = none
  scan_flag base (suc rounds) off =
      let rest = scan_flag base rounds (off + 1) in
      if plausible_flag (add_ptr base off) then some (add_ptr base off) else rest

  set_flag : Option ℕ → GameOffsets × CutsceneSync → (GameOffsets × CutsceneSync) × Bool
  set_flag none (g, c) = ((g, c), false)
  set_flag (some addr) (g, c) =
      ((record g { cinematic_flag_ptr = addr }, record c { cinematic_flag_addr = addr }), true)

  pub scan_for_cinematic_flag : GameOffsets × CutsceneSync → (GameOffsets × CutsceneSync) × Bool
  unfolding set_flag
  scan_for_cinematic_flag (g, c) =
      let base = get_local_player_base sys mem g in
      if base == 0 then ((g, c), false) else set_flag (scan_flag base (0x800 - 0x200) 0x200) (g, c)

  pub init : Bool → Bool → GameOffsets × CutsceneSync → GameOffsets × CutsceneSync
  unfolding hook_cutscene_function scan_for_cinematic_flag
  init created enabled (g, c) =
      let hooked = hook_cutscene_function g created enabled c in
      if hooked.1
      then (g, hooked.0)
      else let scanned = scan_for_cinematic_flag (g, hooked.0) in
        if scanned.1 then (scanned.0.0, record scanned.0.1 { poll_fallback = true }) else scanned.0

  -- `Poll` once its guards have passed.
  poll_flag : Bool → State → State
  unfolding transition
  poll_flag flag s =
      if (flag && s.sync.last_polled_flag) || (not flag && not s.sync.last_polled_flag)
      then s
      else transition flag (record s { sync = record s.sync { last_polled_flag = flag } })

  pub poll : ℕ → State → State
  unfolding poll_flag
  poll now s =
      if not s.sync.poll_fallback
      then s
      else if ltb now (s.sync.last_poll_ms + 100)
      then s
      else let s' = record s { sync = record s.sync { last_poll_ms = now } } in
        let addr = s.sync.cinematic_flag_addr in
        if (addr == 0) || not (is_readable sys addr 1)
        then s'
        else poll_flag (not (safe_read sys mem addr 1 == 0)) s'

-- What can reach the component once it is set up; the memory changes between two polls.
pub data Event : Type 0 where
  entering : Bool → Event
  polled : System → Memory → ℕ → Event

pub step : Event → State → State
unfolding transition poll
step (entering b) s = (hooked_cutscene b true s).0
step (polled sys mem now) s = poll sys mem now s

pub run : List Event → State → State
run [] s = s
run (e ∷ es) s = run es (step e s)
