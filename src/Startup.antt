-- ===== src/Startup.antt =====
-- client/src/dllmain.cpp: `InitThread`, `Shutdown` and `DllMain`. What they call of the other parts
-- is a list of calls, in their order.
pub mod Retries
mod Tests
use crimson_desert_online_mo.Common.{
  ℕ, zero, suc, ◌+◌, Bool, true, false, not, List, [], ◌∷◌, ◌++◌, if◌then◌else◌,
}

pub data StartupCall : Type 0 where
  log_init init_proxy mh_initialize : StartupCall
  resolve_offsets sleep_second : StartupCall
  session_init install_render_hook inventory_init : StartupCall
  install_combat_hooks cutscene_init puzzle_init : StartupCall
  puzzle_shutdown cutscene_shutdown inventory_shutdown remove_overlay : StartupCall
  session_shutdown mh_uninitialize free_proxy log_shutdown : StartupCall
  disable_thread_calls create_thread : StartupCall

-- The loop of `rounds` attempts from one attempt on; `resolved` is what `ResolveOffsets` answers to
-- each attempt. A failed attempt waits.
pub attempts : (ℕ → Bool) → ℕ → ℕ → List StartupCall
attempts resolved attempt zero = []
attempts resolved attempt (suc rounds) =
    let rest = attempts resolved (suc attempt) rounds in
    if resolved attempt then resolve_offsets ∷ [] else resolve_offsets ∷ sleep_second ∷ rest

abbrev pub bring_up : List StartupCall
bring_up =
    session_init ∷ install_render_hook ∷ inventory_init ∷ install_combat_hooks ∷ cutscene_init
    ∷ puzzle_init ∷ []

-- The calls, and whether `g_initialized` is set at the end.
pub init_thread : Bool → (ℕ → Bool) → Bool → List StartupCall × Bool
unfolding attempts
init_thread mh_ok resolved initialized =
    if not mh_ok
    then (log_init ∷ init_proxy ∷ mh_initialize ∷ [], initialized)
    else (log_init ∷ init_proxy ∷ mh_initialize ∷ (attempts resolved 0 30 ++ bring_up), true)

abbrev pub tear_down : List StartupCall
tear_down =
    puzzle_shutdown ∷ cutscene_shutdown ∷ inventory_shutdown ∷ remove_overlay ∷ session_shutdown
    ∷ mh_uninitialize ∷ free_proxy ∷ log_shutdown ∷ []

pub shutdown : Bool → List StartupCall × Bool
shutdown initialized = if not initialized then ([], initialized) else (tear_down, false)

-- `reserved` is whether the process ends.
pub data Reason : Type 0 where
  process_attach other_reason : Reason
  process_detach : Bool → Reason

pub dll_main : Reason → Bool → List StartupCall × Bool
unfolding shutdown
dll_main process_attach initialized =
    (disable_thread_calls ∷ init_proxy ∷ create_thread ∷ [], initialized)
dll_main (process_detach reserved) initialized =
    if not reserved then shutdown initialized else ([], initialized)
dll_main other_reason initialized = ([], initialized)
