-- ===== src/Startup/Tests.antt =====
-- A start whose third attempt at the offsets succeeds.
use crimson_desert_online_mo.Common.{
  ℕ, ◌<◌, ◌≡◌, refl, Bool, true, false, inr, [], ◌∷◌, ◌++◌, ltb, leb, if◌then◌else◌, arith,
}
use crimson_desert_online_mo.Startup.{
  log_init, init_proxy, mh_initialize, resolve_offsets, bring_up, init_thread,
}
use crimson_desert_online_mo.Startup.Retries.{failures, init_thread-attempts}

abbrev third : ℕ → Bool
third i = leb 2 i

third_early : (i : ℕ) → i < 2 → third i ≡ false
third_early i h = ground arith

init_thread-attempts_example : init_thread true third false ≡ (
  log_init
      ∷ init_proxy
      ∷ mh_initialize
      ∷ ((failures 2 ++ (if ltb 2 30 then resolve_offsets ∷ [] else [])) ++ bring_up),
  true,
)
init_thread-attempts_example =
    init_thread-attempts third 2 false (omega arith) third_early (inr refl)
