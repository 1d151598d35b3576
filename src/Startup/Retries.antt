-- ===== src/Startup/Retries.antt =====
-- client/src/dllmain.cpp: the retries of `InitThread`.
use crimson_desert_online_mo.Common.{
  ℕ, zero, suc, ◌+◌, ◌≤◌, ◌<◌, ◌≡◌, refl, ◌⊎◌, inl, inr, Bool, true, false, List, [], ◌∷◌, ◌++◌,
  if◌then◌else◌, arith, ltb, subst,
}
use crimson_desert_online_mo.Startup.{
  StartupCall, log_init, init_proxy, mh_initialize, resolve_offsets, sleep_second, attempts,
  init_thread, bring_up,
}

-- `rounds` failed attempts.
pub failures : ℕ → List StartupCall
failures zero = []
failures (suc rounds) = resolve_offsets ∷ sleep_second ∷ failures rounds

attempts_lem :
    (resolved : ℕ → Bool) (attempt k rounds : ℕ)
    → k ≤ rounds
    → ((i : ℕ) → i < k → resolved (attempt + i) ≡ false)
    → (k ≡ rounds) ⊎ (resolved (attempt + k) ≡ true)
    → attempts resolved attempt rounds
      ≡ failures k ++ (if ltb k rounds then resolve_offsets ∷ [] else [])
unfolding attempts failures
attempts_lem resolved attempt zero zero le early ends = refl
attempts_lem resolved attempt (suc k) zero le early ends = absurd (omega arith)
attempts_lem resolved attempt zero (suc rounds) le early (inl e) = absurd (omega arith)
attempts_lem resolved attempt zero (suc rounds) le early (inr good) =
    let now : resolved attempt ≡ true = subst (λ n. resolved n ≡ true) (omega arith) good in
    let below : ltb 0 (suc rounds) ≡ true = ground arith in rw (now, below) refl
attempts_lem resolved attempt (suc k) (suc rounds) le early ends =
    let bad : resolved attempt ≡ false =
      subst (λ n. resolved n ≡ false) (omega arith) (early 0 (omega arith)) in
    let later : (i : ℕ) → i < k → resolved (suc attempt + i) ≡ false =
      λ i h. subst (λ n. resolved n ≡ false) (omega arith) (early (suc i) (omega arith)) in
    let last : (k ≡ rounds) ⊎ (resolved (suc attempt + k) ≡ true) = elim ends [
      | inl e ↦ inl (omega arith)
      | inr good ↦ inr (subst (λ n. resolved n ≡ true) (omega arith) good)
    ] in
    let same : ltb (suc k) (suc rounds) ≡ ltb k rounds = ground arith in
    rw (bad, same, attempts_lem resolved (suc attempt) k rounds (omega arith) later last) refl

-- Where MinHook is set up and the first k attempts at the offsets fail, and either k is 30 or the
-- next one succeeds: the start-up waits a second after each of these k attempts, makes one further
-- attempt if k is below 30, then brings up all parts in their order and is complete.
pub init_thread-attempts :
    (resolved : ℕ → Bool) (k : ℕ) (initialized : Bool)
    → k ≤ 30
    → ((i : ℕ) → i < k → resolved i ≡ false)
    → (k ≡ 30) ⊎ (resolved k ≡ true)
    → init_thread true resolved initialized ≡ (
      log_init
          ∷ init_proxy
          ∷ mh_initialize
          ∷ ((failures k ++ (if ltb k 30 then resolve_offsets ∷ [] else [])) ++ bring_up),
      true,
    )
unfolding init_thread
init_thread-attempts resolved k initialized le early ends =
    let shifted : (i : ℕ) → i < k → resolved (0 + i) ≡ false =
      λ i h. subst (λ n. resolved n ≡ false) (omega arith) (early i h) in
    let last : (k ≡ 30) ⊎ (resolved (0 + k) ≡ true) = elim ends [
      | inl e ↦ inl e
      | inr good ↦ inr (subst (λ n. resolved n ≡ true) (omega arith) good)
    ] in
    rw (attempts_lem resolved 0 k 30 le shifted last) refl
