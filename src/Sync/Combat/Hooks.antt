-- ===== src/Sync/Combat/Hooks.antt =====
-- client/src/sync/combat_sync.cpp: `InstallHooks` and `RemoveHooks`. MinHook is a library outside the
-- repository: its state and its functions are parameters, which answer whether they gave `MH_OK`. What
-- MinHook patches in the code of the game is part of that state.
use crimson_desert_online_mo.Common.{
  ℕ, ◌≡◌, refl, Bool, true, false, not, ◌==◌, if◌then◌else◌, arith, Bool-cases, inl, inr,
}
use crimson_desert_online_mo.Game.Offsets.{GameOffsets}
use crimson_desert_online_mo.Sync.Combat.{CombatSync}

pub record MinHook : Type 1 where
  pub State : Type 0
  pub create_hook : ℕ → State → State × Bool
  pub enable_hook : ℕ → State → State × Bool
  pub disable_hook : ℕ → State → State × Bool
  -- Whether there is a hook for a function.
  pub is_created : ℕ → State → Bool

-- A second hook for a function is refused, and a hook stays until the library is shut down.
pub record IsMinHook (M : MinHook) : Type 0 where
  pub create_again : (f : ℕ) (h : M.State) → M.is_created f h ≡ true → (M.create_hook f h).1 ≡ false
  pub create_creates :
      (f : ℕ) (h : M.State)
      → (M.create_hook f h).1 ≡ true
      → M.is_created f (M.create_hook f h).0 ≡ true
  pub create_keeps :
      (f k : ℕ) (h : M.State)
      → M.is_created k h ≡ true
      → M.is_created k (M.create_hook f h).0 ≡ true
  pub enable_keeps :
      (f k : ℕ) (h : M.State)
      → M.is_created k h ≡ true
      → M.is_created k (M.enable_hook f h).0 ≡ true
  pub disable_keeps :
      (f k : ℕ) (h : M.State)
      → M.is_created k h ≡ true
      → M.is_created k (M.disable_hook f h).0 ≡ true

module _ (M : MinHook) (g : GameOffsets) where
  -- What `InstallHooks` answers, with what it changes.
  pub record Installed : Type 0 where
    pub sync : CombatSync
    pub hooks : M.State
    pub ok : Bool

  -- The hook for skills is made where it can be; its failure is no failure.
  pub install_skill_hook : M.State → M.State
  install_skill_hook h =
      let created = M.create_hook g.skill_trigger_fn h in
      if g.skill_trigger_fn == 0
      then h
      else if created.1
      then (M.enable_hook g.skill_trigger_fn created.0).0
      else created.0

  unfoldable pub install_hooks : CombatSync → M.State → Installed
  unfolding install_skill_hook
  install_hooks c h =
      let created = M.create_hook g.attack_trigger_fn h in
      let enabled = M.enable_hook g.attack_trigger_fn created.0 in
      if c.hooks_installed
      then record { sync = c; hooks = h; ok = true }
      else if g.attack_trigger_fn == 0
      then record { sync = c; hooks = h; ok = false }
      else if not created.1
      then record { sync = c; hooks = created.0; ok = false }
      else if not enabled.1
      then record { sync = c; hooks = enabled.0; ok = false }
      else record {
        sync = record c { hooks_installed = true };
        hooks = install_skill_hook enabled.0;
        ok = true;
      }

  unfoldable pub remove_hooks : CombatSync → M.State → CombatSync × M.State
  remove_hooks c h =
      let disabled = (M.disable_hook g.attack_trigger_fn h).0 in
      if not c.hooks_installed then (c, h) else (
        record c { hooks_installed = false },
        if g.skill_trigger_fn == 0
            then disabled
            else (M.disable_hook g.skill_trigger_fn disabled).0,
      )

  install_hooks-installed :
      (c : CombatSync) (h : M.State)
      → (install_hooks c h).ok ≡ true
      → (install_hooks c h).sync.hooks_installed ≡ true
  unfolding install_hooks
  install_hooks-installed c h ok = ground arith

  install_hooks_twice :
      (c : CombatSync) (h : M.State)
      → c.hooks_installed ≡ true
      → install_hooks c h ≡ record { sync = c; hooks = h; ok = true }
  unfolding install_hooks
  install_hooks_twice c h done = rw done refl

  module _ (I : IsMinHook M) where
    install_skill_hook-keeps :
        (k : ℕ) (h : M.State)
        → M.is_created k h ≡ true
        → M.is_created k (install_skill_hook h) ≡ true
    unfolding install_skill_hook
    install_skill_hook-keeps k h there =
        let created = I.create_keeps g.skill_trigger_fn k h there in
        let enabled =
          I.enable_keeps g.skill_trigger_fn k (M.create_hook g.skill_trigger_fn h).0 created in
        elim (Bool-cases (g.skill_trigger_fn == 0)) [
          | inl missing ↦ rw missing there
          | inr found ↦ rw found (elim (Bool-cases (M.create_hook g.skill_trigger_fn h).1) [
            | inl good ↦ rw good enabled
            | inr bad ↦ rw bad created
          ])
        ]

    install_hooks-created :
        (c : CombatSync) (h : M.State)
        → c.hooks_installed ≡ false
        → (install_hooks c h).ok ≡ true
        → M.is_created g.attack_trigger_fn (install_hooks c h).hooks ≡ true
    unfolding install_hooks
    install_hooks-created c h none_yet ok =
        let created = M.create_hook g.attack_trigger_fn h in
        let enabled = M.enable_hook g.attack_trigger_fn created.0 in
        ground (
          arith,
          install_skill_hook-keeps g.attack_trigger_fn enabled.0,
          I.enable_keeps g.attack_trigger_fn g.attack_trigger_fn created.0,
          I.create_creates g.attack_trigger_fn h,
        )

    remove_hooks-created :
        (k : ℕ) (c : CombatSync) (h : M.State)
        → M.is_created k h ≡ true
        → M.is_created k (remove_hooks c h).1 ≡ true
    unfolding remove_hooks
    remove_hooks-created k c h there =
        let attack = (M.disable_hook g.attack_trigger_fn h).0 in
        ground (
          arith,
          I.disable_keeps g.attack_trigger_fn k h,
          I.disable_keeps g.skill_trigger_fn k attack,
        )

    install_hooks-refused :
        (c : CombatSync) (h : M.State)
        → c.hooks_installed ≡ false
        → M.is_created g.attack_trigger_fn h ≡ true
        → (install_hooks c h).ok ≡ false
    unfolding install_hooks
    install_hooks-refused c h none_yet there =
        rw (none_yet, I.create_again g.attack_trigger_fn h there) (ground arith)

    remove_hooks-removed :
        (c : CombatSync) (h : M.State) → (remove_hooks c h).0.hooks_installed ≡ false
    unfolding remove_hooks
    remove_hooks-removed c h = ground arith

    -- With MinHook as documented, where a `CombatSync` without hooks installs them with success, a
    -- second call succeeds and changes nothing, and once the hooks are removed, a further call
    -- answers false.
    pub install_hooks_removed :
        (c : CombatSync) (h : M.State)
        → c.hooks_installed ≡ false
        → (install_hooks c h).ok ≡ true
        → let first = install_hooks c h in
          let removed = remove_hooks first.sync first.hooks in
          (install_hooks first.sync first.hooks
            ≡ record { sync = first.sync; hooks = first.hooks; ok = true })
          × ((install_hooks removed.0 removed.1).ok ≡ false)
    install_hooks_removed c h none_yet ok =
        let first = install_hooks c h in
        let removed = remove_hooks first.sync first.hooks in
        (
          install_hooks_twice first.sync first.hooks (install_hooks-installed c h ok),
          install_hooks-refused removed.0 removed.1 (remove_hooks-removed first.sync first.hooks) (
              remove_hooks-created g.attack_trigger_fn first.sync first.hooks
                (install_hooks-created c h none_yet ok)),
        )
