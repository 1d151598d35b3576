-- ===== src/Session/Calm.antt =====
-- client/src/session.cpp: what the handlers of the player sync and of the combat sync leave as it was
-- while no hook is installed.
use crimson_desert_online_mo.Common.{
  ◌||◌, Bool-cases, inl, inr, ◌≡◌, refl, ◌∙◌, false, not, Option, none, some,
}
use crimson_desert_online_mo.Common.Options.{Each, bind-Each}
use crimson_desert_online_mo.Net.Json.{JsonLib, value_by}
use crimson_desert_online_mo.Game.Memory.{Memory, System}
use crimson_desert_online_mo.Game.Offsets.{GameOffsets}
use crimson_desert_online_mo.Sync.Player.{PlayerSync}
use crimson_desert_online_mo.Sync.Player.Wire.{value_float}
use crimson_desert_online_mo.Sync.Player.Reach.{Reachable}
use crimson_desert_online_mo.Sync.Combat.{
  CombatSync, handle_damage_rpc, handle_enemy_update, apply_enemies,
}
use crimson_desert_online_mo.Sync.Combat.Hooks.{MinHook, remove_hooks}
use crimson_desert_online_mo.Sync.Combat.Enemies.{CombatReachable}
use crimson_desert_online_mo.Session.Parts.{Parts, players_done, damage_done, memory_done}

module _ (L : JsonLib) (M : MinHook) (sys : System) (g : GameOffsets) where
  open L use {Value}

  -- Reached by calls, with the memory and the hook library as they were, and no hook installed.
  pub record Calm (mem : Memory) (h : M.State) (p : Parts L M sys g) : Type 0 where
    pub players : Reachable L sys g p.players
    pub combat : CombatReachable L sys g p.combat
    pub memory : p.memory ≡ mem
    pub unhooked : p.combat.hooks_installed ≡ false
    pub library : p.hooks ≡ h

  -- The handlers leave alone whether hooks are installed.
  abbrev pub SameHooks : CombatSync → CombatSync × Memory → Type 0
  SameHooks c r = r.0.hooks_installed ≡ c.hooks_installed

  pub handle_damage_rpc-SameHooks :
      (d : Value) (c : CombatSync) (mem : Memory)
      → Each (SameHooks c) (handle_damage_rpc L sys g d c mem)
  unfolding handle_damage_rpc
  handle_damage_rpc-SameHooks d c mem =
      bind-Each (SameHooks c) (value_by L L.get_number d "targetEntityId" 0) _
        (λ target. bind-Each (SameHooks c) (value_float L d "damage" 0) _ (λ damage. refl))

  pub handle_enemy_update-SameHooks :
      (d : Value) (c : CombatSync) (mem : Memory)
      → Each (SameHooks c) (handle_enemy_update L sys g d c mem)
  unfolding handle_enemy_update
  handle_enemy_update-SameHooks d c mem =
      elim (Bool-cases
        (c.is_host || not (L.contains d "enemies") || not (L.is_array (L.at d "enemies")))) [
          | inl e ↦ rw e refl
          | inr e ↦ rw e (
              bind-Each (SameHooks c)
                (apply_enemies L sys g (L.items (L.at d "enemies")) (c.enemies, mem)) _ (λ s. refl))
        ]

  module _ (mem : Memory) (h : M.State) where
    pub players_done-Calm :
        (p : Parts L M sys g) (o : Option PlayerSync)
        → Calm mem h p
        → ((s : PlayerSync) → o ≡ some s → Reachable L sys g s)
        → Each (Calm mem h) (players_done L M sys g p o)
    unfolding players_done
    players_done-Calm p none c r = tt
    players_done-Calm p (some s) c r = record {
      players = r s refl;
      combat = c.combat;
      memory = c.memory;
      unhooked = c.unhooked;
      library = c.library;
    }

    pub damage_done-Calm :
        (p : Parts L M sys g) (o : Option (CombatSync × Memory))
        → Calm mem h p
        → ((r : CombatSync × Memory) → o ≡ some r → CombatReachable L sys g r.0)
        → Each (λ (r : CombatSync × Memory). r.1 ≡ p.memory) o
        → Each (SameHooks p.combat) o
        → Each (Calm mem h) (damage_done L M sys g p o)
    unfolding damage_done
    damage_done-Calm p none c r same kept = tt
    damage_done-Calm p (some w) c r same kept = record {
      players = c.players;
      combat = r w refl;
      memory = same ∙ c.memory;
      unhooked = kept ∙ c.unhooked;
      library = c.library;
    }

    pub memory_done-Calm :
        (p : Parts L M sys g) (o : Option Memory)
        → Calm mem h p
        → Each (λ (m : Memory). m ≡ p.memory) o
        → Each (Calm mem h) (memory_done L M sys g p o)
    unfolding memory_done
    memory_done-Calm p none c same = tt
    memory_done-Calm p (some m) c same = record {
      players = c.players;
      combat = c.combat;
      memory = same ∙ c.memory;
      unhooked = c.unhooked;
      library = c.library;
    }

    pub remove_hooks_unhooked :
        (c : CombatSync) (l : M.State) → c.hooks_installed ≡ false → remove_hooks M g c l ≡ (c, l)
    unfolding remove_hooks
    remove_hooks_unhooked c l none_yet = rw none_yet refl
