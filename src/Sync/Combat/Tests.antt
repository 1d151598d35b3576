-- ===== src/Sync/Combat/Tests.antt =====
-- One enemy, and a hook library that remembers its hooks.
use crimson_desert_online_mo.Common.{
  ℕ, ◌≡◌, refl, Bool, true, false, not, ◌||◌, [], ◌∷◌, ◌==◌, arith,
}
use crimson_desert_online_mo.Net.Json.{JsonLib}
use crimson_desert_online_mo.Net.Json.Sample.{sample, nothing}
use crimson_desert_online_mo.Game.Float.{float_lt}
use crimson_desert_online_mo.Game.Float.Arith.{float_add, float_sub}
use crimson_desert_online_mo.Game.Memory.{
  read_u64, safe_read, is_readable, in_region, region_readable, load,
}
use crimson_desert_online_mo.Game.Memory.Sample.{open_system, zeros}
use crimson_desert_online_mo.Game.Offsets.{GameOffsets, no_offsets}
use crimson_desert_online_mo.Sync.Combat.{
  CombatSync, EnemyMirror, new_enemy, new_combat, set_host, damage_enemies,
}
use crimson_desert_online_mo.Sync.Combat.Hooks.{
  MinHook, IsMinHook, install_hooks, remove_hooks, install_hooks_removed,
}

abbrev json : JsonLib
json = sample nothing

abbrev host : CombatSync
host = record new_combat { client = true; is_host = true }

-- Ten points of health, at 0x1000.
abbrev wolf : EnemyMirror
wolf = record new_enemy { id = "w"; health = 0x41200000; entity_base = 0x1000 }

abbrev guest : CombatSync
guest = record new_combat { client = true; enemies = ("w", wolf) ∷ [] }

abbrev as_host : CombatSync
as_host = set_host true new_combat

-- The state says which functions have a hook.
abbrev library : MinHook
library = record {
  State = ℕ → Bool;
  create_hook = λ f h. (λ k. (k == f) || h k, not (h f));
  enable_hook = λ f h. (h, h f);
  disable_hook = λ f h. (h, h f);
  is_created = λ f h. h f;
}

library-IsMinHook : IsMinHook library
library-IsMinHook = record {
  create_again = λ f h e. rw e refl;
  create_creates = λ f h e. ground arith;
  create_keeps = λ f k h e. ground arith;
  enable_keeps = λ f k h e. e;
  disable_keeps = λ f k h e. e;
}

abbrev found : GameOffsets
found = record no_offsets { attack_trigger_fn = 0x7000; skill_trigger_fn = 0x8000 }

abbrev no_hooks : ℕ → Bool
no_hooks f = false

install_hooks_ok : (install_hooks library found new_combat no_hooks).ok ≡ true
unfolding install_hooks
install_hooks_ok = refl

install_hooks_removed_example :
    let first = install_hooks library found new_combat no_hooks in
    let removed = remove_hooks library found first.sync first.hooks in
    (install_hooks library found first.sync first.hooks
      ≡ record { sync = first.sync; hooks = first.hooks; ok = true })
    × ((install_hooks library found removed.0 removed.1).ok ≡ false)
install_hooks_removed_example =
    install_hooks_removed library found library-IsMinHook new_combat no_hooks refl install_hooks_ok

-- A wolf of ten points that is hit by 16 has none left.
damage_enemies-wolf :
    (damage_enemies json open_system no_offsets 0 0x41800000 guest.enemies zeros).0
    ≡ ("w", record wolf { health = 0 }) ∷ []
unfolding damage_enemies float_sub float_add float_lt read_u64 safe_read is_readable in_region
    region_readable load
damage_enemies-wolf = refl
