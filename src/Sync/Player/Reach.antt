-- ===== src/Sync/Player/Reach.antt =====
-- client/src/sync/player_sync.h: the states that the calls of `PlayerSync` lead to. A step is one
-- call, with any packet, any time and any memory of the game.
use crimson_desert_online_mo.Common.{ℕ, ◌≡◌, Bool, false, some, [], String}
use crimson_desert_online_mo.Net.Json.{JsonLib}
use crimson_desert_online_mo.Game.Memory.{Memory, System}
use crimson_desert_online_mo.Game.Offsets.{GameOffsets}
use crimson_desert_online_mo.Sync.Player.{
  PlayerSync, zero_vec, no_anim, add_remote_player, remove_remote_player, set_remote_cutscene,
  clear, set_suspended, set_local_id,
}
use crimson_desert_online_mo.Sync.Player.Update.{apply_state_update, apply_animation_update}
use crimson_desert_online_mo.Sync.Player.Send.{tick}

-- `PlayerSync{}`.
abbrev pub new_sync : PlayerSync
new_sync = record {
  local_id = "";
  last_send_ms = 0;
  suspended = false;
  remotes = [];
  last_pos = zero_vec;
  last_health = 0xBF800000;
  last_anim = no_anim;
}

module _ (L : JsonLib) (sys : System) (g : GameOffsets) where
  pub data Step (s : PlayerSync) : PlayerSync → Type 0 where
    added : (id name : String) → Step s (add_remote_player id name s)
    removed : (id : String) → Step s (remove_remote_player id s)
    cutscene_set : (id : String) (b : Bool) → Step s (set_remote_cutscene id b s)
    cleared : Step s (clear s)
    suspension_set : (b : Bool) → Step s (set_suspended b s)
    local_id_set : (id : String) → Step s (set_local_id id s)
    updated :
        (now : ℕ) (players : L.Value) {s' : PlayerSync}
        → apply_state_update L now players s ≡ some s'
        → Step s s'
    animated :
        (id : String) (anim : L.Value) {s' : PlayerSync}
        → apply_animation_update L id anim s ≡ some s'
        → Step s s'
    ticked :
        (connected : Bool) (now : ℕ) (mem : Memory) → Step s (tick L sys g connected now s mem).sync

  -- What calls lead to from a new `PlayerSync`.
  pub data Reachable : PlayerSync → Type 0 where
    started : Reachable new_sync
    stepped : {s s' : PlayerSync} → Reachable s → Step s s' → Reachable s'
