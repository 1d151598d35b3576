-- ===== src/Sync/Combat.antt =====
-- client/src/sync/combat_sync.h and combat_sync.cpp: attacks, skills, damage and enemies. An `int`
-- and a `float` are bit patterns; `none` stands for an exception. Packets stand in the order in
-- which they are given to the client.
pub mod Hooks
pub mod Attack
pub mod Enemies
mod Tests
use crimson_desert_online_mo.Common.{
  ℕ, ◌-◌, ◌%◌, ◌^◌, Bool, true, false, not, ◌&&◌, ◌||◌, Option, none, some, List, [], ◌∷◌, String,
  str_eq, ◌==◌, ltb, if◌then◌else◌, ◌>>=◌,
}
use crimson_desert_online_mo.Common.Table.{Table, find, put, find_or}
use crimson_desert_online_mo.Net.Json.{JsonLib, value_by}
use crimson_desert_online_mo.Net.Protocol.{PacketType, rpc_call, loot_taken}
use crimson_desert_online_mo.Game.Float.{float_le, float_lt, zero_f}
use crimson_desert_online_mo.Game.Float.Arith.{
  float_add, float_sub, float_mul, float_neg, float_ratio, float_max,
}
use crimson_desert_online_mo.Game.Memory.{
  Memory, System, Vec3, add_ptr, is_readable, read_u32, read_u64, read_vec3, write_u32, write_vec3,
}
use crimson_desert_online_mo.Game.Offsets.{GameOffsets}
use crimson_desert_online_mo.Game.Resolve.{get_local_player_base}
use crimson_desert_online_mo.Sync.Player.{zero_vec}
use crimson_desert_online_mo.Sync.Player.Wire.{
  vec_value, value_int, value_float, value_vec, value_vec_at,
}

pub record EnemyMirror : Type 0 where
  pub id : String
  pub health : ℕ
  pub max_health : ℕ
  pub position : Vec3
  pub anim_id : ℕ
  pub entity_base : ℕ

-- `EnemyMirror{}`.
abbrev pub new_enemy : EnemyMirror
new_enemy = record {
  id = "";
  health = 0;
  max_health = 0;
  position = zero_vec;
  anim_id = 0;
  entity_base = 0;
}

-- `client` is `client_ != nullptr`.
pub record CombatSync : Type 0 where
  pub client : Bool
  pub is_host : Bool
  pub hooks_installed : Bool
  pub local_id : String
  pub enemies : Table EnemyMirror

-- `CombatSync{}`.
abbrev pub new_combat : CombatSync
new_combat = record {
  client = false;
  is_host = false;
  hooks_installed = false;
  local_id = "";
  enemies = [];
}

pub set_client : Bool → CombatSync → CombatSync
set_client b c = record c { client = b }

unfoldable pub set_host : Bool → CombatSync → CombatSync
set_host b c = record c { is_host = b }

unfoldable pub set_local_id : String → CombatSync → CombatSync
set_local_id id c = record c { local_id = id }

-- `static_cast<float>(animId % 5)`, which has the sign of `animId`.
pub remainder_float : ℕ → ℕ
remainder_float anim =
    let r = (2 ^ 32 - anim) % 5 in
    if ltb anim (2 ^ 31)
    then float_ratio (anim % 5) 1
    else if r == 0
    then zero_f
    else float_neg (float_ratio r 1)

-- `10.f + (animId % 5) * 2.f`
unfoldable pub damage_of : ℕ → ℕ
unfolding remainder_float
damage_of anim = float_add 0x41200000 (float_mul (remainder_float anim) 0x40000000)

module _ (L : JsonLib) where
  open L use {
    Value, text, number, object, integer, real, contains, at, is_array, items, get_text, get_number,
  }

  abbrev pub Packets : Type 0
  Packets = List (PacketType × Value)

  abbrev pub attack_value : ℕ → Vec3 → ℕ → Value
  attack_value anim direction target = object (
      ("type", text "attack")
      ∷ ("anim_id", integer anim)
      ∷ ("direction", vec_value L direction)
      ∷ ("targetEntityId", number target)
      ∷ [])

  abbrev pub skill_value : ℕ → ℕ → Vec3 → ℕ → Value
  skill_value skill phase target entity = object (
      ("type", text "skill")
      ∷ ("skillId", integer skill)
      ∷ ("phase", integer phase)
      ∷ ("targetPos", vec_value L target)
      ∷ ("targetEntity", integer entity)
      ∷ [])

  abbrev pub damage_value : String → ℕ → ℕ → ℕ → Value
  damage_value source target damage anim = object (
      ("type", text "damage")
      ∷ ("sourceId", text source)
      ∷ ("targetEntityId", number target)
      ∷ ("damage", real damage)
      ∷ ("anim_id", integer anim)
      ∷ [])

  -- `connected` is `client_->IsConnected()`.
  pub on_local_attack : Bool → ℕ → Vec3 → ℕ → CombatSync → Packets
  on_local_attack connected anim direction target c =
      if not c.client || not connected
      then []
      else (rpc_call, attack_value anim direction target) ∷ []

  pub on_local_skill : Bool → ℕ → ℕ → Vec3 → ℕ → CombatSync → Packets
  on_local_skill connected skill phase target entity c =
      if not c.client || not connected
      then []
      else (rpc_call, skill_value skill phase target entity) ∷ []

  -- Only the host answers an attack.
  unfoldable pub handle_attack_rpc : Value → CombatSync → Option Packets
  handle_attack_rpc rpc c = if not c.is_host then some [] else do
    source ← value_by L get_text rpc "sourceId" ""
    target ← value_by L get_number rpc "targetEntityId" 0
    anim ← value_int L rpc "anim_id" 0
    some ((rpc_call, damage_value source target (damage_of anim) anim) ∷ [])

  pub notify_loot_taken : String → CombatSync → Packets
  notify_loot_taken loot c =
      if not c.is_host || not c.client
      then []
      else (loot_taken, object (("lootId", text loot) ∷ ("playerId", text c.local_id) ∷ [])) ∷ []

  module _ (sys : System) (g : GameOffsets) where
    -- The attack and whether the engine's function is called; `sin` and `cos` are those of floats.
    pub hooked_attack : (ℕ → ℕ) → (ℕ → ℕ) → Bool → Bool → Memory → CombatSync → Packets × Bool
    unfolding on_local_attack
    hooked_attack sin cos connected has_engine mem c =
        let base = get_local_player_base sys mem g in
        let anim = read_u32 sys mem base g.off_anim_id in
        let yaw = read_u32 sys mem base g.off_rotation_yaw in
        let direction : Vec3 = record { x = sin yaw; y = 0; z = cos yaw } in
        (if base == 0 then [] else on_local_attack connected anim direction 0 c, has_engine)

    pub hooked_skill : ℕ → Bool → Bool → Memory → CombatSync → Packets × Bool
    unfolding on_local_skill
    hooked_skill skill connected has_engine mem c =
        let base = get_local_player_base sys mem g in
        let sc = add_ptr base g.skill_component_offset in
        (
          if base == 0
              then []
              else if g.skill_component_offset == 0
              then on_local_skill connected skill 0 zero_vec 0 c
              else on_local_skill connected skill (read_u32 sys mem sc 0x04)
                  (read_vec3 sys mem sc 0x10) (read_u32 sys mem sc 0x0C) c,
          has_engine,
        )

    write_skill : ℕ → Value → Memory → Option Memory
    write_skill base rpc mem = do
      let sc = add_ptr base g.skill_component_offset
      skill ← value_int L rpc "skillId" 0
      phase ← value_int L rpc "phase" 0
      entity ← value_int L rpc "targetEntity" 0
      target ← value_vec_at L rpc "targetPos" zero_vec
      let mem = write_u32 sys (write_u32 sys mem sc 0x00 skill) sc 0x04 phase
      some (write_vec3 sys (write_u32 sys mem sc 0x0C entity) sc 0x10 target)

    -- `resolver` is `remoteResolver_`, `none` where it is not set.
    unfoldable pub handle_skill_rpc :
        Option (String → ℕ) → Value → CombatSync → Memory → Option Memory
    unfolding write_skill
    handle_skill_rpc none rpc c mem = do source ← value_by L get_text rpc "sourceId" ""; some mem
    handle_skill_rpc (some resolve) rpc c mem = do
      source ← value_by L get_text rpc "sourceId" ""
      let base = resolve source
      if str_eq source "" || str_eq source c.local_id
          then some mem
          else if (base == 0) || (g.skill_component_offset == 0) || not (is_readable sys base 0x800)
          then some mem
          else write_skill base rpc mem

    -- The first mirror of an entity in the game with this identifier loses health.
    unfoldable pub damage_enemies : ℕ → ℕ → Table EnemyMirror → Memory → Table EnemyMirror × Memory
    damage_enemies target damage [] mem = ([], mem)
    damage_enemies target damage ((id, e) ∷ t) mem =
        let (t', mem') = damage_enemies target damage t mem in
        let health = float_max zero_f (float_sub e.health damage) in
        if not (e.entity_base == 0) && (read_u64 sys mem e.entity_base g.off_entity_id == target)
        then (
          (id, record e { health = health }) ∷ t,
          write_u32 sys mem e.entity_base g.off_health health,
        )
        else ((id, e) ∷ t', mem')

    unfoldable pub handle_damage_rpc : Value → CombatSync → Memory → Option (CombatSync × Memory)
    unfolding damage_enemies
    handle_damage_rpc rpc c mem = do
      target ← value_by L get_number rpc "targetEntityId" 0
      damage ← value_float L rpc "damage" 0
      let (enemies, mem) = damage_enemies target damage c.enemies mem
      some (record c { enemies = enemies }, mem)

    -- What is known of an enemy, with what a snapshot says.
    unfoldable pub update_enemy : String → Value → EnemyMirror → Option EnemyMirror
    update_enemy id e m = do
      health ← value_float L e "health" m.health
      max_health ← value_float L e "maxHealth" m.max_health
      position ← value_vec_at L e "position" m.position
      anim ←
          if contains e "animState"
          then value_int L (at e "animState") "anim_id" m.anim_id
          else some m.anim_id
      some (record m {
        id = id;
        health = health;
        max_health = max_health;
        position = position;
        anim_id = anim;
      })

    unfoldable pub write_enemy : EnemyMirror → Memory → Memory
    write_enemy m mem =
        let base = m.entity_base in
        let moved = write_vec3 sys mem base g.off_position_x m.position in
        let healed = write_u32 sys moved base g.off_health m.health in
        let bounded = write_u32 sys healed base g.off_max_health m.max_health in
        let animated = write_u32 sys bounded base g.off_anim_id m.anim_id in
        if (base == 0) || not (is_readable sys base 0x400)
        then mem
        else if float_le m.health zero_f
        then write_u32 sys animated base g.off_combat_flags 0
        else animated

    unfoldable pub apply_enemy :
        Value → Table EnemyMirror × Memory → Option (Table EnemyMirror × Memory)
    unfolding update_enemy write_enemy
    apply_enemy e (t, mem) = do
      id ← value_by L get_text e "id" ""
      if str_eq id "" then some (t, mem) else do
        m ← update_enemy id e (find_or id new_enemy (find id t))
        some (put id m t, write_enemy m mem)

    unfoldable pub apply_enemies :
        List Value → Table EnemyMirror × Memory → Option (Table EnemyMirror × Memory)
    unfolding apply_enemy
    apply_enemies [] s = some s
    apply_enemies (e ∷ es) s = do s ← apply_enemy e s; apply_enemies es s

    unfoldable pub handle_enemy_update : Value → CombatSync → Memory → Option (CombatSync × Memory)
    unfolding apply_enemies
    handle_enemy_update rpc c mem =
        if c.is_host || not (contains rpc "enemies") || not (is_array (at rpc "enemies"))
        then some (c, mem)
        else do
          s ← apply_enemies (items (at rpc "enemies")) (c.enemies, mem)
          some (record c { enemies = s.0 }, s.1)
