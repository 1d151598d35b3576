-- ===== src/Sync/Player/Wire.antt =====
-- client/src/sync/player_sync.cpp: `EmitGameplayJson` and `ParseGameplay`.
pub mod Members
use crimson_desert_online_mo.Common.{
  ℕ, ◌%◌, ◌^◌, Bool, true, false, not, ◌&&◌, Option, none, some, List, [], ◌∷◌, ◌++◌, map, String,
  if◌then◌else◌, ◌>>=◌,
}
use crimson_desert_online_mo.Net.Json.{JsonLib, value_by}
use crimson_desert_online_mo.Game.Memory.{Vec3}
use crimson_desert_online_mo.Sync.Player.{PlayerState, TraversalState}

module _ (L : JsonLib) where
  open L use {
    Value, object, contains, at, integer, real, number, boolean, array, is_object, is_array, items,
    get_int, get_float, get_number, get_bool,
  }

  -- What is emitted together, and whether it is.
  abbrev pub Group : Type 0
  Group = Bool × List (String × Value)

  abbrev pub vec_value : Vec3 → Value
  vec_value v = object (("x", real v.x) ∷ ("y", real v.y) ∷ ("z", real v.z) ∷ [])

  abbrev pub traversal_value : TraversalState → Value
  traversal_value t = object (
      ("mode", integer t.mode)
      ∷ ("animId", integer t.anim_id)
      ∷ ("animTime", real t.anim_time)
      ∷ ("targetPos", vec_value t.target)
      ∷ ("progress", real t.progress)
      ∷ [])

  abbrev pub gameplay_groups : PlayerState → List Group
  gameplay_groups gp =
      (gp.traversal.present, ("traversalState", traversal_value gp.traversal) ∷ [])
      ∷ (
        gp.skill_present,
        ("skillId", integer gp.skill_id)
            ∷ ("skillPhase", integer gp.skill_phase)
            ∷ ("skillAnimId", integer gp.skill_anim_id)
            ∷ ("skillTargetEntity", integer gp.skill_target_entity)
            ∷ ("skillTargetPos", vec_value gp.skill_target)
            ∷ [],
      )
      ∷ (gp.vfx_present, ("activeVfx", array (map integer gp.active_vfx)) ∷ [])
      ∷ (
        gp.status_present,
        ("statusFlags", number gp.status_flags) ∷ ("buffIds", array (map integer gp.buff_ids)) ∷ [],
      )
      ∷ (
        gp.equipment_present,
        ("weaponId", integer gp.weapon_id)
            ∷ ("weaponStance", integer gp.weapon_stance)
            ∷ ("offHandId", integer gp.off_hand_id)
            ∷ [],
      )
      ∷ (
        gp.mount_present,
        ("isMounted", boolean gp.is_mounted)
            ∷ ("mountEntityId", integer gp.mount_entity_id)
            ∷ ("mountAnimId", integer gp.mount_anim_id)
            ∷ ("mountAnimTime", real gp.mount_anim_time)
            ∷ ("mountPosition", vec_value gp.mount_position)
            ∷ [],
      )
      ∷ (
        gp.dodge_present,
        ("dodgeDirection", object (("x", real gp.dodge_x) ∷ ("y", real gp.dodge_y) ∷ [])) ∷ [],
      )
      ∷ (gp.death_present, ("isDead", boolean gp.is_dead) ∷ [])
      ∷ (gp.respawn_present, ("respawnPosition", vec_value gp.respawn_position) ∷ [])
      ∷ (
        gp.interaction_present,
        ("interactionType", integer gp.interaction_type)
            ∷ ("interactionEntityId", integer gp.interaction_entity_id)
            ∷ [],
      )
      ∷ []

  unfoldable pub emit : List Group → List (String × Value)
  emit [] = []
  emit ((present, kvs) ∷ gs) = (if present then kvs else []) ++ emit gs

  -- The members that are added to those of the player.
  unfoldable pub emit_gameplay_json : PlayerState → List (String × Value)
  unfolding emit
  emit_gameplay_json gp = emit (gameplay_groups gp)

  abbrev pub value_int : Value → String → ℕ → Option ℕ
  value_int j k d = value_by L get_int j k d

  abbrev pub value_float : Value → String → ℕ → Option ℕ
  value_float j k d = value_by L get_float j k d

  abbrev pub value_bool : Value → String → Bool → Option Bool
  value_bool j k d = value_by L get_bool j k d

  -- An `unsigned int` takes the low bits.
  abbrev pub value_u32 : Value → String → ℕ → Option ℕ
  value_u32 j k d = do n ← value_by L get_number j k d; some (n % 2 ^ 32)

  -- `{v.value("x", 0.f), v.value("y", 0.f), v.value("z", 0.f)}`
  unfoldable pub value_vec : Value → Option Vec3
  value_vec j = do
    x ← value_float j "x" 0
    y ← value_float j "y" 0
    z ← value_float j "z" 0
    some (record { x = x; y = y; z = z })

  -- The coordinates under `k`, which stay as they are where it is missing.
  unfoldable pub value_vec_at : Value → String → Vec3 → Option Vec3
  unfolding value_vec
  value_vec_at j k old = if contains j k then value_vec (at j k) else some old

  unfoldable pub get_ints : List Value → Option (List ℕ)
  get_ints [] = some []
  get_ints (v ∷ vs) = do n ← get_int v; ns ← get_ints vs; some (n ∷ ns)

  unfoldable pub parse_traversal : Value → PlayerState → Option PlayerState
  unfolding value_vec_at
  parse_traversal p gp =
      let t = at p "traversalState" in
      if not (contains p "traversalState" && is_object t)
      then some (record gp { traversal = record gp.traversal { present = false } })
      else do
        mode ← value_int t "mode" 0
        anim_id ← value_int t "animId" 0
        anim_time ← value_float t "animTime" 0
        progress ← value_float t "progress" 0
        target ← value_vec_at t "targetPos" gp.traversal.target
        some (record gp {
          traversal = record {
            mode = mode;
            anim_id = anim_id;
            anim_time = anim_time;
            target = target;
            progress = progress;
            present = true;
          };
        })

  unfoldable pub parse_skill : Value → PlayerState → Option PlayerState
  unfolding value_vec_at
  parse_skill p gp =
      if not (contains p "skillId") then some (record gp { skill_present = false }) else do
        id ← value_int p "skillId" 0
        phase ← value_int p "skillPhase" 0
        anim_id ← value_int p "skillAnimId" 0
        entity ← value_int p "skillTargetEntity" 0
        target ← value_vec_at p "skillTargetPos" gp.skill_target
        some (record gp {
          skill_id = id;
          skill_phase = phase;
          skill_anim_id = anim_id;
          skill_target_entity = entity;
          skill_target = target;
          skill_present = true;
        })

  unfoldable pub parse_vfx : Value → PlayerState → Option PlayerState
  unfolding get_ints
  parse_vfx p gp =
      if not (contains p "activeVfx" && is_array (at p "activeVfx"))
      then some (record gp { vfx_present = false })
      else do
        ids ← get_ints (items (at p "activeVfx"))
        some (record gp { active_vfx = ids; vfx_present = true })

  -- `buffIds` where it is an array, or none.
  unfoldable pub parse_buffs : Value → Option (List ℕ)
  unfolding get_ints
  parse_buffs p =
      if contains p "buffIds" && is_array (at p "buffIds")
      then get_ints (items (at p "buffIds"))
      else some []

  unfoldable pub parse_status : Value → PlayerState → Option PlayerState
  unfolding parse_buffs
  parse_status p gp =
      if not (contains p "statusFlags") then some (record gp { status_present = false }) else do
        flags ← value_u32 p "statusFlags" 0
        ids ← parse_buffs p
        some (record gp { status_flags = flags; buff_ids = ids; status_present = true })

  unfoldable pub parse_equipment : Value → PlayerState → Option PlayerState
  parse_equipment p gp =
      if not (contains p "weaponId") then some (record gp { equipment_present = false }) else do
        weapon ← value_int p "weaponId" 0
        stance ← value_int p "weaponStance" 0
        off_hand ← value_int p "offHandId" 0
        some (record gp {
          weapon_id = weapon;
          weapon_stance = stance;
          off_hand_id = off_hand;
          equipment_present = true;
        })

  unfoldable pub parse_mount : Value → PlayerState → Option PlayerState
  unfolding value_vec_at
  parse_mount p gp =
      if not (contains p "isMounted") then some (record gp { mount_present = false }) else do
        mounted ← value_bool p "isMounted" false
        entity ← value_int p "mountEntityId" 0
        anim_id ← value_int p "mountAnimId" 0
        anim_time ← value_float p "mountAnimTime" 0
        position ← value_vec_at p "mountPosition" gp.mount_position
        some (record gp {
          is_mounted = mounted;
          mount_entity_id = entity;
          mount_anim_id = anim_id;
          mount_anim_time = anim_time;
          mount_position = position;
          mount_present = true;
        })

  unfoldable pub parse_dodge : Value → PlayerState → Option PlayerState
  parse_dodge p gp =
      if not (contains p "dodgeDirection") then some (record gp { dodge_present = false }) else do
        x ← value_float (at p "dodgeDirection") "x" 0
        y ← value_float (at p "dodgeDirection") "y" 0
        some (record gp { dodge_x = x; dodge_y = y; dodge_present = true })

  unfoldable pub parse_death : Value → PlayerState → Option PlayerState
  parse_death p gp =
      if not (contains p "isDead") then some (record gp { death_present = false }) else do
        dead ← value_bool p "isDead" false
        some (record gp { is_dead = dead; death_present = true })

  unfoldable pub parse_respawn : Value → PlayerState → Option PlayerState
  unfolding value_vec
  parse_respawn p gp =
      if not (contains p "respawnPosition")
      then some (record gp { respawn_present = false })
      else do
        position ← value_vec (at p "respawnPosition")
        some (record gp { respawn_position = position; respawn_present = true })

  unfoldable pub parse_interaction : Value → PlayerState → Option PlayerState
  parse_interaction p gp =
      if not (contains p "interactionType")
      then some (record gp { interaction_present = false })
      else do
        type ← value_int p "interactionType" 0
        entity ← value_int p "interactionEntityId" 0
        some (record gp {
          interaction_type = type;
          interaction_entity_id = entity;
          interaction_present = true;
        })

  unfoldable pub parse_gameplay : Value → PlayerState → Option PlayerState
  unfolding parse_traversal parse_skill parse_vfx parse_status parse_equipment parse_mount
      parse_dodge parse_death parse_respawn parse_interaction
  parse_gameplay p gp = do
    gp ← parse_traversal p gp
    gp ← parse_skill p gp
    gp ← parse_vfx p gp
    gp ← parse_status p gp
    gp ← parse_equipment p gp
    gp ← parse_mount p gp
    gp ← parse_dodge p gp
    gp ← parse_death p gp
    gp ← parse_respawn p gp
    parse_interaction p gp
