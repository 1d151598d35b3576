-- ===== src/Sync/Player/Gameplay.antt =====
-- client/src/sync/player_sync.cpp: `ReadLocalGameplay`, which reads what rides along with the state
-- of the local player.
pub mod Bounds
use crimson_desert_online_mo.Common.{
  ℕ, zero, suc, ◌+◌, ◌*◌, ◌/◌, ◌%◌, ◌^◌, Bool, true, false, not, ◌&&◌, ◌||◌, List, [], ◌∷◌, ◌==◌,
  ltb, if◌then◌else◌,
}
use crimson_desert_online_mo.Game.Memory.{
  Memory, System, Vec3, add_ptr, is_readable, safe_read, read_u32, read_u64, read_vec3,
}
use crimson_desert_online_mo.Game.Offsets.{GameOffsets}
use crimson_desert_online_mo.Game.Float.{float_le}
use crimson_desert_online_mo.Sync.Player.{
  PlayerState, TraversalState, no_player_state, tm_none, tm_land,
}

-- `(flags >> 24) & 0x0F`, and TM_NONE for a number that is no mode.
pub traversal_mode_from_flags : ℕ → ℕ
traversal_mode_from_flags flags =
    let mode = flags / 2 ^ 24 % 16 in if ltb tm_land mode then tm_none else mode

module _ (sys : System) (mem : Memory) (g : GameOffsets) (base : ℕ) where
  read_traversal : PlayerState → PlayerState
  read_traversal gp = if g.traversal_flags_offset == 0 then gp else record gp {
    traversal = record {
      mode = traversal_mode_from_flags (read_u32 sys mem base g.traversal_flags_offset);
      anim_id = read_u32 sys mem base g.off_anim_id;
      anim_time = read_u32 sys mem base g.off_anim_time;
      target =
          if g.traversal_target_pos_offset == 0
          then gp.traversal.target
          else read_vec3 sys mem base g.traversal_target_pos_offset;
      progress = read_u32 sys mem base g.off_anim_time;
      present = true;
    };
  }

  read_skill : PlayerState → PlayerState
  read_skill gp =
      let sc = add_ptr base g.skill_component_offset in
      if g.skill_component_offset == 0 then gp else record gp {
        skill_id = read_u32 sys mem sc 0x00;
        skill_phase = read_u32 sys mem sc 0x04;
        skill_anim_id = read_u32 sys mem sc 0x08;
        skill_target_entity = read_u32 sys mem sc 0x0C;
        skill_target = read_vec3 sys mem sc 0x10;
        skill_present = true;
      }

  -- The ids that are not 0, of `rounds` words from an offset on.
  pub read_ids : ℕ → ℕ → ℕ → List ℕ
  read_ids component off zero = []
  read_ids component off (suc rounds) =
      let id = read_u32 sys mem component off in
      let rest = read_ids component (off + 4) rounds in if id == 0 then rest else id ∷ rest

  read_vfx : PlayerState → PlayerState
  unfolding read_ids
  read_vfx gp = if g.vfx_component_offset == 0 then gp else record gp {
    active_vfx = read_ids (add_ptr base g.vfx_component_offset) 0 8;
    vfx_present = true;
  }

  read_status : PlayerState → PlayerState
  unfolding read_ids
  read_status gp =
      let stc = add_ptr base g.status_component_offset in
      if g.status_component_offset == 0 then gp else record gp {
        status_flags = read_u32 sys mem stc 0x00;
        buff_ids = read_ids stc 0x04 8;
        status_present = true;
      }

  read_equipment : PlayerState → PlayerState
  read_equipment gp =
      let ec = add_ptr base g.equipment_component_offset in
      if g.equipment_component_offset == 0 then gp else record gp {
        weapon_id = read_u32 sys mem ec 0x00;
        weapon_stance = read_u32 sys mem ec 0x04;
        off_hand_id = read_u32 sys mem ec 0x08;
        equipment_present = true;
      }

  read_mount_entity : ℕ → PlayerState → PlayerState
  read_mount_entity mount gp =
      if (mount == 0) || not (is_readable sys mount 0x400) then gp else record gp {
        is_mounted = true;
        mount_entity_id = read_u64 sys mem mount g.off_entity_id % 2 ^ 32;
        mount_anim_id = read_u32 sys mem mount g.off_anim_id;
        mount_anim_time = read_u32 sys mem mount g.off_anim_time;
        mount_position = read_vec3 sys mem mount g.off_position_x;
      }

  read_mount : PlayerState → PlayerState
  unfolding read_mount_entity
  read_mount gp =
      let mount = safe_read sys mem (add_ptr base g.mount_entity_ptr_offset) 8 in
      if g.mount_entity_ptr_offset == 0
      then gp
      else record (read_mount_entity mount gp) { mount_present = true }

  read_dodge : PlayerState → PlayerState
  read_dodge gp =
      let dc = add_ptr base g.dodge_component_offset in
      if g.dodge_component_offset == 0 then gp else record gp {
        dodge_x = read_u32 sys mem dc 0x00;
        dodge_y = read_u32 sys mem dc 0x04;
        dodge_present = true;
      }

  read_death : PlayerState → PlayerState
  read_death gp = if g.off_health == 0 then gp else record gp {
    is_dead = float_le (read_u32 sys mem base g.off_health) 0;
    death_present = true;
    respawn_position = read_vec3 sys mem base g.off_position_x;
    respawn_present = true;
  }

  read_interaction : PlayerState → PlayerState
  read_interaction gp =
      let ic = add_ptr base g.skill_component_offset in
      if g.skill_component_offset == 0 then gp else record gp {
        interaction_type = read_u32 sys mem ic 0x1C;
        interaction_entity_id = read_u32 sys mem ic 0x20;
        interaction_present = true;
      }

  pub read_local_gameplay : PlayerState
  unfolding read_traversal read_skill read_vfx read_status read_equipment read_mount read_dodge
      read_death read_interaction
  read_local_gameplay = read_interaction (
      read_death (
        read_dodge (
          read_mount (
            read_equipment
              (read_status (read_vfx (read_skill (read_traversal no_player_state))))))))
