-- ===== src/Sync/Player/Writes.antt =====
-- client/src/sync/player_sync.cpp: `ApplyGameplayWrites`.
use crimson_desert_online_mo.Common.{
  ℕ, zero, suc, ◌+◌, Bool, not, ◌&&◌, List, [], ◌∷◌, ◌==◌, if◌then◌else◌,
}
use crimson_desert_online_mo.Game.Memory.{
  Memory, System, add_ptr, is_readable, safe_read, write_u32, write_vec3,
}
use crimson_desert_online_mo.Game.Offsets.{GameOffsets}
use crimson_desert_online_mo.Sync.Player.{RemotePlayer, PlayerState}

module _ (sys : System) (g : GameOffsets) where
  write_skill : ℕ → PlayerState → Memory → Memory
  write_skill base gp mem =
      let sc = add_ptr base g.skill_component_offset in
      if not (gp.skill_present && not (g.skill_component_offset == 0))
      then mem
      else let mem = write_u32 sys mem sc 0x00 gp.skill_id in
        let mem = write_u32 sys mem sc 0x04 gp.skill_phase in
        let mem = write_u32 sys mem sc 0x08 gp.skill_anim_id in
        let mem = write_u32 sys mem sc 0x0C gp.skill_target_entity in
        write_vec3 sys mem sc 0x10 gp.skill_target

  -- `rounds` words from an offset on: the ids, then 0.
  pub write_ids : ℕ → List ℕ → ℕ → ℕ → Memory → Memory
  write_ids component ids off zero mem = mem
  write_ids component [] off (suc rounds) mem =
      write_ids component [] (off + 4) rounds (write_u32 sys mem component off 0)
  write_ids component (id ∷ ids) off (suc rounds) mem =
      write_ids component ids (off + 4) rounds (write_u32 sys mem component off id)

  write_vfx : ℕ → PlayerState → Memory → Memory
  unfolding write_ids
  write_vfx base gp mem =
      if gp.vfx_present && not (g.vfx_component_offset == 0)
      then write_ids (add_ptr base g.vfx_component_offset) gp.active_vfx 0 8 mem
      else mem

  write_status : ℕ → PlayerState → Memory → Memory
  unfolding write_ids
  write_status base gp mem =
      let stc = add_ptr base g.status_component_offset in
      if gp.status_present && not (g.status_component_offset == 0)
      then write_ids stc gp.buff_ids 0x04 8 (write_u32 sys mem stc 0x00 gp.status_flags)
      else mem

  write_equipment : ℕ → PlayerState → Memory → Memory
  write_equipment base gp mem =
      let ec = add_ptr base g.equipment_component_offset in
      if not (gp.equipment_present && not (g.equipment_component_offset == 0))
      then mem
      else let mem = write_u32 sys mem ec 0x00 gp.weapon_id in
        let mem = write_u32 sys mem ec 0x04 gp.weapon_stance in
        write_u32 sys mem ec 0x08 gp.off_hand_id

  write_mount : ℕ → PlayerState → Memory → Memory
  write_mount base gp mem =
      let mount = safe_read sys mem (add_ptr base g.mount_entity_ptr_offset) 8 in
      if not (
        gp.mount_present
        && gp.is_mounted
        && not (g.mount_entity_ptr_offset == 0)
        && not (mount == 0)
        && is_readable sys mount 0x400)
      then mem
      else let mem = write_vec3 sys mem mount g.off_position_x gp.mount_position in
        let mem = write_u32 sys mem mount g.off_anim_id gp.mount_anim_id in
        write_u32 sys mem mount g.off_anim_time gp.mount_anim_time

  write_dodge : ℕ → PlayerState → Memory → Memory
  write_dodge base gp mem =
      let dc = add_ptr base g.dodge_component_offset in
      if gp.dodge_present && not (g.dodge_component_offset == 0)
      then write_u32 sys (write_u32 sys mem dc 0x00 gp.dodge_x) dc 0x04 gp.dodge_y
      else mem

  -- From dead to alive with a position to respawn at.
  abbrev pub respawns : RemotePlayer → Bool
  respawns rp = rp.prev_dead && not rp.gameplay.is_dead && rp.gameplay.respawn_present

  pub write_death : RemotePlayer → Memory → RemotePlayer × Memory
  write_death rp mem =
      let gp = rp.gameplay in
      let base = rp.entity_base in
      let dead =
        write_u32 sys mem (add_ptr base g.status_component_offset) 0x24
          (if gp.is_dead then 1 else 0) in
      if not (gp.death_present && not (g.status_component_offset == 0))
      then (rp, mem)
      else if respawns rp
      then (
        record rp {
          current_pos = gp.respawn_position;
          target_pos = gp.respawn_position;
          prev_dead = gp.is_dead;
        },
        write_vec3 sys dead base g.off_position_x gp.respawn_position,
      )
      else (record rp { prev_dead = gp.is_dead }, dead)

  write_interaction : ℕ → PlayerState → Memory → Memory
  write_interaction base gp mem =
      let ic = add_ptr base g.skill_component_offset in
      if gp.interaction_present && not (g.skill_component_offset == 0)
      then write_u32 sys (write_u32 sys mem ic 0x1C gp.interaction_type) ic 0x20
          gp.interaction_entity_id
      else mem

  pub apply_gameplay_writes : RemotePlayer → Memory → RemotePlayer × Memory
  unfolding write_skill write_vfx write_status write_equipment write_mount write_dodge write_death
      write_interaction
  apply_gameplay_writes rp mem =
      let gp = rp.gameplay in
      let base = rp.entity_base in
      let mem =
        write_equipment base gp
          (write_status base gp (write_vfx base gp (write_skill base gp mem))) in
      let (rp, mem) = write_death rp (write_dodge base gp (write_mount base gp mem)) in
      (rp, write_interaction base gp mem)
