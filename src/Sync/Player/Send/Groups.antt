-- ===== src/Sync/Player/Send/Groups.antt =====
-- client/src/sync/player_sync.cpp: what `ParseGameplay` reads of the groups of plain members in the
-- player that `SendLocalState` sends.
use crimson_desert_online_mo.Common.{
  ℕ, ◌%◌, ◌^◌, ◌≡◌, refl, true, false, some, List, ◌∷◌, map, String, arith, Bool-cases, inl, inr,
}
use crimson_desert_online_mo.Net.Json.{JsonLib, IsJson}
use crimson_desert_online_mo.Sync.Player.{PlayerState}
use crimson_desert_online_mo.Sync.Player.Wire.{
  Group, gameplay_groups, emit, vec_value, parse_skill, parse_vfx, parse_buffs, parse_status,
  parse_equipment, parse_mount, parse_death, parse_respawn, parse_interaction,
}
use crimson_desert_online_mo.Sync.Player.Wire.Members.{
  Word, contains_there, contains_missing, at-emit, value_by-emit, value_float-real,
  value_int-integer, value_vec-vec_value, value_vec_at-emit, get_ints-map,
}
use crimson_desert_online_mo.Sync.Player.Send.{Local, player_members}
use crimson_desert_online_mo.Sync.Player.Send.Received.{
  Fits, received_skill, received_vfx, received_status, received_equipment, received_mount,
  received_death, received_respawn, received_interaction,
}

pub Word-mod : (n : ℕ) → Word n → n % 2 ^ 32 ≡ n
Word-mod n w = omega arith

module _ (L : JsonLib) (J : IsJson L) (id : String) (l : Local) (f : Fits l.gameplay) where
  open L use {Value, object, contains, at}

  abbrev gp : PlayerState
  gp = l.gameplay

  abbrev gs : List (Group L)
  gs = (true, player_members L id l) ∷ gameplay_groups L gp

  abbrev player : Value
  player = object (emit L gs)

  pub parse_skill-received :
      (old : PlayerState) → parse_skill L player old ≡ some (received_skill gp old)
  unfolding parse_skill player_members received_skill
  parse_skill-received old = elim (Bool-cases gp.skill_present) [
    | inr e ↦ rw (contains_missing L J gs "skillId" (rw e refl), e) refl
    | inl e ↦
        rw
          (
            value_int-integer L J gs "skillId" 0 gp.skill_id f.skill_id (rw e refl),
            value_int-integer L J gs "skillPhase" 0 gp.skill_phase f.skill_phase (rw e refl),
            value_int-integer L J gs "skillAnimId" 0 gp.skill_anim_id f.skill_anim_id (rw e refl),
            value_int-integer L J gs "skillTargetEntity" 0 gp.skill_target_entity
                f.skill_target_entity (rw e refl),
            value_vec_at-emit L J gs "skillTargetPos" old.skill_target gp.skill_target
                f.skill_target (rw e refl),
            contains_there L J gs "skillId" (L.integer gp.skill_id) (rw e refl),
            e,
          )
          refl
  ]

  pub parse_vfx-received : (old : PlayerState) → parse_vfx L player old ≡ some (received_vfx gp old)
  unfolding parse_vfx player_members received_vfx
  parse_vfx-received old = elim (Bool-cases gp.vfx_present) [
    | inr e ↦ rw (contains_missing L J gs "activeVfx" (rw e refl), e) refl
    | inl e ↦
        rw
          (
            at-emit L J gs "activeVfx" (L.array (map L.integer gp.active_vfx)) (rw e refl),
            J.is_array-array (map L.integer gp.active_vfx),
            J.items-array (map L.integer gp.active_vfx),
            get_ints-map L J gp.active_vfx f.active_vfx,
            contains_there L J gs "activeVfx" (L.array (map L.integer gp.active_vfx)) (rw e refl),
            e,
          )
          refl
  ]

  pub parse_status-received :
      (old : PlayerState) → parse_status L player old ≡ some (received_status gp old)
  unfolding parse_status player_members received_status parse_buffs
  parse_status-received old = elim (Bool-cases gp.status_present) [
    | inr e ↦ rw (contains_missing L J gs "statusFlags" (rw e refl), e) refl
    | inl e ↦
        rw
          (
            value_by-emit L J gs "statusFlags" L.get_number 0 (L.number gp.status_flags)
                (rw e refl),
            J.get_number-number gp.status_flags (omega (arith, f.status_flags)),
            Word-mod gp.status_flags f.status_flags,
            at-emit L J gs "buffIds" (L.array (map L.integer gp.buff_ids)) (rw e refl),
            J.is_array-array (map L.integer gp.buff_ids),
            J.items-array (map L.integer gp.buff_ids),
            get_ints-map L J gp.buff_ids f.buff_ids,
            contains_there L J gs "buffIds" (L.array (map L.integer gp.buff_ids)) (rw e refl),
            contains_there L J gs "statusFlags" (L.number gp.status_flags) (rw e refl),
            e,
          )
          refl
  ]

  pub parse_equipment-received :
      (old : PlayerState) → parse_equipment L player old ≡ some (received_equipment gp old)
  unfolding parse_equipment player_members received_equipment
  parse_equipment-received old = elim (Bool-cases gp.equipment_present) [
    | inr e ↦ rw (contains_missing L J gs "weaponId" (rw e refl), e) refl
    | inl e ↦
        rw
          (
            value_int-integer L J gs "weaponId" 0 gp.weapon_id f.weapon_id (rw e refl),
            value_int-integer L J gs "weaponStance" 0 gp.weapon_stance f.weapon_stance (rw e refl),
            value_int-integer L J gs "offHandId" 0 gp.off_hand_id f.off_hand_id (rw e refl),
            contains_there L J gs "weaponId" (L.integer gp.weapon_id) (rw e refl),
            e,
          )
          refl
  ]

  pub parse_mount-received :
      (old : PlayerState) → parse_mount L player old ≡ some (received_mount gp old)
  unfolding parse_mount player_members received_mount
  parse_mount-received old = elim (Bool-cases gp.mount_present) [
    | inr e ↦ rw (contains_missing L J gs "isMounted" (rw e refl), e) refl
    | inl e ↦
        rw
          (
            value_by-emit L J gs "isMounted" L.get_bool false (L.boolean gp.is_mounted) (rw e refl),
            J.get_bool-boolean gp.is_mounted,
            value_int-integer L J gs "mountEntityId" 0 gp.mount_entity_id f.mount_entity_id
                (rw e refl),
            value_int-integer L J gs "mountAnimId" 0 gp.mount_anim_id f.mount_anim_id (rw e refl),
            value_float-real L J gs "mountAnimTime" 0 gp.mount_anim_time f.mount_anim_time
                (rw e refl),
            value_vec_at-emit L J gs "mountPosition" old.mount_position gp.mount_position
                f.mount_position (rw e refl),
            contains_there L J gs "isMounted" (L.boolean gp.is_mounted) (rw e refl),
            e,
          )
          refl
  ]

  pub parse_death-received :
      (old : PlayerState) → parse_death L player old ≡ some (received_death gp old)
  unfolding parse_death player_members received_death
  parse_death-received old = elim (Bool-cases gp.death_present) [
    | inr e ↦ rw (contains_missing L J gs "isDead" (rw e refl), e) refl
    | inl e ↦
        rw
          (
            value_by-emit L J gs "isDead" L.get_bool false (L.boolean gp.is_dead) (rw e refl),
            J.get_bool-boolean gp.is_dead,
            contains_there L J gs "isDead" (L.boolean gp.is_dead) (rw e refl),
            e,
          )
          refl
  ]

  pub parse_respawn-received :
      (old : PlayerState) → parse_respawn L player old ≡ some (received_respawn gp old)
  unfolding parse_respawn player_members received_respawn
  parse_respawn-received old = elim (Bool-cases gp.respawn_present) [
    | inr e ↦ rw (contains_missing L J gs "respawnPosition" (rw e refl), e) refl
    | inl e ↦
        rw
          (
            at-emit L J gs "respawnPosition" (vec_value L gp.respawn_position) (rw e refl),
            value_vec-vec_value L J gp.respawn_position f.respawn_position,
            contains_there L J gs "respawnPosition" (vec_value L gp.respawn_position) (rw e refl),
            e,
          )
          refl
  ]

  pub parse_interaction-received :
      (old : PlayerState) → parse_interaction L player old ≡ some (received_interaction gp old)
  unfolding parse_interaction player_members received_interaction
  parse_interaction-received old = elim (Bool-cases gp.interaction_present) [
    | inr e ↦ rw (contains_missing L J gs "interactionType" (rw e refl), e) refl
    | inl e ↦
        rw
          (
            value_int-integer L J gs "interactionType" 0 gp.interaction_type f.interaction_type
                (rw e refl),
            value_int-integer L J gs "interactionEntityId" 0 gp.interaction_entity_id
                f.interaction_entity_id (rw e refl),
            contains_there L J gs "interactionType" (L.integer gp.interaction_type) (rw e refl),
            e,
          )
          refl
  ]
