-- ===== src/Sync/Player/Send/Received.antt =====
-- What a receiver is to know of the player that `SendLocalState` sends.
use crimson_desert_online_mo.Common.{ℕ, ◌-◌, ◌==◌, true, false, All, String, if◌then◌else◌}
use crimson_desert_online_mo.Sync.Player.{PlayerState, RemotePlayer}
use crimson_desert_online_mo.Sync.Player.Wire.Members.{Word, Finite, FiniteVec}
use crimson_desert_online_mo.Sync.Player.Send.{Local}

-- Numbers that JSON carries.
pub record Fits (gp : PlayerState) : Type 0 where
  pub mode : Word gp.traversal.mode
  pub anim_id : Word gp.traversal.anim_id
  pub anim_time : Finite gp.traversal.anim_time
  pub target : FiniteVec gp.traversal.target
  pub progress : Finite gp.traversal.progress
  pub skill_id : Word gp.skill_id
  pub skill_phase : Word gp.skill_phase
  pub skill_anim_id : Word gp.skill_anim_id
  pub skill_target : FiniteVec gp.skill_target
  pub skill_target_entity : Word gp.skill_target_entity
  pub active_vfx : All Word gp.active_vfx
  pub status_flags : Word gp.status_flags
  pub buff_ids : All Word gp.buff_ids
  pub weapon_id : Word gp.weapon_id
  pub weapon_stance : Word gp.weapon_stance
  pub off_hand_id : Word gp.off_hand_id
  pub mount_entity_id : Word gp.mount_entity_id
  pub mount_anim_id : Word gp.mount_anim_id
  pub mount_anim_time : Finite gp.mount_anim_time
  pub mount_position : FiniteVec gp.mount_position
  pub dodge_x : Finite gp.dodge_x
  pub dodge_y : Finite gp.dodge_y
  pub respawn_position : FiniteVec gp.respawn_position
  pub interaction_type : Word gp.interaction_type
  pub interaction_entity_id : Word gp.interaction_entity_id

-- The sender's fields where it has them; else those known before, which are not present.
unfoldable pub received_traversal : PlayerState → PlayerState → PlayerState
received_traversal gp old =
    if gp.traversal.present
    then record old { traversal = record gp.traversal { present = true } }
    else record old { traversal = record old.traversal { present = false } }

unfoldable pub received_skill : PlayerState → PlayerState → PlayerState
received_skill gp old =
    if gp.skill_present
    then record old {
      skill_id = gp.skill_id;
      skill_phase = gp.skill_phase;
      skill_anim_id = gp.skill_anim_id;
      skill_target_entity = gp.skill_target_entity;
      skill_target = gp.skill_target;
      skill_present = true;
    }
    else record old { skill_present = false }

unfoldable pub received_vfx : PlayerState → PlayerState → PlayerState
received_vfx gp old =
    if gp.vfx_present
    then record old { active_vfx = gp.active_vfx; vfx_present = true }
    else record old { vfx_present = false }

unfoldable pub received_status : PlayerState → PlayerState → PlayerState
received_status gp old =
    if gp.status_present
    then record old {
      status_flags = gp.status_flags;
      buff_ids = gp.buff_ids;
      status_present = true;
    }
    else record old { status_present = false }

unfoldable pub received_equipment : PlayerState → PlayerState → PlayerState
received_equipment gp old =
    if gp.equipment_present
    then record old {
      weapon_id = gp.weapon_id;
      weapon_stance = gp.weapon_stance;
      off_hand_id = gp.off_hand_id;
      equipment_present = true;
    }
    else record old { equipment_present = false }

unfoldable pub received_mount : PlayerState → PlayerState → PlayerState
received_mount gp old =
    if gp.mount_present
    then record old {
      is_mounted = gp.is_mounted;
      mount_entity_id = gp.mount_entity_id;
      mount_anim_id = gp.mount_anim_id;
      mount_anim_time = gp.mount_anim_time;
      mount_position = gp.mount_position;
      mount_present = true;
    }
    else record old { mount_present = false }

unfoldable pub received_dodge : PlayerState → PlayerState → PlayerState
received_dodge gp old =
    if gp.dodge_present
    then record old { dodge_x = gp.dodge_x; dodge_y = gp.dodge_y; dodge_present = true }
    else record old { dodge_present = false }

unfoldable pub received_death : PlayerState → PlayerState → PlayerState
received_death gp old =
    if gp.death_present
    then record old { is_dead = gp.is_dead; death_present = true }
    else record old { death_present = false }

unfoldable pub received_respawn : PlayerState → PlayerState → PlayerState
received_respawn gp old =
    if gp.respawn_present
    then record old { respawn_position = gp.respawn_position; respawn_present = true }
    else record old { respawn_present = false }

unfoldable pub received_interaction : PlayerState → PlayerState → PlayerState
received_interaction gp old =
    if gp.interaction_present
    then record old {
      interaction_type = gp.interaction_type;
      interaction_entity_id = gp.interaction_entity_id;
      interaction_present = true;
    }
    else record old { interaction_present = false }

abbrev pub received : PlayerState → PlayerState → PlayerState
received gp old = received_interaction gp (
    received_respawn gp (
      received_death gp (
        received_dodge gp (
          received_mount gp (
            received_equipment gp (
              received_status gp
                (received_vfx gp (received_skill gp (received_traversal gp old)))))))))

-- Numbers of the local player that JSON carries.
pub record LocalFits (l : Local) : Type 0 where
  pub position : FiniteVec l.position
  pub velocity : FiniteVec l.velocity
  pub health : Finite l.health
  pub max_health : Finite l.max_health
  pub anim_id : Word l.anim.anim_id
  pub anim_time : Finite l.anim.anim_time
  pub move_flags : Word l.anim.move_flags
  pub combat_flags : Word l.anim.combat_flags
  pub blend_weight : Finite l.anim.blend_weight
  pub gameplay : Fits l.gameplay

-- The receiver's entry: the position becomes the target, and is taken at once where no packet came
-- before.
unfoldable pub shown : ℕ → String → Local → RemotePlayer → RemotePlayer
shown now id l rp = record rp {
  id = id;
  name = "";
  current_pos = if rp.last_update_time == 0 then l.position else rp.current_pos;
  target_pos = l.position;
  velocity = l.velocity;
  current_health = l.health;
  max_health = l.max_health;
  last_anim = l.anim;
  last_update_time = now;
  is_host = false;
  ping = 0;
  gameplay = received l.gameplay rp.gameplay;
  prev_anim_id = l.anim.anim_id;
  anim_change_streak = if l.anim.anim_id == rp.prev_anim_id then rp.anim_change_streak - 1 else 3;
}
