-- ===== src/Sync/Player/Sample.antt =====
-- A player who casts a skill.
use crimson_desert_online_mo.Common.{refl, true, [], ◌∷◌, arith}
use crimson_desert_online_mo.Sync.Player.{PlayerState, no_player_state, no_anim, zero_vec}
use crimson_desert_online_mo.Sync.Player.Send.{Local}
use crimson_desert_online_mo.Sync.Player.Send.Received.{Fits, LocalFits}

-- Stands at (1, 2, 0) and casts the skill 7 with two effects.
abbrev pub casting : PlayerState
casting = record no_player_state {
  skill_id = 7;
  skill_phase = 1;
  skill_target = record { x = 0x3F800000; y = 0; z = 0 };
  skill_present = true;
  active_vfx = 12 ∷ 13 ∷ [];
  vfx_present = true;
}

abbrev pub hero : Local
hero = record {
  position = record { x = 0x3F800000; y = 0x40000000; z = 0 };
  velocity = zero_vec;
  yaw = 0;
  pitch = 0;
  health = 0x42C80000;
  max_health = 0x42C80000;
  anim = no_anim;
  gameplay = casting;
}

casting-Fits : Fits casting
casting-Fits = record {
  mode = omega arith;
  anim_id = omega arith;
  anim_time = (omega arith, refl);
  target = ((omega arith, refl), (omega arith, refl), (omega arith, refl));
  progress = (omega arith, refl);
  skill_id = omega arith;
  skill_phase = omega arith;
  skill_anim_id = omega arith;
  skill_target = ((omega arith, refl), (omega arith, refl), (omega arith, refl));
  skill_target_entity = omega arith;
  active_vfx = (omega arith, (omega arith, tt));
  status_flags = omega arith;
  buff_ids = tt;
  weapon_id = omega arith;
  weapon_stance = omega arith;
  off_hand_id = omega arith;
  mount_entity_id = omega arith;
  mount_anim_id = omega arith;
  mount_anim_time = (omega arith, refl);
  mount_position = ((omega arith, refl), (omega arith, refl), (omega arith, refl));
  dodge_x = (omega arith, refl);
  dodge_y = (omega arith, refl);
  respawn_position = ((omega arith, refl), (omega arith, refl), (omega arith, refl));
  interaction_type = omega arith;
  interaction_entity_id = omega arith;
}

pub hero-LocalFits : LocalFits hero
hero-LocalFits = record {
  position = ((omega arith, refl), (omega arith, refl), (omega arith, refl));
  velocity = ((omega arith, refl), (omega arith, refl), (omega arith, refl));
  health = (omega arith, refl);
  max_health = (omega arith, refl);
  anim_id = omega arith;
  anim_time = (omega arith, refl);
  move_flags = omega arith;
  combat_flags = omega arith;
  blend_weight = (omega arith, refl);
  gameplay = casting-Fits;
}
