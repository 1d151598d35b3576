-- ===== src/Game/Offsets.antt =====
-- client/src/game/offsets.h: what the scanner finds, 0 for "not found".
use crimson_desert_online_mo.Common.{ℕ, Bool, not, ◌&&◌, ◌==◌}

pub record GameOffsets : Type 0 where
  pub player_base_ptr : ℕ
  pub entity_list_ptr : ℕ
  pub inventory_array_ptr : ℕ
  pub item_count_ptr : ℕ
  pub item_use_fn : ℕ
  pub attack_trigger_fn : ℕ
  pub skill_trigger_fn : ℕ
  pub cutscene_fn : ℕ
  pub cinematic_flag_ptr : ℕ
  pub puzzle_input_fn : ℕ
  pub puzzle_trigger_fn : ℕ
  pub off_position_x : ℕ
  pub off_velocity_x : ℕ
  pub off_rotation_yaw : ℕ
  pub off_rotation_pitch : ℕ
  pub off_health : ℕ
  pub off_max_health : ℕ
  pub off_anim_id : ℕ
  pub off_anim_time : ℕ
  pub off_move_flags : ℕ
  pub off_combat_flags : ℕ
  pub off_blend_weight : ℕ
  pub off_entity_id : ℕ
  pub traversal_flags_offset : ℕ
  pub traversal_target_pos_offset : ℕ
  pub skill_component_offset : ℕ
  pub vfx_component_offset : ℕ
  pub status_component_offset : ℕ
  pub equipment_component_offset : ℕ
  pub mount_entity_ptr_offset : ℕ
  pub dodge_component_offset : ℕ
  pub item_stride : ℕ
  pub off_item_id : ℕ
  pub off_item_quantity : ℕ
  pub off_item_durability : ℕ
  pub off_item_flags : ℕ
  pub off_item_name_hash : ℕ

abbrev pub player_layout_resolved : GameOffsets → Bool
player_layout_resolved o =
    not (o.player_base_ptr == 0)
    && not (o.off_position_x == 0)
    && not (o.off_health == 0)
    && not (o.off_anim_id == 0)

abbrev pub inventory_resolved : GameOffsets → Bool
inventory_resolved o =
    not (o.inventory_array_ptr == 0) && not (o.item_count_ptr == 0) && not (o.item_stride == 0)

-- `GameOffsets{}`.
abbrev pub no_offsets : GameOffsets
no_offsets = record {
  player_base_ptr = 0;
  entity_list_ptr = 0;
  inventory_array_ptr = 0;
  item_count_ptr = 0;
  item_use_fn = 0;
  attack_trigger_fn = 0;
  skill_trigger_fn = 0;
  cutscene_fn = 0;
  cinematic_flag_ptr = 0;
  puzzle_input_fn = 0;
  puzzle_trigger_fn = 0;
  off_position_x = 0;
  off_velocity_x = 0;
  off_rotation_yaw = 0;
  off_rotation_pitch = 0;
  off_health = 0;
  off_max_health = 0;
  off_anim_id = 0;
  off_anim_time = 0;
  off_move_flags = 0;
  off_combat_flags = 0;
  off_blend_weight = 0;
  off_entity_id = 0;
  traversal_flags_offset = 0;
  traversal_target_pos_offset = 0;
  skill_component_offset = 0;
  vfx_component_offset = 0;
  status_component_offset = 0;
  equipment_component_offset = 0;
  mount_entity_ptr_offset = 0;
  dodge_component_offset = 0;
  item_stride = 0;
  off_item_id = 0;
  off_item_quantity = 0;
  off_item_durability = 0;
  off_item_flags = 0;
  off_item_name_hash = 0;
}

-- The id and the name hash of the "Multiplayer Beacon".
abbrev pub multiplayer_beacon_id : ℕ
multiplayer_beacon_id = 0xCD4D50

abbrev pub multiplayer_beacon_name_hash : ℕ
multiplayer_beacon_name_hash = 0xB3AC0411
