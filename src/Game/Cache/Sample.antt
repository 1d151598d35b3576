-- ===== src/Game/Cache/Sample.antt =====
-- Offsets that were found, two places of the module and the cache that is written, for the tests.
use crimson_desert_online_mo.Common.{arith}
use crimson_desert_online_mo.Net.Json.Sample.{Tree, absent, sample}
use crimson_desert_online_mo.Game.Offsets.{GameOffsets, no_offsets}
use crimson_desert_online_mo.Game.Pattern.{ModuleRange}
use crimson_desert_online_mo.Game.Cache.{cache_members}
use crimson_desert_online_mo.Game.Cache.Fields.{Fits}

abbrev pub found : GameOffsets
found = record no_offsets {
  player_base_ptr = 0x140001234;
  off_position_x = 0x40;
  off_health = 0x80;
  off_anim_id = 0x100;
  item_stride = 0x40;
}

pub found-Fits : Fits found
found-Fits = record {
  player_base_ptr = omega arith;
  inventory_array_ptr = omega arith;
  item_count_ptr = omega arith;
  item_use_fn = omega arith;
  attack_trigger_fn = omega arith;
  skill_trigger_fn = omega arith;
  off_position_x = omega arith;
  off_velocity_x = omega arith;
  off_rotation_yaw = omega arith;
  off_rotation_pitch = omega arith;
  off_health = omega arith;
  off_max_health = omega arith;
  off_anim_id = omega arith;
  off_anim_time = omega arith;
  off_move_flags = omega arith;
  off_combat_flags = omega arith;
  off_blend_weight = omega arith;
  off_entity_id = omega arith;
  traversal_flags_offset = omega arith;
  traversal_target_pos_offset = omega arith;
  skill_component_offset = omega arith;
  vfx_component_offset = omega arith;
  status_component_offset = omega arith;
  equipment_component_offset = omega arith;
  mount_entity_ptr_offset = omega arith;
  dodge_component_offset = omega arith;
  item_stride = omega arith;
  off_item_id = omega arith;
  off_item_quantity = omega arith;
  off_item_durability = omega arith;
  off_item_flags = omega arith;
  off_item_name_hash = omega arith;
}

abbrev pub old_range : ModuleRange
old_range = record { base = 0x140000000; size = 0x10000 }

abbrev pub new_range : ModuleRange
new_range = record { base = 0x150000000; size = 0x10000 }

abbrev pub written_tree : Tree
written_tree = (sample absent).object (cache_members (sample absent) "ab12" old_range found)
