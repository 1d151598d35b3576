-- ===== src/Game/Cache/Fields.antt =====
-- The fields of the cache, as they are written and as they are read.
use crimson_desert_online_mo.Common.{
  ℕ, ◌%◌, ◌^◌, ◌≤◌, ◌<◌, ◌≡◌, refl, ap, ◌∙◌, some, List, [], ◌∷◌, String, arith,
}
use crimson_desert_online_mo.Net.Json.{JsonLib, IsJson, find_member}
use crimson_desert_online_mo.Game.Offsets.{GameOffsets}
use crimson_desert_online_mo.Game.Cache.{
  CacheField, cache_fields, saved_members, offset_members, read_field, read_fields,
}

-- Each cached offset fits its type: a pointer 64 bits, an offset 32.
pub record Fits (o : GameOffsets) : Type 0 where
  pub player_base_ptr : o.player_base_ptr < 2 ^ 64
  pub inventory_array_ptr : o.inventory_array_ptr < 2 ^ 64
  pub item_count_ptr : o.item_count_ptr < 2 ^ 64
  pub item_use_fn : o.item_use_fn < 2 ^ 64
  pub attack_trigger_fn : o.attack_trigger_fn < 2 ^ 64
  pub skill_trigger_fn : o.skill_trigger_fn < 2 ^ 64
  pub off_position_x : o.off_position_x < 2 ^ 32
  pub off_velocity_x : o.off_velocity_x < 2 ^ 32
  pub off_rotation_yaw : o.off_rotation_yaw < 2 ^ 32
  pub off_rotation_pitch : o.off_rotation_pitch < 2 ^ 32
  pub off_health : o.off_health < 2 ^ 32
  pub off_max_health : o.off_max_health < 2 ^ 32
  pub off_anim_id : o.off_anim_id < 2 ^ 32
  pub off_anim_time : o.off_anim_time < 2 ^ 32
  pub off_move_flags : o.off_move_flags < 2 ^ 32
  pub off_combat_flags : o.off_combat_flags < 2 ^ 32
  pub off_blend_weight : o.off_blend_weight < 2 ^ 32
  pub off_entity_id : o.off_entity_id < 2 ^ 32
  pub traversal_flags_offset : o.traversal_flags_offset < 2 ^ 32
  pub traversal_target_pos_offset : o.traversal_target_pos_offset < 2 ^ 32
  pub skill_component_offset : o.skill_component_offset < 2 ^ 32
  pub vfx_component_offset : o.vfx_component_offset < 2 ^ 32
  pub status_component_offset : o.status_component_offset < 2 ^ 32
  pub equipment_component_offset : o.equipment_component_offset < 2 ^ 32
  pub mount_entity_ptr_offset : o.mount_entity_ptr_offset < 2 ^ 32
  pub dodge_component_offset : o.dodge_component_offset < 2 ^ 32
  pub item_stride : o.item_stride < 2 ^ 32
  pub off_item_id : o.off_item_id < 2 ^ 32
  pub off_item_quantity : o.off_item_quantity < 2 ^ 32
  pub off_item_durability : o.off_item_durability < 2 ^ 32
  pub off_item_flags : o.off_item_flags < 2 ^ 32
  pub off_item_name_hash : o.off_item_name_hash < 2 ^ 32

-- The offsets `g` with each cached one as in `o`.
abbrev pub with_cached : GameOffsets → GameOffsets → GameOffsets
with_cached o g = record g {
  player_base_ptr = o.player_base_ptr;
  inventory_array_ptr = o.inventory_array_ptr;
  item_count_ptr = o.item_count_ptr;
  item_use_fn = o.item_use_fn;
  attack_trigger_fn = o.attack_trigger_fn;
  skill_trigger_fn = o.skill_trigger_fn;
  off_position_x = o.off_position_x;
  off_velocity_x = o.off_velocity_x;
  off_rotation_yaw = o.off_rotation_yaw;
  off_rotation_pitch = o.off_rotation_pitch;
  off_health = o.off_health;
  off_max_health = o.off_max_health;
  off_anim_id = o.off_anim_id;
  off_anim_time = o.off_anim_time;
  off_move_flags = o.off_move_flags;
  off_combat_flags = o.off_combat_flags;
  off_blend_weight = o.off_blend_weight;
  off_entity_id = o.off_entity_id;
  traversal_flags_offset = o.traversal_flags_offset;
  traversal_target_pos_offset = o.traversal_target_pos_offset;
  skill_component_offset = o.skill_component_offset;
  vfx_component_offset = o.vfx_component_offset;
  status_component_offset = o.status_component_offset;
  equipment_component_offset = o.equipment_component_offset;
  mount_entity_ptr_offset = o.mount_entity_ptr_offset;
  dodge_component_offset = o.dodge_component_offset;
  item_stride = o.item_stride;
  off_item_id = o.off_item_id;
  off_item_quantity = o.off_item_quantity;
  off_item_durability = o.off_item_durability;
  off_item_flags = o.off_item_flags;
  off_item_name_hash = o.off_item_name_hash;
}

-- The fields set one after another to the values given.
abbrev pub set_fields : List CacheField → List (String × ℕ) → GameOffsets → GameOffsets
set_fields [] ms g = g
set_fields (f ∷ fs) [] g = g
set_fields (f ∷ fs) (m ∷ ms) g = set_fields fs ms (f.put m.1 g)

module _ (L : JsonLib) (laws : IsJson L) where
  -- The members hold, each under the name that is read, a value that fits.
  abbrev pub Holds : List (String × L.Value) → List CacheField → List (String × ℕ) → Type 0
  Holds kvs [] ms = Unit {0}
  Holds kvs (f ∷ fs) [] = ⊥
  Holds kvs (f ∷ fs) (m ∷ ms) =
      ((find_member f.name kvs ≡ some (L.number m.1)) × (m.1 < f.modulus) × (f.modulus ≤ 2 ^ 64))
      × Holds kvs fs ms

  read_field-number :
      (kvs : List (String × L.Value)) (v : ℕ) (g : GameOffsets) (f : CacheField)
      → find_member f.name kvs ≡ some (L.number v)
      → v < f.modulus
      → f.modulus ≤ 2 ^ 64
      → read_field L (L.object kvs) f g ≡ some (f.put v g)
  unfolding read_field
  read_field-number kvs v g f found fits small =
      let same : v % f.modulus ≡ v = grind arith in
      rw (
        laws.contains-object kvs f.name,
        found,
        laws.at-object kvs f.name (L.number v) found,
        laws.get_number-number v (omega arith),
        same,
      )

  pub read_fields-Holds :
      (kvs : List (String × L.Value)) (fs : List CacheField) (ms : List (String × ℕ))
      (g : GameOffsets)
      → Holds kvs fs ms
      → read_fields L (L.object kvs) fs (some g) ≡ some (set_fields fs ms g)
  unfolding read_fields
  read_fields-Holds kvs [] ms g h = refl
  read_fields-Holds kvs (f ∷ fs) [] g h = absurd h
  read_fields-Holds kvs (f ∷ fs) (m ∷ ms) g h =
      ap (read_fields L (L.object kvs) fs) (read_field-number kvs m.1 g f h.0.0 h.0.1 h.0.2)
      ∙ (read_fields-Holds kvs fs ms (f.put m.1 g) h.1)

  pub saved_members-Holds :
      (o : GameOffsets)
      → Fits o
      → Holds (offset_members L (saved_members o)) cache_fields (saved_members o)
  saved_members-Holds o f = ground (
    arith, f.player_base_ptr, f.inventory_array_ptr, f.item_count_ptr, f.item_use_fn,
    f.attack_trigger_fn, f.skill_trigger_fn, f.off_position_x, f.off_velocity_x, f.off_rotation_yaw,
    f.off_rotation_pitch, f.off_health, f.off_max_health, f.off_anim_id, f.off_anim_time,
    f.off_move_flags, f.off_combat_flags, f.off_blend_weight, f.off_entity_id,
    f.traversal_flags_offset, f.traversal_target_pos_offset, f.skill_component_offset,
    f.vfx_component_offset, f.status_component_offset, f.equipment_component_offset,
    f.mount_entity_ptr_offset, f.dodge_component_offset, f.item_stride, f.off_item_id,
    f.off_item_quantity, f.off_item_durability, f.off_item_flags, f.off_item_name_hash,
  )

  pub set_fields-with_cached :
      (o g : GameOffsets) → set_fields cache_fields (saved_members o) g ≡ with_cached o g
  set_fields-with_cached o g = refl
