-- ===== src/Game/Cache.antt =====
-- client/src/game/scanner.cpp: `SaveOffsetCache` and `LoadFromCache`, the cache of the offsets on
-- disk. The file is its bytes, `none` where it cannot be opened; an exception is `thrown`.
pub mod Fields
pub mod RoundTrip
pub mod Missing
pub mod Accepted
pub mod Sample
mod Tests
use crimson_desert_online_mo.Common.{
  ℕ, ◌+◌, ◌-◌, ◌%◌, ◌^◌, Bool, true, false, not, ◌&&◌, Option, none, some, List, [], ◌∷◌, ◌++◌, map,
  String, ◌==◌, leb, str_eq, if◌then◌else◌,
}
use crimson_desert_online_mo.Net.Json.{JsonLib}
use crimson_desert_online_mo.Game.Offsets.{GameOffsets, player_layout_resolved}
use crimson_desert_online_mo.Game.Pattern.{ModuleRange}

-- `rd(k, g_offsets.field)`: the name, the size of the field's type, and the field that is set.
pub record CacheField : Type 0 where
  pub name : String
  pub modulus : ℕ
  pub put : ℕ → GameOffsets → GameOffsets

abbrev ptr : String → (ℕ → GameOffsets → GameOffsets) → CacheField
ptr name put = record { name = name; modulus = 2 ^ 64; put = put }

abbrev u32 : String → (ℕ → GameOffsets → GameOffsets) → CacheField
u32 name put = record { name = name; modulus = 2 ^ 32; put = put }

-- What `LoadFromCache` reads, in its order.
abbrev pub cache_fields : List CacheField
cache_fields =
    ptr "playerBasePtr" (λ v o. record o { player_base_ptr = v })
    ∷ ptr "inventoryArrayPtr" (λ v o. record o { inventory_array_ptr = v })
    ∷ ptr "itemCountPtr" (λ v o. record o { item_count_ptr = v })
    ∷ ptr "itemUseFn" (λ v o. record o { item_use_fn = v })
    ∷ ptr "attackTriggerFn" (λ v o. record o { attack_trigger_fn = v })
    ∷ ptr "skillTriggerFn" (λ v o. record o { skill_trigger_fn = v })
    ∷ u32 "offPositionX" (λ v o. record o { off_position_x = v })
    ∷ u32 "offVelocityX" (λ v o. record o { off_velocity_x = v })
    ∷ u32 "offRotationYaw" (λ v o. record o { off_rotation_yaw = v })
    ∷ u32 "offRotationPitch" (λ v o. record o { off_rotation_pitch = v })
    ∷ u32 "offHealth" (λ v o. record o { off_health = v })
    ∷ u32 "offMaxHealth" (λ v o. record o { off_max_health = v })
    ∷ u32 "offAnimId" (λ v o. record o { off_anim_id = v })
    ∷ u32 "offAnimTime" (λ v o. record o { off_anim_time = v })
    ∷ u32 "offMoveFlags" (λ v o. record o { off_move_flags = v })
    ∷ u32 "offCombatFlags" (λ v o. record o { off_combat_flags = v })
    ∷ u32 "offBlendWeight" (λ v o. record o { off_blend_weight = v })
    ∷ u32 "offEntityId" (λ v o. record o { off_entity_id = v })
    ∷ u32 "traversalFlagsOffset" (λ v o. record o { traversal_flags_offset = v })
    ∷ u32 "traversalTargetPosOffset" (λ v o. record o { traversal_target_pos_offset = v })
    ∷ u32 "skillComponentOffset" (λ v o. record o { skill_component_offset = v })
    ∷ u32 "vfxComponentOffset" (λ v o. record o { vfx_component_offset = v })
    ∷ u32 "statusComponentOffset" (λ v o. record o { status_component_offset = v })
    ∷ u32 "equipmentComponentOffset" (λ v o. record o { equipment_component_offset = v })
    ∷ u32 "mountEntityPtrOffset" (λ v o. record o { mount_entity_ptr_offset = v })
    ∷ u32 "dodgeComponentOffset" (λ v o. record o { dodge_component_offset = v })
    ∷ u32 "itemStride" (λ v o. record o { item_stride = v })
    ∷ u32 "offItemId" (λ v o. record o { off_item_id = v })
    ∷ u32 "offItemQuantity" (λ v o. record o { off_item_quantity = v })
    ∷ u32 "offItemDurability" (λ v o. record o { off_item_durability = v })
    ∷ u32 "offItemFlags" (λ v o. record o { off_item_flags = v })
    ∷ u32 "offItemNameHash" (λ v o. record o { off_item_name_hash = v })
    ∷ []

-- What `SaveOffsetCache` writes, in its order.
abbrev pub saved_members : GameOffsets → List (String × ℕ)
saved_members o =
    ("playerBasePtr", o.player_base_ptr)
    ∷ ("inventoryArrayPtr", o.inventory_array_ptr)
    ∷ ("itemCountPtr", o.item_count_ptr)
    ∷ ("itemUseFn", o.item_use_fn)
    ∷ ("attackTriggerFn", o.attack_trigger_fn)
    ∷ ("skillTriggerFn", o.skill_trigger_fn)
    ∷ ("offPositionX", o.off_position_x)
    ∷ ("offVelocityX", o.off_velocity_x)
    ∷ ("offRotationYaw", o.off_rotation_yaw)
    ∷ ("offRotationPitch", o.off_rotation_pitch)
    ∷ ("offHealth", o.off_health)
    ∷ ("offMaxHealth", o.off_max_health)
    ∷ ("offAnimId", o.off_anim_id)
    ∷ ("offAnimTime", o.off_anim_time)
    ∷ ("offMoveFlags", o.off_move_flags)
    ∷ ("offCombatFlags", o.off_combat_flags)
    ∷ ("offBlendWeight", o.off_blend_weight)
    ∷ ("offEntityId", o.off_entity_id)
    ∷ ("traversalFlagsOffset", o.traversal_flags_offset)
    ∷ ("traversalTargetPosOffset", o.traversal_target_pos_offset)
    ∷ ("skillComponentOffset", o.skill_component_offset)
    ∷ ("vfxComponentOffset", o.vfx_component_offset)
    ∷ ("statusComponentOffset", o.status_component_offset)
    ∷ ("equipmentComponentOffset", o.equipment_component_offset)
    ∷ ("mountEntityPtrOffset", o.mount_entity_ptr_offset)
    ∷ ("dodgeComponentOffset", o.dodge_component_offset)
    ∷ ("itemStride", o.item_stride)
    ∷ ("offItemId", o.off_item_id)
    ∷ ("offItemQuantity", o.off_item_quantity)
    ∷ ("offItemDurability", o.off_item_durability)
    ∷ ("offItemFlags", o.off_item_flags)
    ∷ ("offItemNameHash", o.off_item_name_hash)
    ∷ []

module _ (L : JsonLib) where
  open L use {Value, parse, dump, text, number, object, contains, at, get_text, get_number}

  abbrev pub offset_members : List (String × ℕ) → List (String × Value)
  offset_members [] = []
  offset_members ((name, v) ∷ ms) = (name, number v) ∷ offset_members ms

  abbrev pub cache_members : String → ModuleRange → GameOffsets → List (String × Value)
  cache_members hash range o =
      ("hash", text hash)
      ∷ ("offsets", object (offset_members (saved_members o)))
      ∷ (if not (range.base == 0) && leb range.base o.player_base_ptr
          then ("playerBaseRva", number (o.player_base_ptr - range.base)) ∷ []
          else [])

  -- The bytes of the file.
  pub save_offset_cache : String → ModuleRange → GameOffsets → List ℕ
  save_offset_cache hash range o = dump (object (cache_members hash range o))

  -- How `LoadFromCache` ends: an answer with the offsets as they then are, or an exception.
  pub data Loaded : Type 0 where
    answered : Bool → GameOffsets → Loaded
    thrown : Loaded

  -- `rd(k, dst)`.
  abbrev read_value : CacheField → Option ℕ → GameOffsets → Option GameOffsets
  read_value f none g = none
  read_value f (some v) g = some (f.put (v % f.modulus) g)

  read_field : Value → CacheField → GameOffsets → Option GameOffsets
  read_field o f g = if contains o f.name then read_value f (get_number (at o f.name)) g else some g

  pub read_fields : Value → List CacheField → Option GameOffsets → Option GameOffsets
  read_fields o fs none = none
  read_fields o [] (some g) = some g
  read_fields o (f ∷ fs) (some g) = read_fields o fs (read_field o f g)

  abbrev rebase : Option ℕ → ModuleRange → GameOffsets → Loaded
  rebase none range g = thrown
  rebase (some rva) range g =
      let g' = record g { player_base_ptr = (range.base + rva) % 2 ^ 64 } in
      answered (player_layout_resolved g') g'

  read_base : Value → ModuleRange → Option GameOffsets → Loaded
  read_base j range none = thrown
  read_base j range (some g) =
      if contains j "playerBaseRva" && not (range.base == 0)
      then rebase (get_number (at j "playerBaseRva")) range g
      else answered (player_layout_resolved g) g

  -- `j["offsets"]` of an object without that member is a new null, which contains nothing.
  read_offsets : Value → ModuleRange → GameOffsets → Loaded
  unfolding read_base read_fields read_field
  read_offsets j range g =
      read_base j range (
        if contains j "offsets" then read_fields (at j "offsets") cache_fields (some g) else some g)

  abbrev check_hash : Option String → String → Value → ModuleRange → GameOffsets → Loaded
  check_hash none hash j range g = thrown
  check_hash (some h) hash j range g =
      if str_eq h hash then read_offsets j range g else answered false g

  read_json : Option Value → String → ModuleRange → GameOffsets → Loaded
  read_json none hash range g = answered false g
  read_json (some j) hash range g =
      if not (contains j "hash")
      then answered false g
      else check_hash (get_text (at j "hash")) hash j range g

  abbrev read_file : Option (List ℕ) → Option Value
  read_file none = none
  read_file (some bytes) = parse bytes

  pub load_from_cache : Option (List ℕ) → String → ModuleRange → GameOffsets → Loaded
  unfolding read_json
  load_from_cache file hash range g = read_json (read_file file) hash range g
