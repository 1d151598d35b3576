-- ===== src/Inventory.antt =====
-- client/src/inventory/inventory_hook.h and inventory_hook.cpp: the beacon item and the hook of the
-- item use. Values are 32-bit patterns.
pub mod Append
pub mod Use
pub mod Fallback
mod Tests
use crimson_desert_online_mo.Common.{
  ℕ, ◌+◌, ◌*◌, ◌%◌, ◌^◌, Bool, true, false, not, ◌&&◌, ◌||◌, ◌==◌, ltb, leb, if◌then◌else◌,
}
use crimson_desert_online_mo.Game.Memory.{
  Memory, System, add_ptr, is_readable, safe_read, read_u32, write_u32,
}
use crimson_desert_online_mo.Game.Offsets.{
  GameOffsets, inventory_resolved, multiplayer_beacon_id, multiplayer_beacon_name_hash,
}
use crimson_desert_online_mo.Ui.Modal.{SessionStatus, ModalState, open_modal}

pub record InventoryHook : Type 0 where
  pub fallback : Bool
  pub beacon_appended : Bool

-- The answers of MinHook to `MH_CreateHook` and `MH_EnableHook`.
pub record Hooks : Type 0 where
  pub created : Bool
  pub enabled : Bool

pub install_use_hook : Hooks → GameOffsets → Bool
install_use_hook answers g =
    if g.item_use_fn == 0 then false else if not answers.created then false else answers.enabled

-- The 64-bit address of a slot; an index is converted to `uintptr_t` before.
abbrev pub slot_address : GameOffsets → ℕ → ℕ → ℕ
slot_address g array_base index = add_ptr array_base (index * g.item_stride)

module _ (sys : System) (g : GameOffsets) where
  pub read_slot_item_id : Memory → ℕ → ℕ
  read_slot_item_id mem index =
      if (g.inventory_array_ptr == 0) || (g.item_stride == 0)
      then 0
      else let array_base = safe_read sys mem g.inventory_array_ptr 8 in
        if array_base == 0
        then 0
        else read_u32 sys mem (slot_address g array_base index) g.off_item_id

  -- The overlay, and whether the engine's function is called; `has_engine` is whether there is one.
  pub hooked_use_item : Memory → ℕ → SessionStatus → Bool → ModalState → ModalState × Bool
  hooked_use_item mem index status has_engine modal =
      if read_slot_item_id mem index == multiplayer_beacon_id
      then (open_modal status modal, false)
      else (modal, has_engine)

  -- A count is a signed number: the pattern of a negative one is 2 ^ 31 or more.
  abbrev pub implausible_count : ℕ → Bool
  implausible_count count = leb (2 ^ 31) count || ltb 2000 count

  -- The five fields of the beacon, then the count.
  pub write_beacon : Memory → ℕ → ℕ → Memory
  write_beacon mem slot count =
      let mem = write_u32 sys mem slot g.off_item_id multiplayer_beacon_id in
      let mem = write_u32 sys mem slot g.off_item_quantity 1 in
      let mem = write_u32 sys mem slot g.off_item_durability 9999 in
      let mem = write_u32 sys mem slot g.off_item_flags 0 in
      let mem = write_u32 sys mem slot g.off_item_name_hash multiplayer_beacon_name_hash in
      write_u32 sys mem g.item_count_ptr 0 (count + 1)

  -- What is left of `AppendBeaconItem` once the array is known.
  append_at : Memory → ℕ → InventoryHook → (Memory × InventoryHook) × Bool
  unfolding write_beacon
  append_at mem array_base h =
      let count = safe_read sys mem g.item_count_ptr 4 in
      if implausible_count count
      then ((mem, h), false)
      else let slot = slot_address g array_base count in
        if not (is_readable sys slot g.item_stride)
        then ((mem, h), false)
        else ((write_beacon mem slot count, record h { beacon_appended = true }), true)

  pub append_beacon_item : Memory → InventoryHook → (Memory × InventoryHook) × Bool
  unfolding append_at
  append_beacon_item mem h =
      if h.beacon_appended
      then ((mem, h), true)
      else if not (inventory_resolved g)
      then ((mem, h), false)
      else let array_base = safe_read sys mem g.inventory_array_ptr 8 in
        if array_base == 0 then ((mem, h), false) else append_at mem array_base h

  -- `fallback` says that the thread of the F9 key is started.
  pub init : Hooks → Memory → InventoryHook → Memory × InventoryHook
  unfolding append_beacon_item
  init answers mem h =
      let inv_ok = inventory_resolved g in
      let use_hook_ok = inv_ok && install_use_hook answers g in
      let after = if inv_ok then (append_beacon_item mem h).0 else (mem, h) in
      if not inv_ok || not use_hook_ok then (after.0, record after.1 { fallback = true }) else after
