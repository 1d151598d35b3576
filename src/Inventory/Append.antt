-- ===== src/Inventory/Append.antt =====
-- What the beacon does to the inventory.
use crimson_desert_online_mo.Common.{
  ℕ, ◌+◌, ◌^◌, ◌≤◌, ◌<◌, ◌≡◌, ◌∙◌, ◌⊎◌, inl, inr, refl, true, false, arith,
}
use crimson_desert_online_mo.Game.Memory.{Memory, System, is_readable, load, safe_read}
use crimson_desert_online_mo.Game.Memory.Fields.{Outside, write_u32_frame}
use crimson_desert_online_mo.Game.Offsets.{
  GameOffsets, multiplayer_beacon_id, multiplayer_beacon_name_hash,
}
use crimson_desert_online_mo.Inventory.{
  InventoryHook, slot_address, write_beacon, append_at, append_beacon_item,
}

-- The fields of an item lie inside its slot.
abbrev pub FitsSlot : GameOffsets → Type 0
FitsSlot g =
    (g.off_item_id + 4 ≤ g.item_stride)
    × (g.off_item_quantity + 4 ≤ g.item_stride)
    × (g.off_item_durability + 4 ≤ g.item_stride)
    × (g.off_item_flags + 4 ≤ g.item_stride)
    × (g.off_item_name_hash + 4 ≤ g.item_stride)

module _ (sys : System) (g : GameOffsets) (mem : Memory) where
  write_beacon_frame :
      (slot count a : ℕ)
      → FitsSlot g
      → slot + g.item_stride ≤ 2 ^ 64
      → g.item_count_ptr < 2 ^ 64
      → Outside a slot g.item_stride
      → Outside a g.item_count_ptr 4
      → write_beacon sys g mem slot count a ≡ mem a
  unfolding write_beacon
  write_beacon_frame slot count a (f1, f2, f3, f4, f5) room below out out_count =
      write_u32_frame sys _ g.item_count_ptr 0 (count + 1) a (omega arith) (ground arith)
      ∙ write_u32_frame sys _ slot g.off_item_name_hash multiplayer_beacon_name_hash a (omega arith)
          (ground arith)
      ∙ write_u32_frame sys _ slot g.off_item_flags 0 a (omega arith) (ground arith)
      ∙ write_u32_frame sys _ slot g.off_item_durability 9999 a (omega arith) (ground arith)
      ∙ write_u32_frame sys _ slot g.off_item_quantity 1 a (omega arith) (ground arith)
      ∙ write_u32_frame sys mem slot g.off_item_id multiplayer_beacon_id a (omega arith)
          (ground arith)

  -- The slot behind the last item, where the beacon goes.
  abbrev pub new_slot : ℕ
  new_slot =
      slot_address g (safe_read sys mem g.inventory_array_ptr 8)
        (safe_read sys mem g.item_count_ptr 4)

  -- The slot behind the last item, by what the memory holds.
  abbrev pub next_slot : ℕ
  next_slot = slot_address g (load mem g.inventory_array_ptr 8) (load mem g.item_count_ptr 4)

  count_read :
      is_readable sys g.item_count_ptr 4 ≡ true
      → sys.read_faults g.item_count_ptr 4 ≡ false
      → safe_read sys mem g.item_count_ptr 4 ≡ load mem g.item_count_ptr 4
  unfolding safe_read
  count_read readable reads = rw (readable, reads) refl

  array_read :
      (safe_read sys mem g.inventory_array_ptr 8 ≡ 0)
      ⊎ (safe_read sys mem g.inventory_array_ptr 8 ≡ load mem g.inventory_array_ptr 8)
  unfolding safe_read
  array_read = ground arith

  append_beacon_item-null :
      (h : InventoryHook) (a : ℕ)
      → safe_read sys mem g.inventory_array_ptr 8 ≡ 0
      → (append_beacon_item sys g mem h).0.0 a ≡ mem a
  unfolding append_beacon_item append_at
  append_beacon_item-null h a null = ground (arith, null)

  append_beacon_item-new_slot :
      (h : InventoryHook) (a : ℕ)
      → FitsSlot g
      → new_slot + g.item_stride ≤ 2 ^ 64
      → g.item_count_ptr < 2 ^ 64
      → Outside a new_slot g.item_stride
      → Outside a g.item_count_ptr 4
      → (append_beacon_item sys g mem h).0.0 a ≡ mem a
  unfolding append_beacon_item append_at
  append_beacon_item-new_slot h a fits room below out out_count = ground (
    arith,
    write_beacon_frame new_slot (safe_read sys mem g.item_count_ptr 4) a fits room below out
        out_count,
  )

  -- Where the number of items can be read, the fields lie inside a slot, and the slot behind the last
  -- item and the count do not wrap around, `AppendBeaconItem`, whether it succeeds or not, changes no
  -- byte outside the slot behind the last item, by the array and the number of items that stand in
  -- the memory, and outside that number.
  pub append_beacon_item-frame :
      (h : InventoryHook) (a : ℕ)
      → is_readable sys g.item_count_ptr 4 ≡ true
      → sys.read_faults g.item_count_ptr 4 ≡ false
      → FitsSlot g
      → next_slot + g.item_stride ≤ 2 ^ 64
      → g.item_count_ptr < 2 ^ 64
      → Outside a next_slot g.item_stride
      → Outside a g.item_count_ptr 4
      → (append_beacon_item sys g mem h).0.0 a ≡ mem a
  append_beacon_item-frame h a readable reads fits room below out out_count = elim array_read [
    | inl null ↦ append_beacon_item-null h a null
    | inr there ↦
        let count = count_read readable reads in
        append_beacon_item-new_slot h a fits (rw (there, count) room) below (rw (there, count) out)
          out_count
  ]
