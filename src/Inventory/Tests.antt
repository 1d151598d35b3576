-- ===== src/Inventory/Tests.antt =====
-- A beacon behind two items.
use crimson_desert_online_mo.Common.{
  ◌+◌, ◌≡◌, ◌≢◌, refl, inl, inr, true, false, ◌==◌, if◌then◌else◌, arith,
}
use crimson_desert_online_mo.Game.Memory.{
  Memory, System, is_readable, in_region, region_readable, safe_read, load,
}
use crimson_desert_online_mo.Game.Memory.Sample.{open_system}
use crimson_desert_online_mo.Game.Offsets.{GameOffsets, no_offsets, multiplayer_beacon_id}
use crimson_desert_online_mo.Ui.Modal.{open_modal, closed, in_session}
use crimson_desert_online_mo.Inventory.{
  InventoryHook, Hooks, append_beacon_item, append_at, hooked_use_item, read_slot_item_id,
  install_use_hook,
}
use crimson_desert_online_mo.Inventory.Append.{new_slot, next_slot, append_beacon_item-frame}
use crimson_desert_online_mo.Inventory.Use.{Placed, append_beacon_item-use}

-- The pointer of the array is at 0x3000, the count behind it, the array at 0x4000.
abbrev offsets : GameOffsets
offsets = record no_offsets {
  inventory_array_ptr = 0x3000;
  item_count_ptr = 0x3008;
  item_use_fn = 0x140000500;
  item_stride = 0x40;
  off_item_id = 0x00;
  off_item_quantity = 0x08;
  off_item_durability = 0x0C;
  off_item_flags = 0x10;
  off_item_name_hash = 0x14;
}

abbrev two_items : Memory
two_items = λ a. if a == 0x3001 then 0x40 else if a == 0x3008 then 2 else 0

abbrev fresh : InventoryHook
fresh = record { fallback = false; beacon_appended = false }

slot_at : new_slot open_system offsets two_items ≡ 0x4080
unfolding safe_read is_readable in_region region_readable load
slot_at = refl

count_at : safe_read open_system two_items 0x3008 4 ≡ 2
unfolding safe_read is_readable in_region region_readable load
count_at = refl

done : (append_beacon_item open_system offsets two_items fresh).1 ≡ true
unfolding append_beacon_item append_at safe_read is_readable in_region region_readable load
done = refl

placed : Placed open_system offsets (new_slot open_system offsets two_items)
unfolding safe_read is_readable in_region region_readable load
placed = record {
  fits = ground arith;
  id_apart = ground arith;
  some_slot = ground arith;
  slot_below = ground arith;
  count_below = ground arith;
  count_slot = inl (ground arith);
  array_slot = inl (ground arith);
  array_count = inl (ground arith);
  id_accessible = record { readable = refl; reads = refl; writes = refl };
  count_accessible = record { readable = refl; reads = refl; writes = refl };
}

append_beacon_item-use_example :
    (let count = safe_read open_system two_items 0x3008 4 in
      let after = (append_beacon_item open_system offsets two_items fresh).0.0 in
      (safe_read open_system after 0x3008 4 ≡ count + 1)
      × (read_slot_item_id open_system offsets after count ≡ multiplayer_beacon_id)
      × (hooked_use_item open_system offsets after count in_session true closed
          ≡ (open_modal in_session closed, false)))
append_beacon_item-use_example =
    append_beacon_item-use open_system offsets two_items fresh in_session true closed refl placed
      done

next_at : next_slot open_system offsets two_items ≡ 0x4080
unfolding load
next_at = refl

count_readable : is_readable open_system 0x3008 4 ≡ true
unfolding is_readable in_region region_readable
count_readable = refl

-- A byte of the second item.
append_beacon_item-frame_example :
    (append_beacon_item open_system offsets two_items fresh).0.0 0x4044 ≡ two_items 0x4044
append_beacon_item-frame_example =
    append_beacon_item-frame open_system offsets two_items fresh 0x4044 count_readable refl
      (ground arith) (rw next_at (omega arith)) (omega arith) (inl (rw next_at (omega arith)))
      (inr (omega arith))

abbrev hooked : Hooks
hooked = record { created = true; enabled = true }

abbrev no_array : Memory
no_array = λ a. 0

installed : install_use_hook hooked offsets ≡ true
unfolding install_use_hook
installed = refl

null_array : safe_read open_system no_array 0x3000 8 ≡ 0
unfolding safe_read is_readable in_region region_readable load
null_array = refl

-- A system whose pages can be read only.
abbrev read_only : System
read_only = record open_system { write_faults = λ a n. true }

array_there : safe_read read_only two_items 0x3000 8 ≢ 0
unfolding safe_read is_readable in_region region_readable load
array_there = λ e. omega arith

count_small : safe_read read_only two_items 0x3008 4 ≡ 2
unfolding safe_read is_readable in_region region_readable load
count_small = refl

slot_readable : is_readable read_only (new_slot read_only offsets two_items) 0x40 ≡ true
unfolding safe_read is_readable in_region region_readable load
slot_readable = refl
