-- ===== src/Inventory/Fallback.antt =====
-- When the thread of the F9 key is started, and a beacon that is not written.
use crimson_desert_online_mo.Common.{ℕ, ◌≤◌, ◌≡◌, refl, ◌≢◌, ◌⊎◌, ◌↔◌, true, false, ◌&&◌, arith}
use crimson_desert_online_mo.Game.Memory.{Memory, System, is_readable, safe_read, write_u32}
use crimson_desert_online_mo.Game.Memory.Fields.{write_u32-faults}
use crimson_desert_online_mo.Game.Offsets.{GameOffsets, inventory_resolved}
use crimson_desert_online_mo.Inventory.{
  InventoryHook, Hooks, install_use_hook, append_at, append_beacon_item, init, write_beacon,
}
use crimson_desert_online_mo.Inventory.Append.{new_slot}

module _ (sys : System) (g : GameOffsets) (mem : Memory) (h : InventoryHook) where
  -- After `Init` the thread of the F9 key is started, or was before, exactly if the inventory is not
  -- resolved or the hook is not installed.
  pub init-fallback :
      (answers : Hooks)
      → ((init sys g answers mem h).1.fallback ≡ true)
        ↔ ((h.fallback ≡ true) ⊎ (inventory_resolved g && install_use_hook answers g ≡ false))
  unfolding init append_beacon_item append_at
  init-fallback answers = ground arith

  write_beacon-faults :
      (slot count : ℕ)
      → ((addr n : ℕ) → sys.write_faults addr n ≡ true)
      → write_beacon sys g mem slot count ≡ mem
  unfolding write_beacon
  write_beacon-faults slot count faults =
      let skip : (m : Memory) (base offset v : ℕ) → write_u32 sys m base offset v ≡ m =
        λ m base offset v. write_u32-faults sys m base offset v faults in
      simp skip refl

  -- Where no beacon was appended before, the inventory is resolved, with an array and a count of at
  -- most 2000, the slot can be read and every write faults, `AppendBeaconItem` reports a success
  -- though it has written nothing.
  pub append_beacon_item_unwritten :
      h.beacon_appended ≡ false
      → inventory_resolved g ≡ true
      → safe_read sys mem g.inventory_array_ptr 8 ≢ 0
      → safe_read sys mem g.item_count_ptr 4 ≤ 2000
      → is_readable sys (new_slot sys g mem) g.item_stride ≡ true
      → ((addr n : ℕ) → sys.write_faults addr n ≡ true)
      → append_beacon_item sys g mem h ≡ ((mem, record h { beacon_appended = true }), true)
  unfolding append_beacon_item append_at
  append_beacon_item_unwritten fresh resolved array small readable faults = ground (
    arith,
    write_beacon-faults (new_slot sys g mem) (safe_read sys mem g.item_count_ptr 4) faults,
  )
