-- ===== src/Inventory/Use.antt =====
-- What the use of the beacon does.
use crimson_desert_online_mo.Common.{
  ℕ, ◌+◌, ◌^◌, ◌≤◌, ◌<◌, ◌≡◌, refl, ◌∙◌, ◌≢◌, Bool, true, false, arith,
}
use crimson_desert_online_mo.Game.Memory.{Memory, System, safe_read}
use crimson_desert_online_mo.Game.Memory.Laws.{Accessible}
use crimson_desert_online_mo.Game.Memory.Fields.{
  Apart, safe_read-write_u32_other, safe_read-write_u32_self, read_u32-at,
}
use crimson_desert_online_mo.Game.Offsets.{
  GameOffsets, inventory_resolved, multiplayer_beacon_id, multiplayer_beacon_name_hash,
}
use crimson_desert_online_mo.Ui.Modal.{SessionStatus, ModalState, open_modal}
use crimson_desert_online_mo.Inventory.{
  InventoryHook, write_beacon, append_at, append_beacon_item, read_slot_item_id, hooked_use_item,
}
use crimson_desert_online_mo.Inventory.Append.{FitsSlot, new_slot}

-- The id shares no byte with another field of the item.
abbrev pub IdApart : GameOffsets → Type 0
IdApart g =
    Apart g.off_item_id 4 g.off_item_quantity 4
    × Apart g.off_item_id 4 g.off_item_durability 4
    × Apart g.off_item_id 4 g.off_item_flags 4
    × Apart g.off_item_id 4 g.off_item_name_hash 4

-- Where the array's pointer, the count and the slot lie.
pub record Placed (sys : System) (g : GameOffsets) (slot : ℕ) : Type 0 where
  pub fits : FitsSlot g
  pub id_apart : IdApart g
  pub some_slot : slot ≢ 0
  pub slot_below : slot + g.item_stride ≤ 2 ^ 64
  pub count_below : g.item_count_ptr < 2 ^ 64
  pub count_slot : Apart g.item_count_ptr 4 slot g.item_stride
  pub array_slot : Apart g.inventory_array_ptr 8 slot g.item_stride
  pub array_count : Apart g.inventory_array_ptr 8 g.item_count_ptr 4
  pub id_accessible : Accessible sys (slot + g.off_item_id) 4
  pub count_accessible : Accessible sys g.item_count_ptr 4

module _ (sys : System) (g : GameOffsets) (slot : ℕ) (p : Placed sys g slot) where
  -- What lies apart from the slot and from the count reads as before.
  write_beacon-other :
      (mem : Memory) (count a n : ℕ)
      → Apart a n slot g.item_stride
      → Apart a n g.item_count_ptr 4
      → safe_read sys (write_beacon sys g mem slot count) a n ≡ safe_read sys mem a n
  unfolding write_beacon
  write_beacon-other mem count a n apart apart_count =
      let (f1, f2, f3, f4, f5) = p.fits in
      let below = p.slot_below in
      let count_below = p.count_below in
      safe_read-write_u32_other sys _ g.item_count_ptr 0 (count + 1) a n (omega arith)
        (ground arith)
      ∙ safe_read-write_u32_other sys _ slot g.off_item_name_hash multiplayer_beacon_name_hash a n
          (omega arith) (ground arith)
      ∙ safe_read-write_u32_other sys _ slot g.off_item_flags 0 a n (omega arith) (ground arith)
      ∙ safe_read-write_u32_other sys _ slot g.off_item_durability 9999 a n (omega arith)
          (ground arith)
      ∙ safe_read-write_u32_other sys _ slot g.off_item_quantity 1 a n (omega arith) (ground arith)
      ∙ safe_read-write_u32_other sys mem slot g.off_item_id multiplayer_beacon_id a n (omega arith)
          (ground arith)

  write_beacon-count :
      (mem : Memory) (count : ℕ)
      → g.item_count_ptr ≢ 0
      → count ≤ 2000
      → safe_read sys (write_beacon sys g mem slot count) g.item_count_ptr 4 ≡ count + 1
  unfolding write_beacon
  write_beacon-count mem count there small =
      safe_read-write_u32_self sys _ g.item_count_ptr 0 (count + 1) g.item_count_ptr (omega arith)
        there p.count_below p.count_accessible (omega arith)

  write_beacon-id :
      (mem : Memory) (count : ℕ)
      → safe_read sys (write_beacon sys g mem slot count) (slot + g.off_item_id) 4
        ≡ multiplayer_beacon_id
  unfolding write_beacon
  write_beacon-id mem count =
      let (f1, f2, f3, f4, f5) = p.fits in
      let (a1, a2, a3, a4) = p.id_apart in
      let below = p.slot_below in
      let count_below = p.count_below in
      let count_slot = p.count_slot in
      let id = slot + g.off_item_id in
      safe_read-write_u32_other sys _ g.item_count_ptr 0 (count + 1) id 4 (omega arith)
        (ground arith)
      ∙ safe_read-write_u32_other sys _ slot g.off_item_name_hash multiplayer_beacon_name_hash id 4
          (omega arith) (ground arith)
      ∙ safe_read-write_u32_other sys _ slot g.off_item_flags 0 id 4 (omega arith) (ground arith)
      ∙ safe_read-write_u32_other sys _ slot g.off_item_durability 9999 id 4 (omega arith)
          (ground arith)
      ∙ safe_read-write_u32_other sys _ slot g.off_item_quantity 1 id 4 (omega arith) (ground arith)
      ∙ safe_read-write_u32_self sys mem slot g.off_item_id multiplayer_beacon_id id refl
          p.some_slot (omega arith) p.id_accessible (omega arith)

module _ (sys : System) (g : GameOffsets) (mem : Memory) (h : InventoryHook) where
  -- What `AppendBeaconItem` has found where it reports a first success.
  record Found : Type 0 where
    pub resolved : inventory_resolved g ≡ true
    pub array : safe_read sys mem g.inventory_array_ptr 8 ≢ 0
    pub small : safe_read sys mem g.item_count_ptr 4 ≤ 2000
    pub result :
        (append_beacon_item sys g mem h).0.0
        ≡ write_beacon sys g mem (new_slot sys g mem) (safe_read sys mem g.item_count_ptr 4)

  append_beacon_item-Found :
      h.beacon_appended ≡ false → (append_beacon_item sys g mem h).1 ≡ true → Found
  unfolding append_beacon_item append_at
  append_beacon_item-Found fresh done = record {
    resolved = ground arith;
    array = ground arith;
    small = ground arith;
    result = ground arith;
  }

  append_beacon_item-id :
      Found
      → Placed sys g (new_slot sys g mem)
      → read_slot_item_id sys g
          (write_beacon sys g mem (new_slot sys g mem) (safe_read sys mem g.item_count_ptr 4))
          (safe_read sys mem g.item_count_ptr 4)
        ≡ multiplayer_beacon_id
  unfolding read_slot_item_id
  append_beacon_item-id found p =
      let count = safe_read sys mem g.item_count_ptr 4 in
      let slot = new_slot sys g mem in
      let after = write_beacon sys g mem slot count in
      let fits = p.fits in
      let array =
        write_beacon-other sys g slot p mem count g.inventory_array_ptr 8 p.array_slot
          p.array_count in
      let at_id =
        read_u32-at sys after slot g.off_item_id p.some_slot
          (omega (arith, fits.0, p.slot_below)) in
      rw array
        (ground (arith, found.resolved, found.array, at_id, write_beacon-id sys g slot p mem count))

  -- Where `AppendBeaconItem` reports a first success, and the slot, the count and the array's
  -- pointer are placed as `Placed` says, the count is one more, the slot behind the last item holds
  -- the beacon, and a use of that slot opens the overlay and does not reach the engine.
  pub append_beacon_item-use :
      (status : SessionStatus) (has_engine : Bool) (modal : ModalState)
      → h.beacon_appended ≡ false
      → Placed sys g (new_slot sys g mem)
      → (append_beacon_item sys g mem h).1 ≡ true
      → let count = safe_read sys mem g.item_count_ptr 4 in
        let after = (append_beacon_item sys g mem h).0.0 in
        (safe_read sys after g.item_count_ptr 4 ≡ count + 1)
        × (read_slot_item_id sys g after count ≡ multiplayer_beacon_id)
        × (hooked_use_item sys g after count status has_engine modal
            ≡ (open_modal status modal, false))
  unfolding hooked_use_item
  append_beacon_item-use status has_engine modal fresh p done =
      let found = append_beacon_item-Found fresh done in
      let there : g.item_count_ptr ≢ 0 = ground (arith, found.resolved) in
      let id = append_beacon_item-id found p in
      rw found.result (
        write_beacon-count sys g (new_slot sys g mem) p mem (safe_read sys mem g.item_count_ptr 4)
            there found.small,
        id,
        rw id refl,
      )
