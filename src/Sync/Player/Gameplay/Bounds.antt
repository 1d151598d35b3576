-- ===== src/Sync/Player/Gameplay/Bounds.antt =====
-- client/src/sync/player_sync.cpp: what `ReadLocalGameplay` answers for known and unknown offsets.
use crimson_desert_online_mo.Common.{
  ℕ, zero, suc, ◌+◌, ◌≤◌, ◌≢◌, Bool, true, false, if◌then◌else◌, arith, length, All,
}
use crimson_desert_online_mo.Game.Memory.{Memory, System, add_ptr}
use crimson_desert_online_mo.Game.Offsets.{GameOffsets}
use crimson_desert_online_mo.Sync.Player.{PlayerState, no_player_state, tm_land}
use crimson_desert_online_mo.Sync.Player.Gameplay.{
  traversal_mode_from_flags, read_traversal, read_skill, read_ids, read_vfx, read_status,
  read_equipment, read_mount_entity, read_mount, read_dodge, read_death, read_interaction,
  read_local_gameplay,
}

traversal_mode_from_flags_le : (flags : ℕ) → traversal_mode_from_flags flags ≤ tm_land
unfolding traversal_mode_from_flags
traversal_mode_from_flags_le flags = ground arith

module _ (sys : System) (mem : Memory) (g : GameOffsets) (base : ℕ) where
  read_ids-bounds :
      (component off rounds : ℕ)
      → (length (read_ids sys mem g base component off rounds) ≤ rounds)
        × All (λ (id : ℕ). id ≢ 0) (read_ids sys mem g base component off rounds)
  unfolding read_ids
  read_ids-bounds component off zero = (omega arith, tt)
  read_ids-bounds component off (suc rounds) =
      ground (arith, read_ids-bounds component (off + 4) rounds)

  abbrev Bounded : PlayerState → Type 0
  Bounded gp =
      (gp.traversal.mode ≤ tm_land)
      × (length gp.active_vfx ≤ 8)
      × All (λ (id : ℕ). id ≢ 0) gp.active_vfx
      × (length gp.buff_ids ≤ 8)
      × All (λ (id : ℕ). id ≢ 0) gp.buff_ids

  if-Bounded :
      (b : Bool) (gp gp' : PlayerState) → Bounded gp → Bounded gp' → Bounded (if b then gp else gp')
  if-Bounded true gp gp' h h' = h
  if-Bounded false gp gp' h h' = h'

  read_traversal-Bounded :
      (gp : PlayerState) → Bounded gp → Bounded (read_traversal sys mem g base gp)
  unfolding read_traversal
  read_traversal-Bounded gp (mode, few, ids, few_buffs, buffs) =
      if-Bounded _ gp _ (mode, few, ids, few_buffs, buffs)
        (traversal_mode_from_flags_le _, few, ids, few_buffs, buffs)

  read_vfx-Bounded : (gp : PlayerState) → Bounded gp → Bounded (read_vfx sys mem g base gp)
  unfolding read_vfx
  read_vfx-Bounded gp (mode, few, ids, few_buffs, buffs) =
      let (few', ids') = read_ids-bounds (add_ptr base g.vfx_component_offset) 0 8 in
      if-Bounded _ gp _ (mode, few, ids, few_buffs, buffs) (mode, few', ids', few_buffs, buffs)

  read_status-Bounded : (gp : PlayerState) → Bounded gp → Bounded (read_status sys mem g base gp)
  unfolding read_status
  read_status-Bounded gp (mode, few, ids, few_buffs, buffs) =
      let (few', buffs') = read_ids-bounds (add_ptr base g.status_component_offset) 0x04 8 in
      if-Bounded _ gp _ (mode, few, ids, few_buffs, buffs) (mode, few, ids, few', buffs')

  read_mount-Bounded : (gp : PlayerState) → Bounded gp → Bounded (read_mount sys mem g base gp)
  unfolding read_mount read_mount_entity
  read_mount-Bounded gp b = if-Bounded _ gp _ b (if-Bounded _ gp _ b b)

  read_skill-Bounded : (gp : PlayerState) → Bounded gp → Bounded (read_skill sys mem g base gp)
  unfolding read_skill
  read_skill-Bounded gp b = if-Bounded _ gp _ b b

  read_equipment-Bounded :
      (gp : PlayerState) → Bounded gp → Bounded (read_equipment sys mem g base gp)
  unfolding read_equipment
  read_equipment-Bounded gp b = if-Bounded _ gp _ b b

  read_dodge-Bounded : (gp : PlayerState) → Bounded gp → Bounded (read_dodge sys mem g base gp)
  unfolding read_dodge
  read_dodge-Bounded gp b = if-Bounded _ gp _ b b

  read_death-Bounded : (gp : PlayerState) → Bounded gp → Bounded (read_death sys mem g base gp)
  unfolding read_death
  read_death-Bounded gp b = if-Bounded _ gp _ b b

  read_interaction-Bounded :
      (gp : PlayerState) → Bounded gp → Bounded (read_interaction sys mem g base gp)
  unfolding read_interaction
  read_interaction-Bounded gp b = if-Bounded _ gp _ b b

  -- What is read of the local player has a mode that is one of the ten of `TraversalMode`, and at
  -- most eight effects and eight buffs, none of which is 0.
  pub read_local_gameplay-bounds :
      let gp = read_local_gameplay sys mem g base in
      (gp.traversal.mode ≤ tm_land)
      × (length gp.active_vfx ≤ 8)
      × All (λ (id : ℕ). id ≢ 0) gp.active_vfx
      × (length gp.buff_ids ≤ 8)
      × All (λ (id : ℕ). id ≢ 0) gp.buff_ids
  unfolding read_local_gameplay
  read_local_gameplay-bounds =
      let start : Bounded no_player_state = (omega arith, omega arith, tt, omega arith, tt) in
      read_interaction-Bounded _ (
        read_death-Bounded _ (
          read_dodge-Bounded _ (
            read_mount-Bounded _ (
              read_equipment-Bounded _ (
                read_status-Bounded _ (
                  read_vfx-Bounded _
                    (read_skill-Bounded _ (read_traversal-Bounded no_player_state start))))))))
