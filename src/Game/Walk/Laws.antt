-- ===== src/Game/Walk/Laws.antt =====
-- What the walk finds.
use crimson_desert_online_mo.Common.{
  ℕ, zero, suc, ◌+◌, ◌*◌, ◌≤◌, ◌<◌, ◌≡◌, ◌∙◌, ◌≢◌, inl, inr, Bool, true, false, some, ◌==◌, arith,
  Bool-cases, Option-cases,
}
use crimson_desert_online_mo.Game.Memory.{Memory, System, is_readable}
use crimson_desert_online_mo.Game.Offsets.{GameOffsets}
use crimson_desert_online_mo.Game.Walk.{
  find_offset, rounds, is_position, is_health, is_anim, locate_position, locate_health, locate_anim,
  walk_anim, walk_health, walk_entity_layout,
}

-- The offset that a search ends with passes its test, is one of those searched, and is the first.
pub find_offset-first :
    (test : ℕ → Bool) (n off : ℕ) {found : ℕ}
    → find_offset test n off ≡ some found
    → (test found ≡ true)
      × ((k : ℕ) × (k < n) × (found ≡ off + 4 * k) × ((j : ℕ) → j < k → test (off + 4 * j) ≡ false))
unfolding find_offset
find_offset-first test zero off e = cc
find_offset-first test (suc n) off {found} e = elim (Bool-cases (test off)) [
  | inl hit ↦
      let same : off ≡ found = ground arith in
      (rw same at hit, (0, omega arith, omega arith, λ j h. absurd (omega arith)))
  | inr miss ↦
      let (passes, (k, low, at', before)) = find_offset-first test n (off + 4) (rw miss at e) in
      (passes, (suc k, omega arith, omega arith, earlier off k miss before))
]
  where
    earlier :
        (off k : ℕ)
        → test off ≡ false
        → ((j : ℕ) → j < k → test (off + 4 + 4 * j) ≡ false)
        → (j : ℕ) → j < suc k
        → test (off + 4 * j) ≡ false
    earlier off k miss before zero h = let e : off + 4 * 0 ≡ off = omega arith in rw e miss
    earlier off k miss before (suc j) h =
        let e : off + 4 * suc j ≡ off + 4 + 4 * j = omega arith in rw e (before j (omega arith))

module _ (sys : System) (mem : Memory) (entity : ℕ) where
  -- An offset that passes a test and lies in a window, the first of the steps of four.
  abbrev pub Located : (ℕ → Bool) → ℕ → ℕ → ℕ → Type 0
  Located test low high off =
      (test off ≡ true)
      × (low ≤ off)
      × (off < high)
      × ((j : ℕ) → low + 4 * j < off → test (low + 4 * j) ≡ false)

  search_Located :
      (test : ℕ → Bool) (low high : ℕ) {found : ℕ}
      → find_offset test (rounds low high) low ≡ some found
      → Located test low high found
  search_Located test low high e =
      let (passes, (k, few, at', before)) = find_offset-first test (rounds low high) low e in
      (passes, omega arith, omega arith, λ j h. before j (omega arith))

  locate_position-Located :
      (g : GameOffsets)
      → g.off_position_x ≡ 0
      → (locate_position sys mem entity g).off_position_x ≢ 0
      → Located
          (is_position sys mem entity)
          0x10
          0x600
          (locate_position sys mem entity g).off_position_x
  unfolding locate_position
  locate_position-Located g fresh found =
      let test : ℕ → Bool = is_position sys mem entity in
      elim (Option-cases (find_offset test (rounds 0x10 0x600) 0x10)) [
        | inl e ↦ ground (arith, e)
        | inr (off, e) ↦ rw e (search_Located test 0x10 0x600 e)
      ]

  locate_health-Located :
      (g : GameOffsets)
      → g.off_health ≡ 0
      → (locate_health sys mem entity g).off_health ≢ 0
      → Located
          (is_health sys mem entity)
          (g.off_position_x + 0x30)
          0x780
          (locate_health sys mem entity g).off_health
  unfolding locate_health
  locate_health-Located g fresh found =
      let test : ℕ → Bool = is_health sys mem entity in
      let low : ℕ = g.off_position_x + 0x30 in
      elim (Option-cases (find_offset test (rounds low 0x780) low)) [
        | inl e ↦ ground (arith, e)
        | inr (off, e) ↦ rw e (search_Located test low 0x780 e)
      ]

  locate_anim-Located :
      (g : GameOffsets)
      → g.off_anim_id ≡ 0
      → (locate_anim sys mem entity g).off_anim_id ≢ 0
      → Located
          (is_anim sys mem entity)
          g.off_position_x
          0x780
          (locate_anim sys mem entity g).off_anim_id
  unfolding locate_anim
  locate_anim-Located g fresh found =
      let test : ℕ → Bool = is_anim sys mem entity in
      let low : ℕ = g.off_position_x in
      elim (Option-cases (find_offset test (rounds low 0x780) low)) [
        | inl e ↦ ground (arith, e)
        | inr (off, e) ↦ rw e (search_Located test low 0x780 e)
      ]

  -- Nothing was found before.
  pub record IsFresh (g : GameOffsets) : Type 0 where
    pub position : g.off_position_x ≡ 0
    pub health : g.off_health ≡ 0
    pub anim : g.off_anim_id ≡ 0

  -- Where the three core fields are located.
  pub record Found (r : GameOffsets) : Type 0 where
    pub position : Located (is_position sys mem entity) 0x10 0x600 r.off_position_x
    pub health : Located (is_health sys mem entity) (r.off_position_x + 0x30) 0x780 r.off_health
    pub anim : Located (is_anim sys mem entity) r.off_position_x 0x780 r.off_anim_id
    pub max_health : r.off_max_health ≡ r.off_health + 4
    pub anim_time : r.off_anim_time ≡ r.off_anim_id + 4

  locate_anim-keeps :
      (g : GameOffsets)
      → let r = locate_anim sys mem entity g in
        (r.off_position_x ≡ g.off_position_x)
        × (r.off_health ≡ g.off_health)
        × (r.off_max_health ≡ g.off_max_health)
        × (g.off_anim_id ≡ 0 → r.off_anim_id ≢ 0 → r.off_anim_time ≡ r.off_anim_id + 4)
  unfolding locate_anim
  locate_anim-keeps g = ground arith

  locate_health-keeps :
      (g : GameOffsets)
      → let r = locate_health sys mem entity g in
        (r.off_position_x ≡ g.off_position_x)
        × (r.off_anim_id ≡ g.off_anim_id)
        × (g.off_health ≡ 0 → r.off_health ≢ 0 → r.off_max_health ≡ r.off_health + 4)
  unfolding locate_health
  locate_health-keeps g = ground arith

  locate_position-keeps :
      (g : GameOffsets)
      → let r = locate_position sys mem entity g in
        (r.off_health ≡ g.off_health) × (r.off_anim_id ≡ g.off_anim_id)
  unfolding locate_position
  locate_position-keeps g = ground arith

  walk_anim-Found :
      (g : GameOffsets)
      → g.off_anim_id ≡ 0
      → Located (is_position sys mem entity) 0x10 0x600 g.off_position_x
      → Located (is_health sys mem entity) (g.off_position_x + 0x30) 0x780 g.off_health
      → g.off_max_health ≡ g.off_health + 4
      → (walk_anim sys mem entity g).1 ≡ true
      → Found (walk_anim sys mem entity g).0
  unfolding walk_anim
  walk_anim-Found g fresh p h m ok =
      let (kp, kh, km, kt) = locate_anim-keeps g in
      let found : (locate_anim sys mem entity g).off_anim_id ≢ 0 = ground arith in
      let test : ((locate_anim sys mem entity g).off_anim_id == 0) ≡ false = ground arith in
      rw test (record {
        position = rw kp p;
        health = rw (kp, kh) h;
        anim = rw kp (locate_anim-Located g fresh found);
        max_health = rw (kh, km) m;
        anim_time = kt fresh found;
      })

  walk_health-Found :
      (g : GameOffsets)
      → g.off_health ≡ 0
      → g.off_anim_id ≡ 0
      → Located (is_position sys mem entity) 0x10 0x600 g.off_position_x
      → (walk_health sys mem entity g).1 ≡ true
      → Found (walk_health sys mem entity g).0
  unfolding walk_health
  walk_health-Found g fresh fresh' p ok =
      let r : GameOffsets = locate_health sys mem entity g in
      let (kp, ka, km) = locate_health-keeps g in
      let found : r.off_health ≢ 0 = ground arith in
      let test : (r.off_health == 0) ≡ false = ground arith in
      rw test (
        walk_anim-Found r (ka ∙ fresh') (rw kp p) (rw kp (locate_health-Located g fresh found))
          (km fresh found) (rw test at ok))

  pub walk_entity_layout-Found :
      (g : GameOffsets)
      → IsFresh g
      → (walk_entity_layout sys mem entity g).1 ≡ true
      → Found (walk_entity_layout sys mem entity g).0
  unfolding walk_entity_layout
  walk_entity_layout-Found g fresh ok =
      let r : GameOffsets = locate_position sys mem entity g in
      let (kh, ka) = locate_position-keeps g in
      let readable : is_readable sys entity 0x800 ≡ true = ground arith in
      let found : r.off_position_x ≢ 0 = ground arith in
      let test : (r.off_position_x == 0) ≡ false = ground arith in
      rw (readable, test)
        (walk_health-Found _ (kh ∙ fresh.health) (ka ∙ fresh.anim)
          (locate_position-Located g fresh.position found) (rw (readable, test) at ok))
