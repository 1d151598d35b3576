-- ===== src/Game/Walk/Layout.antt =====
-- What stands where the walk ends.
use crimson_desert_online_mo.Common.{ℕ, ◌+◌, ◌*◌, ◌/◌, ◌%◌, ◌^◌, ◌⊎◌, ◌≤◌, ◌<◌, ◌≡◌, ◌≢◌, true}
use crimson_desert_online_mo.Game.Memory.{Memory, System, add_ptr, safe_read}
use crimson_desert_online_mo.Game.Float.{float_le, float_lt, float_ne}
use crimson_desert_online_mo.Game.Offsets.{GameOffsets}

module _ (sys : System) (mem : Memory) (entity : ℕ) where
  -- The four bytes at an offset of the entity, read with `SafeRead`.
  abbrev value : ℕ → ℕ
  value off = safe_read sys mem (add_ptr entity off) 4

  -- A finite `float` whose magnitude is at most 100000.
  abbrev IsCoordinate : ℕ → Type 0
  IsCoordinate v = (v / 2 ^ 23 % 256 ≢ 255) × (float_le (v % 2 ^ 31) 0x47C35000 ≡ true)

  -- Three coordinates, one of which at least is not zero.
  pub record IsPlace (off : ℕ) : Type 0 where
    pub x : IsCoordinate (value off)
    pub y : IsCoordinate (value (off + 4))
    pub z : IsCoordinate (value (off + 8))
    pub somewhere :
        (float_ne (value off) 0 ≡ true)
        ⊎ (float_ne (value (off + 4)) 0 ≡ true)
        ⊎ (float_ne (value (off + 8)) 0 ≡ true)

  -- A health h and a maximum m, with 0 <= h <= m and 0 < m <= 1000000.
  pub record IsVitality (off : ℕ) : Type 0 where
    pub health : value off / 2 ^ 23 % 256 ≢ 255
    pub maximum : value (off + 4) / 2 ^ 23 % 256 ≢ 255
    pub some_maximum : float_lt 0 (value (off + 4)) ≡ true
    pub bounded : float_le (value (off + 4)) 0x49742400 ≡ true
    pub at_least_zero : float_le 0 (value off) ≡ true
    pub below_maximum : float_le (value off) (value (off + 4)) ≡ true

  -- An id between 0 and 100000, both excluded, and a time between 0 and 1.
  pub record IsAnimation (off : ℕ) : Type 0 where
    pub some_id : 0 < value off
    pub small_id : value off < 100000
    pub time : value (off + 4) / 2 ^ 23 % 256 ≢ 255
    pub started : float_le 0 (value (off + 4)) ≡ true
    pub within : float_le (value (off + 4)) 0x3F800000 ≡ true

  -- Where the three core fields stand, and what stands there.
  pub record Layout (r : GameOffsets) : Type 0 where
    pub position : IsPlace r.off_position_x
    pub position_from : 0x10 ≤ r.off_position_x
    pub position_to : r.off_position_x < 0x600
    pub position_first : (k : ℕ) → 0x10 + 4 * k < r.off_position_x → ¬ IsPlace (0x10 + 4 * k)
    pub health : IsVitality r.off_health
    pub health_from : r.off_position_x + 0x30 ≤ r.off_health
    pub health_to : r.off_health < 0x780
    pub health_first :
        (k : ℕ)
        → r.off_position_x + 0x30 + 4 * k < r.off_health
        → ¬ IsVitality (r.off_position_x + 0x30 + 4 * k)
    pub anim : IsAnimation r.off_anim_id
    pub anim_from : r.off_position_x ≤ r.off_anim_id
    pub anim_to : r.off_anim_id < 0x780
    pub anim_first :
        (k : ℕ)
        → r.off_position_x + 4 * k < r.off_anim_id
        → ¬ IsAnimation (r.off_position_x + 4 * k)
    pub max_health : r.off_max_health ≡ r.off_health + 4
    pub anim_time : r.off_anim_time ≡ r.off_anim_id + 4
