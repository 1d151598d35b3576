-- ===== src/Game/Walk.antt =====
-- client/src/game/scanner.cpp: `WalkEntityLayout`, which guesses the field offsets of the player's
-- entity from the values that stand in it.
pub mod Laws
pub mod Layout
mod Tests
use crimson_desert_online_mo.Common.{
  ℕ, zero, suc, ◌+◌, ◌-◌, ◌*◌, ◌/◌, ◌^◌, Bool, true, false, not, ◌&&◌, ◌||◌, Option, none, some,
  ◌==◌, ltb, leb, if◌then◌else◌,
}
use crimson_desert_online_mo.Game.Memory.{Memory, System, add_ptr, is_readable, safe_read}
use crimson_desert_online_mo.Game.Offsets.{GameOffsets}
use crimson_desert_online_mo.Game.Float.{
  is_finite, fabs, float_le, float_lt, float_ne, zero_f, one_f, hundred_thousand_f, million_f,
}

pub looks_like_world_coord : ℕ → Bool
looks_like_world_coord v = if not (is_finite v) then false else float_le (fabs v) hundred_thousand_f

-- `for (off = start; off < end; off += 4) if (test(off)) { ...; break; }`, with the rounds left.
pub find_offset : (ℕ → Bool) → ℕ → ℕ → Option ℕ
find_offset test zero off = none
find_offset test (suc rounds) off =
    let rest = find_offset test rounds (off + 4) in if test off then some off else rest

-- The rounds of such a loop.
abbrev pub rounds : ℕ → ℕ → ℕ
rounds start end = (end + 3 - start) / 4

module _ (sys : System) (mem : Memory) (entity : ℕ) where
  abbrev word : ℕ → ℕ
  word off = safe_read sys mem (add_ptr entity off) 4

  pub is_position : ℕ → Bool
  is_position off =
      looks_like_world_coord (word off)
      && looks_like_world_coord (word (off + 4))
      && looks_like_world_coord (word (off + 8))
      && (float_ne (word off) zero_f
          || float_ne (word (off + 4)) zero_f
          || float_ne (word (off + 8)) zero_f)

  pub is_health : ℕ → Bool
  is_health off =
      let h = word off in
      let mh = word (off + 4) in
      is_finite h
      && is_finite mh
      && float_lt zero_f mh
      && float_le mh million_f
      && float_le zero_f h
      && float_le h mh

  -- An `int32_t` pattern below 2^31 is not negative.
  pub is_anim : ℕ → Bool
  is_anim off =
      let id = word off in
      let t = word (off + 4) in
      ltb 0 id
      && ltb id (2 ^ 31)
      && ltb id 100000
      && is_finite t
      && float_le zero_f t
      && float_le t one_f

  abbrev set_position : Option ℕ → GameOffsets → GameOffsets
  set_position none g = g
  set_position (some off) g = record g { off_position_x = off; off_velocity_x = off + 0x10 }

  abbrev set_rotation : GameOffsets → GameOffsets
  set_rotation g = record g {
    off_rotation_yaw = g.off_position_x + 0x24;
    off_rotation_pitch = g.off_position_x + 0x24 + 4;
  }

  abbrev set_health : Option ℕ → GameOffsets → GameOffsets
  set_health none g = g
  set_health (some off) g = record g { off_health = off; off_max_health = off + 4 }

  abbrev set_anim : Option ℕ → GameOffsets → GameOffsets
  set_anim none g = g
  set_anim (some off) g = record g {
    off_anim_id = off;
    off_anim_time = off + 4;
    off_blend_weight = off + 8;
  }

  -- The fields that are placed relative to those found.
  abbrev pub set_components : GameOffsets → GameOffsets
  set_components g = record g {
    off_move_flags = g.off_velocity_x + 0x0C;
    off_combat_flags = g.off_anim_id + 0x10;
    off_entity_id = 0x08;
    traversal_flags_offset = g.off_velocity_x + 0x0C + 0x04;
    traversal_target_pos_offset = g.off_velocity_x + 0x20;
    skill_component_offset = g.off_health + 0x40;
    status_component_offset = g.off_health + 0x10;
    vfx_component_offset = g.off_position_x + 0x80;
    equipment_component_offset = g.off_health + 0x80;
    mount_entity_ptr_offset = g.off_position_x + 0x100;
    dodge_component_offset = g.off_velocity_x + 0x30;
  }

  -- The three searches. Each leaves the offset as it was where nothing is found.
  pub locate_position : GameOffsets → GameOffsets
  locate_position g = set_position (find_offset is_position (rounds 0x10 0x600) 0x10) g

  pub locate_health : GameOffsets → GameOffsets
  locate_health g =
      let start = g.off_position_x + 0x30 in
      set_health (find_offset is_health (rounds start 0x780) start) g

  pub locate_anim : GameOffsets → GameOffsets
  locate_anim g =
      let start = g.off_position_x in set_anim (find_offset is_anim (rounds start 0x780) start) g

  walk_anim : GameOffsets → GameOffsets × Bool
  walk_anim g =
      let g' = locate_anim g in
      if g'.off_anim_id == 0 then (g', false) else (set_components g', true)

  walk_health : GameOffsets → GameOffsets × Bool
  walk_health g =
      let g' = locate_health g in if g'.off_health == 0 then (g', false) else walk_anim g'

  pub walk_entity_layout : GameOffsets → GameOffsets × Bool
  unfolding walk_anim walk_health
  walk_entity_layout g =
      if not (is_readable sys entity 0x800)
      then (g, false)
      else let g' = locate_position g in
        if g'.off_position_x == 0 then (g', false) else walk_health (set_rotation g')
