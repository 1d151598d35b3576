-- ===== src/Sync/Player/Motion.antt =====
-- client/src/sync/player_sync.cpp: `ApplyRemoteState` and `ApplyTraversal`, which move the other
-- players between two packets.
use crimson_desert_online_mo.Common.{
  ℕ, ◌-◌, Bool, true, false, not, ◌||◌, [], ◌∷◌, ◌==◌, ltb, leb, if◌then◌else◌,
}
use crimson_desert_online_mo.Common.Table.{Table}
use crimson_desert_online_mo.Game.Memory.{Memory, System, Vec3, is_readable, write_u32, write_vec3}
use crimson_desert_online_mo.Game.Offsets.{GameOffsets}
use crimson_desert_online_mo.Game.Float.{fabs, float_lt, one_f, zero_f}
use crimson_desert_online_mo.Game.Float.Arith.{
  float_add, float_sub, float_mul, float_neg, float_ratio, float_min, float_max,
}
use crimson_desert_online_mo.Sync.Player.{
  RemotePlayer, tm_none, tm_climbing, tm_vaulting, tm_ledge_grab, tm_wall_run, tm_slide, tm_roll,
  tm_jump, tm_fall, tm_land,
}
use crimson_desert_online_mo.Sync.Player.Writes.{apply_gameplay_writes}

unfoldable pub lerp : ℕ → ℕ → ℕ → ℕ
lerp a b t = float_add a (float_mul (float_sub b a) t)

abbrev pub lerp_vec : Vec3 → Vec3 → ℕ → Vec3
lerp_vec a b t = record { x = lerp a.x b.x t; y = lerp a.y b.y t; z = lerp a.z b.z t }

-- `elapsed <= 0 ? 1.f : min(1.0, elapsed / buffer)` with whole milliseconds.
unfoldable pub converge : ℕ → ℕ → ℕ → ℕ
converge now last buffer =
    if leb now last || leb buffer (now - last) then one_f else float_ratio (now - last) buffer

-- `(nowMs - lastUpdateTime) / 1000.0` as a `float`.
unfoldable pub seconds_since : ℕ → ℕ → ℕ
seconds_since now last =
    if leb last now
    then float_ratio (now - last) 1000
    else float_neg (float_ratio (last - now) 1000)

-- The mode that is shown, and whether it is guessed.
pub effective_mode : RemotePlayer → ℕ × Bool
effective_mode rp =
    let rising = float_lt zero_f rp.velocity.y in
    let falling = float_lt rp.velocity.y zero_f in
    if rp.gameplay.traversal.present
    then (rp.gameplay.traversal.mode, false)
    else if float_lt 0x40A00000 (fabs rp.velocity.y) || ltb 0 rp.anim_change_streak
    then (if rising then tm_jump else if falling then tm_fall else tm_none, true)
    else (tm_none, false)

-- The guess uses half the buffer and twice the convergence.
pub base_t : ℕ → RemotePlayer → Bool → ℕ
unfolding converge
base_t now rp fallback =
    if fallback
    then float_min one_f (float_mul (converge now rp.last_update_time 50) 0x40000000)
    else converge now rp.last_update_time 100

-- `pos += velocity * dt`.
abbrev advance : Vec3 → Vec3 → ℕ → Vec3
advance pos v dt = record {
  x = float_add pos.x (float_mul v.x dt);
  y = float_add pos.y (float_mul v.y dt);
  z = float_add pos.z (float_mul v.z dt);
}

abbrev pub is_action : ℕ → Bool
is_action mode = (mode == tm_vaulting) || (mode == tm_roll) || (mode == tm_slide)

abbrev pub is_snap : ℕ → Bool
is_snap mode = (mode == tm_climbing) || (mode == tm_ledge_grab) || (mode == tm_land)

abbrev pub is_ballistic : ℕ → Bool
is_ballistic mode = (mode == tm_jump) || (mode == tm_fall)

-- Where the `switch` over the mode moves the player.
pub next_position : ℕ → ℕ → ℕ → RemotePlayer → Vec3
unfolding seconds_since
next_position now t mode rp =
    let tv = rp.gameplay.traversal in
    if is_action mode
    then lerp_vec rp.current_pos tv.target (float_min one_f (float_max zero_f tv.progress))
    else if is_snap mode
    then rp.target_pos
    else if mode == tm_wall_run
    then lerp_vec rp.current_pos rp.target_pos (float_min one_f (float_mul t 0x40400000))
    else if is_ballistic mode
    then advance (lerp_vec rp.current_pos rp.target_pos t) rp.velocity
        (seconds_since now rp.last_update_time)
    else lerp_vec rp.current_pos rp.target_pos t

module _ (sys : System) (g : GameOffsets) where
  -- `writeAnimExact` and `writeCommon`.
  write_anim_exact : ℕ → ℕ → ℕ → Memory → Memory
  write_anim_exact base id time mem =
      write_u32 sys (write_u32 sys mem base g.off_anim_id id) base g.off_anim_time time

  write_common : RemotePlayer → Memory → Memory
  write_common rp mem =
      let base = rp.entity_base in
      let mem = write_vec3 sys mem base g.off_velocity_x rp.velocity in
      let mem = write_u32 sys mem base g.off_health rp.current_health in
      let mem = write_u32 sys mem base g.off_max_health rp.max_health in
      let mem = write_u32 sys mem base g.off_move_flags rp.last_anim.move_flags in
      let mem = write_u32 sys mem base g.off_combat_flags rp.last_anim.combat_flags in
      write_u32 sys mem base g.off_blend_weight rp.last_anim.blend_weight

  -- The writes of the `default` case, in its order.
  write_plain : RemotePlayer → Memory → Memory
  write_plain rp mem =
      let base = rp.entity_base in
      let mem = write_u32 sys mem base g.off_health rp.current_health in
      let mem = write_u32 sys mem base g.off_max_health rp.max_health in
      let mem = write_vec3 sys mem base g.off_velocity_x rp.velocity in
      let mem = write_u32 sys mem base g.off_anim_id rp.last_anim.anim_id in
      let mem = write_u32 sys mem base g.off_anim_time rp.last_anim.anim_time in
      let mem = write_u32 sys mem base g.off_move_flags rp.last_anim.move_flags in
      let mem = write_u32 sys mem base g.off_combat_flags rp.last_anim.combat_flags in
      write_u32 sys mem base g.off_blend_weight rp.last_anim.blend_weight

  -- The clip of the traversal; a guessed jump or fall plays the clip of the player.
  write_mode : ℕ → RemotePlayer → Memory → Memory
  unfolding write_anim_exact write_common write_plain
  write_mode mode rp mem =
      let tv = rp.gameplay.traversal in
      let exact = write_common rp (write_anim_exact rp.entity_base tv.anim_id tv.anim_time mem) in
      let own =
        write_common rp
          (write_anim_exact rp.entity_base rp.last_anim.anim_id rp.last_anim.anim_time mem) in
      if is_action mode || is_snap mode || (mode == tm_wall_run)
      then exact
      else if is_ballistic mode
      then if tv.present then exact else own
      else write_plain rp mem

  pub apply_traversal : ℕ → ℕ → ℕ → RemotePlayer → Memory → RemotePlayer × Memory
  unfolding next_position write_mode
  apply_traversal now t mode rp mem =
      let rp = record rp { current_pos = next_position now t mode rp } in
      (rp, write_mode mode rp (write_vec3 sys mem rp.entity_base g.off_position_x rp.current_pos))

  -- One player of `ApplyRemoteState`.
  unfoldable pub apply_remote : ℕ → RemotePlayer → Memory → RemotePlayer × Memory
  unfolding effective_mode base_t apply_traversal
  apply_remote now rp mem =
      let (mode, fallback) = effective_mode rp in
      let t = base_t now rp fallback in
      if (rp.entity_base == 0) || not (is_readable sys rp.entity_base 0x800)
      then (record rp { current_pos = lerp_vec rp.current_pos rp.target_pos t }, mem)
      else let (rp, mem) = apply_traversal now t mode rp mem in apply_gameplay_writes sys g rp mem

  unfoldable pub apply_remote_state : ℕ → Table RemotePlayer → Memory → Table RemotePlayer × Memory
  unfolding apply_remote
  apply_remote_state now [] mem = ([], mem)
  apply_remote_state now ((id, rp) ∷ t) mem =
      let (rp, mem) = apply_remote now rp mem in
      let (t, mem) = apply_remote_state now t mem in ((id, rp) ∷ t, mem)
