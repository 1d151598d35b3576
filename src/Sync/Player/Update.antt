-- ===== src/Sync/Player/Update.antt =====
-- client/src/sync/player_sync.cpp: `ApplyStateUpdate` and `ApplyAnimationUpdate`.
use crimson_desert_online_mo.Common.{
  ℕ, ◌-◌, Bool, not, ◌&&◌, Option, none, some, List, [], ◌∷◌, String, ◌==◌, ltb, str_eq,
  if◌then◌else◌, ◌>>=◌,
}
use crimson_desert_online_mo.Common.Table.{Table, find, put}
use crimson_desert_online_mo.Net.Json.{JsonLib}
use crimson_desert_online_mo.Game.Memory.{Vec3}
use crimson_desert_online_mo.Sync.Player.{RemotePlayer, PlayerSync, AnimState, remote_at}
use crimson_desert_online_mo.Sync.Player.Wire.{
  value_int, value_float, value_u32, value_vec_at, parse_gameplay,
}

module _ (L : JsonLib) where
  open L use {
    Value, contains, at, is_text, is_array, is_boolean, items, get_text, get_int, get_float,
    get_bool,
  }

  -- `if (p.contains(k)) field = p[k].get<T>();`
  abbrev pub member_or {ℓ} : {A : Type ℓ} → (Value → Option A) → Value → String → A → Option A
  member_or get p k old = if contains p k then get (at p k) else some old

  -- The same where the member must pass a test.
  abbrev pub member_if {ℓ} :
      {A : Type ℓ} → (Value → Bool) → (Value → Option A) → Value → String → A → Option A
  member_if test get p k old = if contains p k && test (at p k) then get (at p k) else some old

  -- "Changed within last 3 ticks", and the id that is remembered.
  unfoldable pub note_anim : ℕ → RemotePlayer → RemotePlayer
  note_anim anim rp =
      if not (anim == rp.prev_anim_id)
      then record rp { anim_change_streak = 3; prev_anim_id = anim }
      else if ltb 0 rp.anim_change_streak
      then record rp { anim_change_streak = rp.anim_change_streak - 1 }
      else rp

  unfoldable pub update_anim : Value → RemotePlayer → Option RemotePlayer
  unfolding note_anim
  update_anim p rp =
      let a = at p "animState" in
      if not (contains p "animState") then some rp else do
        anim_id ← value_int L a "anim_id" rp.last_anim.anim_id
        anim_time ← value_float L a "anim_time" 0
        move_flags ← value_u32 L a "move_flags" 0
        combat_flags ← value_u32 L a "combat_flags" 0
        blend_weight ← value_float L a "blend_weight" 0x3F800000
        some (record (note_anim anim_id rp) {
          last_anim = record {
            anim_id = anim_id;
            anim_time = anim_time;
            move_flags = move_flags;
            combat_flags = combat_flags;
            blend_weight = blend_weight;
          };
        })

  -- The first position that is known is taken at once.
  unfoldable pub move_target : Bool → Vec3 → RemotePlayer → RemotePlayer
  move_target there target rp =
      if there && (rp.last_update_time == 0)
      then record rp { target_pos = target; current_pos = target }
      else record rp { target_pos = target }

  unfoldable pub update_remote : ℕ → String → Value → RemotePlayer → Option RemotePlayer
  unfolding update_anim move_target
  update_remote now id p rp = do
    name ← member_if is_text get_text p "name" rp.name
    target ← value_vec_at L p "position" rp.target_pos
    velocity ← value_vec_at L p "velocity" rp.velocity
    health ← member_or get_float p "health" rp.current_health
    max_health ← member_or get_float p "maxHealth" rp.max_health
    is_host ← member_or get_bool p "isHost" rp.is_host
    ping ← member_or get_int p "ping" rp.ping
    in_cutscene ← member_if is_boolean get_bool p "inCutscene" rp.in_cutscene
    rp ← update_anim p (record (move_target (contains p "position") target rp) {
      id = id;
      name = name;
      velocity = velocity;
      current_health = health;
      max_health = max_health;
      is_host = is_host;
      ping = ping;
      in_cutscene = in_cutscene;
    })
    gameplay ← parse_gameplay L p rp.gameplay
    some (record rp { gameplay = gameplay; last_update_time = now })

  -- One entry of the array.
  unfoldable pub apply_player :
      ℕ → String → Value → Table RemotePlayer → Option (Table RemotePlayer)
  unfolding update_remote
  apply_player now local p t = if not (contains p "id") then some t else do
    id ← get_text (at p "id")
    if str_eq id local
        then some t
        else do rp ← update_remote now id p (remote_at id t); some (put id rp t)

  unfoldable pub apply_players :
      ℕ → String → List Value → Table RemotePlayer → Option (Table RemotePlayer)
  unfolding apply_player
  apply_players now local [] t = some t
  apply_players now local (p ∷ ps) t = do
    t ← apply_player now local p t
    apply_players now local ps t

  -- `now` is what `GetTickCount64` answers.
  unfoldable pub apply_state_update : ℕ → Value → PlayerSync → Option PlayerSync
  unfolding apply_players
  apply_state_update now players s = if not (is_array players) then some s else do
    t ← apply_players now s.local_id (items players) s.remotes
    some (record s { remotes = t })

  pub update_last_anim : Value → AnimState → Option AnimState
  update_last_anim anim old = do
    anim_id ← value_int L anim "anim_id" old.anim_id
    anim_time ← value_float L anim "anim_time" old.anim_time
    move_flags ← value_u32 L anim "move_flags" old.move_flags
    combat_flags ← value_u32 L anim "combat_flags" old.combat_flags
    blend_weight ← value_float L anim "blend_weight" old.blend_weight
    some (record {
      anim_id = anim_id;
      anim_time = anim_time;
      move_flags = move_flags;
      combat_flags = combat_flags;
      blend_weight = blend_weight;
    })

  unfoldable pub animate : String → Value → PlayerSync → Option RemotePlayer → Option PlayerSync
  unfolding update_last_anim
  animate id anim s none = some s
  animate id anim s (some rp) = do
    a ← update_last_anim anim rp.last_anim
    some (record s { remotes = put id (record rp { last_anim = a }) s.remotes })

  unfoldable pub apply_animation_update : String → Value → PlayerSync → Option PlayerSync
  unfolding animate
  apply_animation_update id anim s =
      if str_eq id s.local_id then some s else animate id anim s (find id s.remotes)
