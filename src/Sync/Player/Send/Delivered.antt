-- ===== src/Sync/Player/Send/Delivered.antt =====
-- client/src/sync/player_sync.cpp: `ApplyStateUpdate` on the player that `SendLocalState` sends.
use crimson_desert_online_mo.Common.{
  ℕ, ◌-◌, ◌≡◌, refl, ◌∙◌, Bool, true, false, ◌==◌, str_eq, Option, some, List, [], ◌∷◌, String,
  if◌then◌else◌, arith, Bool-cases, inl, inr,
}
use crimson_desert_online_mo.Common.Table.{Table, put}
use crimson_desert_online_mo.Net.Json.{JsonLib, IsJson}
use crimson_desert_online_mo.Game.Memory.{Vec3}
use crimson_desert_online_mo.Sync.Player.{PlayerSync, PlayerState, RemotePlayer, remote_at}
use crimson_desert_online_mo.Sync.Player.Wire.{
  Group, gameplay_groups, emit, emit_gameplay_json, vec_value, value_vec_at, value_float, value_int,
  value_u32, parse_gameplay,
}
use crimson_desert_online_mo.Sync.Player.Wire.Members.{
  find_in, Word, contains_there, contains_missing, at-emit, value_by-emit, value_float-real,
  value_int-integer, value_vec_at-emit,
}
use crimson_desert_online_mo.Sync.Player.Update.{
  member_or, member_if, note_anim, update_anim, move_target, update_remote, apply_player,
  apply_players, apply_state_update,
}
use crimson_desert_online_mo.Sync.Player.Send.{Local, anim_value, player_members, player_value}
use crimson_desert_online_mo.Sync.Player.Send.Received.{LocalFits, received, shown}
use crimson_desert_online_mo.Sync.Player.Send.Carried.{parse_gameplay-received}
use crimson_desert_online_mo.Sync.Player.Send.Groups.{Word-mod}

module _ (L : JsonLib) where
  open L use {Value, contains, is_text, is_boolean, get_text, get_int, get_float, get_bool}

  -- The steps of an update, each with its result.
  update_remote_lem :
      (now : ℕ) (id : String) (p : Value) (rp : RemotePlayer) (name : String)
      (target velocity : Vec3) (health max_health ping : ℕ) (is_host in_cutscene : Bool)
      (moved rp' : RemotePlayer) (gp : PlayerState)
      → member_if L is_text get_text p "name" rp.name ≡ some name
      → value_vec_at L p "position" rp.target_pos ≡ some target
      → value_vec_at L p "velocity" rp.velocity ≡ some velocity
      → member_or L get_float p "health" rp.current_health ≡ some health
      → member_or L get_float p "maxHealth" rp.max_health ≡ some max_health
      → member_or L get_bool p "isHost" rp.is_host ≡ some is_host
      → member_or L get_int p "ping" rp.ping ≡ some ping
      → member_if L is_boolean get_bool p "inCutscene" rp.in_cutscene ≡ some in_cutscene
      → move_target L (contains p "position") target rp ≡ moved
      → update_anim L p (record moved {
        id = id;
        name = name;
        velocity = velocity;
        current_health = health;
        max_health = max_health;
        is_host = is_host;
        ping = ping;
        in_cutscene = in_cutscene;
      })
        ≡ some rp'
      → parse_gameplay L p rp'.gameplay ≡ some gp
      → update_remote L now id p rp ≡ some (record rp' { gameplay = gp; last_update_time = now })
  unfolding update_remote
  update_remote_lem now id p rp name target velocity health max_health ping is_host in_cutscene
        moved rp' gp a b c d e g h i m u w =
      rw (a, b, c, d, e, g, h, i, m, u, w) refl

module _ (L : JsonLib) (J : IsJson L) (id : String) (l : Local) (f : LocalFits l) where
  open L use {Value, object, contains, at}

  abbrev gs : List (Group L)
  gs = (true, player_members L id l) ∷ gameplay_groups L l.gameplay

  abbrev player : Value
  player = object (emit L gs)

  member_or-emit {ℓ} :
      {A : Type ℓ} (get : Value → Option A) (k : String) (old : A) (v : Value)
      → find_in L k gs ≡ some v
      → member_or L get player k old ≡ get v
  member_or-emit get k old v e = rw (at-emit L J gs k v e, contains_there L J gs k v e) refl

  name-player : (old : String) → member_if L L.is_text L.get_text player "name" old ≡ some ""
  unfolding player_members
  name-player old =
      rw
        (
          at-emit L J gs "name" (L.text "") refl,
          J.is_text-text "",
          J.get_text-text "",
          contains_there L J gs "name" (L.text "") refl,
        )
        refl

  value_u32-number :
      (ms : List (Group L)) (k : String) (n : ℕ)
      → Word n
      → find_in L k ms ≡ some (L.number n)
      → value_u32 L (object (emit L ms)) k 0 ≡ some n
  value_u32-number ms k n small e =
      rw
        (
          value_by-emit L J ms k L.get_number 0 (L.number n) e,
          J.get_number-number n (omega (arith, small)),
          Word-mod n small,
        )
        refl

  note_anim_lem :
      (anim : ℕ) (rp : RemotePlayer)
      → note_anim L anim rp ≡ record rp {
        prev_anim_id = anim;
        anim_change_streak = if anim == rp.prev_anim_id then rp.anim_change_streak - 1 else 3;
      }
  unfolding note_anim
  note_anim_lem anim rp = ground arith

  read-anim_value :
      let a = anim_value L l.anim in
      (old : ℕ)
      → (value_int L a "anim_id" old ≡ some l.anim.anim_id)
        × (value_float L a "anim_time" 0 ≡ some l.anim.anim_time)
        × (value_u32 L a "move_flags" 0 ≡ some l.anim.move_flags)
        × (value_u32 L a "combat_flags" 0 ≡ some l.anim.combat_flags)
        × (value_float L a "blend_weight" 0x3F800000 ≡ some l.anim.blend_weight)
  unfolding emit
  read-anim_value old =
      let a = l.anim in
      let ms : List (Group L) =
        (
          true,
          ("anim_id", L.integer a.anim_id)
              ∷ ("anim_time", L.real a.anim_time)
              ∷ ("move_flags", L.number a.move_flags)
              ∷ ("combat_flags", L.number a.combat_flags)
              ∷ ("blend_weight", L.real a.blend_weight)
              ∷ [],
        )
        ∷ [] in
      (
        value_int-integer L J ms "anim_id" old a.anim_id f.anim_id refl,
        value_float-real L J ms "anim_time" 0 a.anim_time f.anim_time refl,
        value_u32-number ms "move_flags" a.move_flags f.move_flags refl,
        value_u32-number ms "combat_flags" a.combat_flags f.combat_flags refl,
        value_float-real L J ms "blend_weight" 0x3F800000 a.blend_weight f.blend_weight refl,
      )

  update_anim-player :
      (rp : RemotePlayer)
      → update_anim L player rp
        ≡ some (record rp {
          last_anim = l.anim;
          prev_anim_id = l.anim.anim_id;
          anim_change_streak =
              if l.anim.anim_id == rp.prev_anim_id then rp.anim_change_streak - 1 else 3;
        })
  unfolding update_anim player_members
  update_anim-player rp =
      let (anim_id, time, move, combat, blend) = read-anim_value rp.last_anim.anim_id in
      rw
        (
          at-emit L J gs "animState" (anim_value L l.anim) refl,
          anim_id,
          time,
          move,
          combat,
          blend,
          contains_there L J gs "animState" (anim_value L l.anim) refl,
          note_anim_lem,
        )
        refl

  move_target-player :
      (rp : RemotePlayer)
      → move_target L (contains player "position") l.position rp ≡ record rp {
        current_pos = if rp.last_update_time == 0 then l.position else rp.current_pos;
        target_pos = l.position;
      }
  unfolding player_members move_target
  move_target-player rp =
      rw (contains_there L J gs "position" (vec_value L l.position) refl)
        (elim (Bool-cases (rp.last_update_time == 0)) [
          | inl new ↦ rw new refl
          | inr known ↦ rw known refl
        ])

  update_remote-player :
      (now : ℕ) (rp : RemotePlayer) → update_remote L now id player rp ≡ some (shown now id l rp)
  unfolding player_members shown
  update_remote-player now rp =
      update_remote_lem L now id player rp "" l.position l.velocity l.health l.max_health 0 false
        rp.in_cutscene _ _ (received l.gameplay rp.gameplay) (name-player rp.name)
        (value_vec_at-emit L J gs "position" rp.target_pos l.position f.position refl)
        (value_vec_at-emit L J gs "velocity" rp.velocity l.velocity f.velocity refl)
        (member_or-emit L.get_float "health" rp.current_health (L.real l.health) refl
          ∙ J.get_float-real l.health f.health.0 f.health.1)
        (member_or-emit L.get_float "maxHealth" rp.max_health (L.real l.max_health) refl
          ∙ J.get_float-real l.max_health f.max_health.0 f.max_health.1)
        (member_or-emit L.get_bool "isHost" rp.is_host (L.boolean false) refl
          ∙ J.get_bool-boolean false)
        (member_or-emit L.get_int "ping" rp.ping (L.integer 0) refl
          ∙ J.get_int-integer 0 (omega arith))
        (rw (contains_missing L J gs "inCutscene" refl) refl) (move_target-player rp)
        (update_anim-player _) (parse_gameplay-received L J id l f.gameplay rp.gameplay)

  apply_players-player :
      (now : ℕ) (local : String) (t : Table RemotePlayer)
      → apply_players L now local (player ∷ []) t
        ≡ some (if str_eq id local then t else put id (shown now id l (remote_at id t)) t)
  unfolding apply_players apply_player player_members
  apply_players-player now local t =
      rw
        (
          at-emit L J gs "id" (L.text id) refl,
          J.get_text-text id,
          contains_there L J gs "id" (L.text id) refl,
        )
        (elim (Bool-cases (str_eq id local)) [
          | inl own ↦ rw own refl
          | inr other ↦ rw (other, update_remote-player now (remote_at id t)) refl
        ])

  -- For JSON values as documented and a local player whose numbers JSON carries: a receiver whose
  -- own identifier is another one takes the player that was sent as the new entry under the
  -- identifier of the sender, with the position as its target, the other fields as they were sent,
  -- and of the gameplay each group that the sender has, while the rest keeps its values and is no
  -- longer present; a receiver with the same identifier changes nothing.
  pub apply_state_update-player_value :
      (now : ℕ) (s : PlayerSync)
      → apply_state_update L now (L.array (player_value L id l ∷ [])) s
        ≡ some (
            if str_eq id s.local_id
            then s
            else record s { remotes = put id (shown now id l (remote_at id s.remotes)) s.remotes })
  unfolding apply_state_update player_value emit_gameplay_json emit
  apply_state_update-player_value now s =
      rw
        (
          J.is_array-array (player ∷ []),
          J.items-array (player ∷ []),
          apply_players-player now s.local_id s.remotes,
        )
        (elim (Bool-cases (str_eq id s.local_id)) [
          | inl own ↦ rw own refl
          | inr other ↦ rw other refl
        ])
