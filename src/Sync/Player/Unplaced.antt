-- ===== src/Sync/Player/Unplaced.antt =====
-- client/src/sync/player_sync.cpp: `entityBase`, which no call of `PlayerSync` sets.
use crimson_desert_online_mo.Common.{
  ℕ, ◌≡◌, refl, ◌∙◌, inl, inr, Bool, List, [], ◌∷◌, String, str_eq, arith, Bool-cases, Option-cases,
}
use crimson_desert_online_mo.Common.Options.{Each, bind-Each, bind-Each_from}
use crimson_desert_online_mo.Common.Table.{Table, find, put}
use crimson_desert_online_mo.Common.Table.Laws.{
  AllValues, NodupKeys, find-AllValues, put-AllValues, put-NodupKeys,
}
use crimson_desert_online_mo.Net.Json.{JsonLib}
use crimson_desert_online_mo.Game.Memory.{Vec3}
use crimson_desert_online_mo.Sync.Player.{PlayerSync, RemotePlayer, remote_at, change_by}
use crimson_desert_online_mo.Sync.Player.Update.{
  member_or, member_if, note_anim, update_anim, move_target, update_remote, apply_player,
  apply_players, apply_state_update, update_last_anim, animate, apply_animation_update,
}
use crimson_desert_online_mo.Sync.Player.Wire.{
  value_int, value_float, value_u32, value_vec_at, parse_gameplay,
}

-- A player without an entity in the game.
abbrev pub IsUnplaced : RemotePlayer → Type 0
IsUnplaced rp = rp.entity_base ≡ 0

abbrev pub Unplaced : Table RemotePlayer → Type 0
Unplaced t = AllValues IsUnplaced t × NodupKeys t

pub find-IsUnplaced :
    (id : String) (t : Table RemotePlayer) → Unplaced t → IsUnplaced (remote_at id t)
find-IsUnplaced id t (a, u) = elim (Option-cases (find id t)) [
  | inl e ↦ rw e refl
  | inr (rp, e) ↦ rw e (find-AllValues IsUnplaced id t a e)
]

pub put-Unplaced :
    (id : String) (rp : RemotePlayer) (t : Table RemotePlayer)
    → IsUnplaced rp
    → Unplaced t
    → Unplaced (put id rp t)
put-Unplaced id rp t p (a, u) = (put-AllValues IsUnplaced id rp t p a, put-NodupKeys id rp t u)

pub change_by-Unplaced :
    (id : String) (f : RemotePlayer → RemotePlayer) (s : PlayerSync)
    → ((rp : RemotePlayer) → IsUnplaced rp → IsUnplaced (f rp))
    → Unplaced s.remotes
    → Unplaced (change_by id f (find id s.remotes) s).remotes
change_by-Unplaced id f s keeps (a, u) = elim (Option-cases (find id s.remotes)) [
  | inl e ↦ rw e (a, u)
  | inr (rp, e) ↦ rw e (
      put-Unplaced id (f rp) s.remotes (keeps rp (find-AllValues IsUnplaced id s.remotes a e))
        (a, u))
]

module _ (L : JsonLib) where
  open L use {
    Value, contains, at, is_text, is_array, items, is_boolean, get_text, get_int, get_float,
    get_bool,
  }

  note_anim-entity_base :
      (anim : ℕ) (rp : RemotePlayer) → (note_anim L anim rp).entity_base ≡ rp.entity_base
  unfolding note_anim
  note_anim-entity_base anim rp = ground arith

  move_target-entity_base :
      (there : Bool) (target : Vec3) (rp : RemotePlayer)
      → (move_target L there target rp).entity_base ≡ rp.entity_base
  unfolding move_target
  move_target-entity_base there target rp = ground arith

  -- Like `rp`, in this field.
  abbrev Kept : RemotePlayer → RemotePlayer → Type 0
  Kept rp rp' = rp'.entity_base ≡ rp.entity_base

  update_anim-entity_base : (p : Value) (rp : RemotePlayer) → Each (Kept rp) (update_anim L p rp)
  unfolding update_anim
  update_anim-entity_base p rp =
      let a = at p "animState" in
      elim (Bool-cases (contains p "animState")) [
        | inr missing ↦ rw missing refl
        | inl there ↦ rw there (
            bind-Each (Kept rp) (value_int L a "anim_id" rp.last_anim.anim_id) _ (λ anim_id.
              bind-Each (Kept rp) (value_float L a "anim_time" 0) _ (λ anim_time.
                bind-Each (Kept rp) (value_u32 L a "move_flags" 0) _ (λ move_flags.
                  bind-Each (Kept rp) (value_u32 L a "combat_flags" 0) _ (λ combat_flags.
                    bind-Each (Kept rp) (value_float L a "blend_weight" 0x3F800000) _
                      (λ blend. note_anim-entity_base anim_id rp))))))
      ]

  update_remote-entity_base :
      (now : ℕ) (id : String) (p : Value) (rp : RemotePlayer)
      → Each (Kept rp) (update_remote L now id p rp)
  unfolding update_remote
  update_remote-entity_base now id p rp =
      bind-Each (Kept rp) (member_if L is_text get_text p "name" rp.name) _ (λ name.
        bind-Each (Kept rp) (value_vec_at L p "position" rp.target_pos) _ (λ target.
          bind-Each (Kept rp) (value_vec_at L p "velocity" rp.velocity) _ (λ velocity.
            bind-Each (Kept rp) (member_or L get_float p "health" rp.current_health) _ (λ health.
              bind-Each (Kept rp) (member_or L get_float p "maxHealth" rp.max_health) _
                (λ max_health.
                  bind-Each (Kept rp) (member_or L get_bool p "isHost" rp.is_host) _ (λ is_host.
                    bind-Each (Kept rp) (member_or L get_int p "ping" rp.ping) _ (λ ping.
                      bind-Each (Kept rp)
                        (member_if L is_boolean get_bool p "inCutscene" rp.in_cutscene) _
                        (λ in_cutscene.
                          let moved = move_target L (contains p "position") target rp in
                          bind-Each_from (Kept moved) (Kept rp) _ _ (update_anim-entity_base p _)
                            (λ rp' same.
                              bind-Each (Kept rp) (parse_gameplay L p rp'.gameplay) _ (λ gameplay.
                                same
                                ∙ move_target-entity_base (contains p "position") target
                                    rp))))))))))

  apply_player-Unplaced :
      (now : ℕ) (local : String) (p : Value) (t : Table RemotePlayer)
      → Unplaced t
      → Each Unplaced (apply_player L now local p t)
  unfolding apply_player
  apply_player-Unplaced now local p t u = elim (Bool-cases (contains p "id")) [
    | inr missing ↦ rw missing u
    | inl there ↦ rw there (
        bind-Each Unplaced (get_text (at p "id")) _ (λ id. elim (Bool-cases (str_eq id local)) [
          | inl own ↦ rw own u
          | inr other ↦ rw other (
              bind-Each_from (Kept (remote_at id t)) Unplaced _ _
                (update_remote-entity_base now id p (remote_at id t))
                (λ rp same. put-Unplaced id rp t (same ∙ find-IsUnplaced id t u) u))
        ]))
  ]

  apply_players-Unplaced :
      (now : ℕ) (local : String) (ps : List Value) (t : Table RemotePlayer)
      → Unplaced t
      → Each Unplaced (apply_players L now local ps t)
  unfolding apply_players
  apply_players-Unplaced now local [] t u = u
  apply_players-Unplaced now local (p ∷ ps) t u =
      bind-Each_from Unplaced Unplaced (apply_player L now local p t) _
        (apply_player-Unplaced now local p t u) (λ t' u'. apply_players-Unplaced now local ps t' u')

  abbrev SyncUnplaced : PlayerSync → Type 0
  SyncUnplaced s = Unplaced s.remotes

  pub apply_state_update-Unplaced :
      (now : ℕ) (players : Value) (s : PlayerSync)
      → Unplaced s.remotes
      → Each SyncUnplaced (apply_state_update L now players s)
  unfolding apply_state_update
  apply_state_update-Unplaced now players s u = elim (Bool-cases (is_array players)) [
    | inr not_array ↦ rw not_array u
    | inl list ↦ rw list (
        bind-Each_from Unplaced SyncUnplaced _ _
          (apply_players-Unplaced now s.local_id (items players) s.remotes u) (λ t u'. u'))
  ]

  animate-Unplaced :
      (id : String) (anim : Value) (s : PlayerSync)
      → Unplaced s.remotes
      → Each SyncUnplaced (animate L id anim s (find id s.remotes))
  unfolding animate
  animate-Unplaced id anim s u = elim (Option-cases (find id s.remotes)) [
    | inl e ↦ rw e u
    | inr (rp, e) ↦ rw e (
        bind-Each SyncUnplaced (update_last_anim L anim rp.last_anim) _ (λ a.
          put-Unplaced id (record rp { last_anim = a }) s.remotes
            (find-AllValues IsUnplaced id s.remotes u.0 e) u))
  ]

  pub apply_animation_update-Unplaced :
      (id : String) (anim : Value) (s : PlayerSync)
      → Unplaced s.remotes
      → Each SyncUnplaced (apply_animation_update L id anim s)
  unfolding apply_animation_update
  apply_animation_update-Unplaced id anim s u = ground (arith, animate-Unplaced id anim s u)
