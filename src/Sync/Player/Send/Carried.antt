-- ===== src/Sync/Player/Send/Carried.antt =====
-- client/src/sync/player_sync.cpp: what `ParseGameplay` reads of the player that `SendLocalState`
-- sends.
use crimson_desert_online_mo.Common.{
  ◌≡◌, refl, true, some, List, [], ◌∷◌, String, Bool-cases, inl, inr,
}
use crimson_desert_online_mo.Net.Json.{JsonLib, IsJson}
use crimson_desert_online_mo.Game.Memory.{Vec3}
use crimson_desert_online_mo.Sync.Player.{PlayerState}
use crimson_desert_online_mo.Sync.Player.Wire.{
  Group, gameplay_groups, traversal_value, emit, vec_value, value_vec_at, value_float, value_int,
  parse_traversal, parse_dodge, parse_gameplay,
}
use crimson_desert_online_mo.Sync.Player.Wire.Members.{
  contains_there, contains_missing, at-emit, value_float-real, value_int-integer, value_vec_at-emit,
}
use crimson_desert_online_mo.Sync.Player.Send.{Local, player_members}
use crimson_desert_online_mo.Sync.Player.Send.Received.{
  Fits, received, received_traversal, received_skill, received_vfx, received_status,
  received_equipment, received_mount, received_dodge, received_death, received_respawn,
}
use crimson_desert_online_mo.Sync.Player.Send.Groups.{
  parse_skill-received, parse_vfx-received, parse_status-received, parse_equipment-received,
  parse_mount-received, parse_death-received, parse_respawn-received, parse_interaction-received,
}

module _ (L : JsonLib) (J : IsJson L) (id : String) (l : Local) (f : Fits l.gameplay) where
  open L use {Value, object, contains, at}

  abbrev gp : PlayerState
  gp = l.gameplay

  abbrev gs : List (Group L)
  gs = (true, player_members L id l) ∷ gameplay_groups L gp

  abbrev player : Value
  player = object (emit L gs)

  -- The object of one group of members.
  dodge-x-y :
      let d = object (("x", L.real gp.dodge_x) ∷ ("y", L.real gp.dodge_y) ∷ []) in
      (value_float L d "x" 0 ≡ some gp.dodge_x) × (value_float L d "y" 0 ≡ some gp.dodge_y)
  unfolding emit
  dodge-x-y =
      let ms : List (Group L) =
        (true, ("x", L.real gp.dodge_x) ∷ ("y", L.real gp.dodge_y) ∷ []) ∷ [] in
      (
        value_float-real L J ms "x" 0 gp.dodge_x f.dodge_x refl,
        value_float-real L J ms "y" 0 gp.dodge_y f.dodge_y refl,
      )

  parse_dodge-received :
      (old : PlayerState) → parse_dodge L player old ≡ some (received_dodge gp old)
  unfolding parse_dodge player_members received_dodge
  parse_dodge-received old =
      let d = object (("x", L.real gp.dodge_x) ∷ ("y", L.real gp.dodge_y) ∷ []) in
      elim (Bool-cases gp.dodge_present) [
        | inr e ↦ rw (contains_missing L J gs "dodgeDirection" (rw e refl), e) refl
        | inl e ↦
            rw
              (
                at-emit L J gs "dodgeDirection" d (rw e refl),
                dodge-x-y.0,
                dodge-x-y.1,
                contains_there L J gs "dodgeDirection" d (rw e refl),
                e,
              )
              refl
      ]

  read-traversal_value :
      (old : Vec3)
      → let t = traversal_value L gp.traversal in
        (value_int L t "mode" 0 ≡ some gp.traversal.mode)
        × (value_int L t "animId" 0 ≡ some gp.traversal.anim_id)
        × (value_float L t "animTime" 0 ≡ some gp.traversal.anim_time)
        × (value_float L t "progress" 0 ≡ some gp.traversal.progress)
        × (value_vec_at L t "targetPos" old ≡ some gp.traversal.target)
  unfolding emit
  read-traversal_value old =
      let tv = gp.traversal in
      let ms : List (Group L) =
        (
          true,
          ("mode", L.integer tv.mode)
              ∷ ("animId", L.integer tv.anim_id)
              ∷ ("animTime", L.real tv.anim_time)
              ∷ ("targetPos", vec_value L tv.target)
              ∷ ("progress", L.real tv.progress)
              ∷ [],
        )
        ∷ [] in
      (
        value_int-integer L J ms "mode" 0 tv.mode f.mode refl,
        value_int-integer L J ms "animId" 0 tv.anim_id f.anim_id refl,
        value_float-real L J ms "animTime" 0 tv.anim_time f.anim_time refl,
        value_float-real L J ms "progress" 0 tv.progress f.progress refl,
        value_vec_at-emit L J ms "targetPos" old tv.target f.target refl,
      )

  parse_traversal-received :
      (old : PlayerState) → parse_traversal L player old ≡ some (received_traversal gp old)
  unfolding parse_traversal player_members received_traversal
  parse_traversal-received old =
      let t = traversal_value L gp.traversal in
      let (mode, anim, time, progress, target) = read-traversal_value old.traversal.target in
      elim (Bool-cases gp.traversal.present) [
        | inr e ↦ rw (contains_missing L J gs "traversalState" (rw e refl), e) refl
        | inl e ↦
            rw
              (
                at-emit L J gs "traversalState" t (rw e refl),
                mode,
                anim,
                time,
                progress,
                target,
                J.is_object-object,
                contains_there L J gs "traversalState" t (rw e refl),
                e,
              )
              refl
      ]

  pub parse_gameplay-received :
      (old : PlayerState) → parse_gameplay L player old ≡ some (received gp old)
  unfolding parse_gameplay
  parse_gameplay-received old =
      let traversal = received_traversal gp old in
      let skill = received_skill gp traversal in
      let vfx = received_vfx gp skill in
      let status = received_status gp vfx in
      let equipment = received_equipment gp status in
      let mount = received_mount gp equipment in
      let dodge = received_dodge gp mount in
      let death = received_death gp dodge in
      let respawn = received_respawn gp death in
      rw
        (
          parse_traversal-received old,
          parse_skill-received L J id l f traversal,
          parse_vfx-received L J id l f skill,
          parse_status-received L J id l f vfx,
          parse_equipment-received L J id l f status,
          parse_mount-received L J id l f equipment,
          parse_dodge-received mount,
          parse_death-received L J id l f dodge,
          parse_respawn-received L J id l f death,
          parse_interaction-received L J id l f respawn,
        )
        refl
