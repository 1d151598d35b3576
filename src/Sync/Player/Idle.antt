-- ===== src/Sync/Player/Idle.antt =====
-- client/src/sync/player_sync.cpp: what `Tick` and `GetRemoteEntityBase` do in the states that are
-- reached.
use crimson_desert_online_mo.Common.{
  ℕ, ◌≡◌, refl, Bool, none, [], ◌∷◌, String, arith, Option-cases, subst, inl, inr,
}
use crimson_desert_online_mo.Common.Options.{Each}
use crimson_desert_online_mo.Common.Table.{Table, find}
use crimson_desert_online_mo.Common.Table.Laws.{
  AllValues, NodupKeys, find-AllValues, erase-AllValues, erase-NodupKeys,
}
use crimson_desert_online_mo.Net.Json.{JsonLib}
use crimson_desert_online_mo.Game.Memory.{Memory, System}
use crimson_desert_online_mo.Game.Offsets.{GameOffsets}
use crimson_desert_online_mo.Sync.Player.{
  PlayerSync, RemotePlayer, add_remote_player, remove_remote_player, set_remote_cutscene, clear,
  set_suspended, set_local_id, get_remote_entity_base,
}
use crimson_desert_online_mo.Sync.Player.Motion.{apply_remote, apply_remote_state}
use crimson_desert_online_mo.Sync.Player.Send.{send_local, send_local_state, tick}
use crimson_desert_online_mo.Sync.Player.Reach.{
  Step, Reachable, started, stepped, added, removed, cutscene_set, cleared, suspension_set,
  local_id_set, updated, animated, ticked,
}
use crimson_desert_online_mo.Sync.Player.Unplaced.{
  IsUnplaced, Unplaced, find-IsUnplaced, put-Unplaced, change_by-Unplaced,
  apply_state_update-Unplaced, apply_animation_update-Unplaced,
}

module _ (sys : System) (g : GameOffsets) where
  -- An unplaced player moves, and nothing is written.
  apply_remote-IsUnplaced :
      (now : ℕ) (rp : RemotePlayer) (mem : Memory)
      → IsUnplaced rp
      → IsUnplaced (apply_remote sys g now rp mem).0 × ((apply_remote sys g now rp mem).1 ≡ mem)
  unfolding apply_remote
  apply_remote-IsUnplaced now rp mem u = rw u (refl, refl)

  apply_remote_state-memory :
      (now : ℕ) (t : Table RemotePlayer) (mem : Memory)
      → AllValues IsUnplaced t
      → (apply_remote_state sys g now t mem).1 ≡ mem
  unfolding apply_remote_state
  apply_remote_state-memory now [] mem u = refl
  apply_remote_state-memory now ((id, rp) ∷ t) mem (u, us) =
      rw (apply_remote-IsUnplaced now rp mem u).1 (apply_remote_state-memory now t mem us)

  apply_remote_state-AllValues :
      (now : ℕ) (t : Table RemotePlayer) (mem : Memory)
      → AllValues IsUnplaced t
      → AllValues IsUnplaced (apply_remote_state sys g now t mem).0
  unfolding apply_remote_state
  apply_remote_state-AllValues now [] mem u = tt
  apply_remote_state-AllValues now ((id, rp) ∷ t) mem (u, us) = (
    (apply_remote-IsUnplaced now rp mem u).0,
    apply_remote_state-AllValues now t (apply_remote sys g now rp mem).1 us,
  )

  find-apply_remote_state :
      (now : ℕ) (k : String) (t : Table RemotePlayer) (mem : Memory)
      → find k t ≡ none
      → find k (apply_remote_state sys g now t mem).0 ≡ none
  unfolding apply_remote_state find
  find-apply_remote_state now k [] mem e = refl
  find-apply_remote_state now k ((id, rp) ∷ t) mem e =
      ground (arith, find-apply_remote_state now k t (apply_remote sys g now rp mem).1)

  apply_remote_state-NodupKeys :
      (now : ℕ) (t : Table RemotePlayer) (mem : Memory)
      → NodupKeys t
      → NodupKeys (apply_remote_state sys g now t mem).0
  unfolding apply_remote_state
  apply_remote_state-NodupKeys now [] mem u = tt
  apply_remote_state-NodupKeys now ((id, rp) ∷ t) mem (fresh, u) =
      let after = (apply_remote sys g now rp mem).1 in
      (find-apply_remote_state now id t after fresh, apply_remote_state-NodupKeys now t after u)

module _ (L : JsonLib) (sys : System) (g : GameOffsets) where
  send_local_state-remotes :
      (mem : Memory) (connected : Bool) (now : ℕ) (s : PlayerSync)
      → (send_local_state L sys mem g connected now s).0.remotes ≡ s.remotes
  unfolding send_local_state send_local
  send_local_state-remotes mem connected now s = ground arith

  tick-Unplaced :
      (connected : Bool) (now : ℕ) (s : PlayerSync) (mem : Memory)
      → Unplaced s.remotes
      → Unplaced (tick L sys g connected now s mem).sync.remotes
        × ((tick L sys g connected now s mem).memory ≡ mem)
  unfolding tick
  tick-Unplaced connected now s mem (a, u) = rw (send_local_state-remotes mem connected now s) (
    (
      apply_remote_state-AllValues sys g now s.remotes mem a,
      apply_remote_state-NodupKeys sys g now s.remotes mem u,
    ),
    apply_remote_state-memory sys g now s.remotes mem a,
  )

  Step-Unplaced : {s s' : PlayerSync} → Step L sys g s s' → Unplaced s.remotes → Unplaced s'.remotes
  unfolding add_remote_player remove_remote_player set_remote_cutscene clear set_suspended
      set_local_id
  Step-Unplaced {s} (added id name) u =
      put-Unplaced id _ s.remotes (find-IsUnplaced id s.remotes u) u
  Step-Unplaced {s} (removed id) (a, u) =
      (erase-AllValues IsUnplaced id s.remotes a, erase-NodupKeys id s.remotes u)
  Step-Unplaced {s} (cutscene_set id b) u = change_by-Unplaced id _ s (λ rp h. h) u
  Step-Unplaced cleared u = (tt, tt)
  Step-Unplaced (suspension_set b) u = u
  Step-Unplaced (local_id_set id) u = u
  Step-Unplaced {s} (updated now players e) u =
      subst (Each (λ (s : PlayerSync). Unplaced s.remotes)) e
        (apply_state_update-Unplaced L now players s u)
  Step-Unplaced {s} (animated id anim e) u =
      subst (Each (λ (s : PlayerSync). Unplaced s.remotes)) e
        (apply_animation_update-Unplaced L id anim s u)
  Step-Unplaced {s} (ticked connected now mem) u = (tick-Unplaced connected now s mem u).0

  -- In every state that is reached, no player has an entity in the game, and no identifier stands
  -- twice in the table of players.
  pub Reachable-Unplaced : {s : PlayerSync} → Reachable L sys g s → Unplaced s.remotes
  Reachable-Unplaced started = (tt, tt)
  Reachable-Unplaced (stepped r step) = Step-Unplaced step (Reachable-Unplaced r)

  -- In every state that is reached, `Tick` leaves the memory of the game as it is, whatever was
  -- received of the other players, and `GetRemoteEntityBase` answers 0 for every identifier.
  pub tick_idle :
      {s : PlayerSync} (r : Reachable L sys g s) (connected : Bool) (now : ℕ) (mem : Memory)
      (id : String)
      → ((tick L sys g connected now s mem).memory ≡ mem) × (get_remote_entity_base id s ≡ 0)
  unfolding get_remote_entity_base
  tick_idle {s} r connected now mem id =
      let u = Reachable-Unplaced r in
      (
        (tick-Unplaced connected now s mem u).1,
        elim (Option-cases (find id s.remotes)) [
          | inl e ↦ rw e refl
          | inr (rp, e) ↦ rw e (find-AllValues IsUnplaced id s.remotes u.0 e)
        ],
      )
