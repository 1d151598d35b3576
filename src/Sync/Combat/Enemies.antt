-- ===== src/Sync/Combat/Enemies.antt =====
-- client/src/sync/combat_sync.h and combat_sync.cpp: the states that the calls of `CombatSync` lead
-- to, and what the calls write to the memory of the game in them.
use crimson_desert_online_mo.Common.{
  ℕ, ◌≡◌, refl, ◌∙◌, subst, Bool, false, not, ◌||◌, Option, none, some, List, [], ◌∷◌, String,
  str_eq, if◌then◌else◌, Bool-cases, Option-cases, inl, inr,
}
use crimson_desert_online_mo.Common.Options.{Each, bind-Each, bind-Each_from}
use crimson_desert_online_mo.Common.Table.{Table, find, find_or}
use crimson_desert_online_mo.Common.Table.Laws.{AllValues, find-AllValues, put-AllValues}
use crimson_desert_online_mo.Net.Json.{JsonLib, value_by}
use crimson_desert_online_mo.Game.Memory.{Memory, System}
use crimson_desert_online_mo.Game.Offsets.{GameOffsets}
use crimson_desert_online_mo.Sync.Player.{PlayerSync, get_remote_entity_base}
use crimson_desert_online_mo.Sync.Player.Reach.{Reachable}
use crimson_desert_online_mo.Sync.Player.Idle.{tick_idle}
use crimson_desert_online_mo.Sync.Player.Wire.{value_int, value_float, value_vec_at}
use crimson_desert_online_mo.Sync.Combat.{
  CombatSync, EnemyMirror, new_enemy, new_combat, set_client, set_host, set_local_id,
  damage_enemies, handle_damage_rpc, update_enemy, write_enemy, apply_enemy, apply_enemies,
  handle_enemy_update, handle_skill_rpc,
}

-- An enemy without an entity in the game.
abbrev IsUnplacedEnemy : EnemyMirror → Type 0
IsUnplacedEnemy e = e.entity_base ≡ 0

abbrev UnplacedEnemies : Table EnemyMirror → Type 0
UnplacedEnemies t = AllValues IsUnplacedEnemy t

module _ (L : JsonLib) (sys : System) (g : GameOffsets) where
  open L use {Value, contains, at, is_array, items, get_text}

  -- One call, with any packet and any memory; `hooked` is `InstallHooks` or `RemoveHooks`.
  pub data CombatStep (c : CombatSync) : CombatSync → Type 0 where
    client_set : (b : Bool) → CombatStep c (set_client b c)
    host_set : (b : Bool) → CombatStep c (set_host b c)
    id_set : (id : String) → CombatStep c (set_local_id id c)
    hooked : (b : Bool) → CombatStep c (record c { hooks_installed = b })
    damaged :
        (rpc : Value) (mem mem' : Memory) {c' : CombatSync}
        → handle_damage_rpc L sys g rpc c mem ≡ some (c', mem')
        → CombatStep c c'
    mirrored :
        (rpc : Value) (mem mem' : Memory) {c' : CombatSync}
        → handle_enemy_update L sys g rpc c mem ≡ some (c', mem')
        → CombatStep c c'

  -- What calls lead to from a new `CombatSync`.
  pub data CombatReachable : CombatSync → Type 0 where
    new : CombatReachable new_combat
    called : {c c' : CombatSync} → CombatReachable c → CombatStep c c' → CombatReachable c'

  -- Nothing is placed, and the memory is `mem`.
  abbrev Quiet : Memory → Table EnemyMirror × Memory → Type 0
  Quiet mem r = UnplacedEnemies r.0 × (r.1 ≡ mem)

  abbrev QuietSync : Memory → CombatSync × Memory → Type 0
  QuietSync mem r = UnplacedEnemies r.0.enemies × (r.1 ≡ mem)

  damage_enemies-Quiet :
      (target damage : ℕ) (t : Table EnemyMirror) (mem : Memory)
      → UnplacedEnemies t
      → Quiet mem (damage_enemies L sys g target damage t mem)
  unfolding damage_enemies
  damage_enemies-Quiet target damage [] mem u = (tt, refl)
  damage_enemies-Quiet target damage ((id, e) ∷ t) mem (u, us) =
      let (us', same) = damage_enemies-Quiet target damage t mem us in rw u ((refl, us'), same)

  handle_damage_rpc-Quiet :
      (rpc : Value) (c : CombatSync) (mem : Memory)
      → UnplacedEnemies c.enemies
      → Each (QuietSync mem) (handle_damage_rpc L sys g rpc c mem)
  unfolding handle_damage_rpc
  handle_damage_rpc-Quiet rpc c mem u =
      bind-Each (QuietSync mem) (value_by L L.get_number rpc "targetEntityId" 0) _ (λ target.
        bind-Each (QuietSync mem) (value_float L rpc "damage" 0) _
          (λ damage. damage_enemies-Quiet target damage c.enemies mem u))

  abbrev Same : EnemyMirror → EnemyMirror → Type 0
  Same m m' = m'.entity_base ≡ m.entity_base

  update_enemy-entity_base :
      (id : String) (e : Value) (m : EnemyMirror) → Each (Same m) (update_enemy L sys g id e m)
  unfolding update_enemy
  update_enemy-entity_base id e m =
      bind-Each (Same m) (value_float L e "health" m.health) _ (λ health.
        bind-Each (Same m) (value_float L e "maxHealth" m.max_health) _ (λ max_health.
          bind-Each (Same m) (value_vec_at L e "position" m.position) _ (λ position.
            bind-Each (Same m)
              (if contains e "animState"
                then value_int L (at e "animState") "anim_id" m.anim_id
                else some m.anim_id)
              _ (λ anim. refl))))

  write_enemy-memory :
      (m : EnemyMirror) (mem : Memory) → IsUnplacedEnemy m → write_enemy L sys g m mem ≡ mem
  unfolding write_enemy
  write_enemy-memory m mem u = rw u refl

  find-IsUnplacedEnemy :
      (id : String) (t : Table EnemyMirror)
      → UnplacedEnemies t
      → IsUnplacedEnemy (find_or id new_enemy (find id t))
  find-IsUnplacedEnemy id t u = elim (Option-cases (find id t)) [
    | inl e ↦ rw e refl
    | inr (m, e) ↦ rw e (find-AllValues IsUnplacedEnemy id t u e)
  ]

  apply_enemy-Quiet :
      (e : Value) (t : Table EnemyMirror) (mem : Memory)
      → UnplacedEnemies t
      → Each (Quiet mem) (apply_enemy L sys g e (t, mem))
  unfolding apply_enemy
  apply_enemy-Quiet e t mem u = bind-Each (Quiet mem) (value_by L get_text e "id" "") _ (λ id.
      elim (Bool-cases (str_eq id "")) [
        | inl empty ↦ rw empty (u, refl)
        | inr named ↦
            let old = find_or id new_enemy (find id t) in
            rw named (
              bind-Each_from (Same old) (Quiet mem) _ _ (update_enemy-entity_base id e old)
                (λ m same.
                  let unplaced = same ∙ find-IsUnplacedEnemy id t u in
                  (
                    put-AllValues IsUnplacedEnemy id m t unplaced u,
                    write_enemy-memory m mem unplaced,
                  )))
      ])

  apply_enemies-Quiet :
      (es : List Value) (t : Table EnemyMirror) (mem : Memory)
      → UnplacedEnemies t
      → Each (Quiet mem) (apply_enemies L sys g es (t, mem))
  unfolding apply_enemies
  apply_enemies-Quiet [] t mem u = (u, refl)
  apply_enemies-Quiet (e ∷ es) t mem u =
      bind-Each_from (Quiet mem) (Quiet mem) _ _ (apply_enemy-Quiet e t mem u) (λ s (u', same).
        subst (λ (m : Memory). Each (Quiet m) (apply_enemies L sys g es s)) same
          (apply_enemies-Quiet es s.0 s.1 u'))

  handle_enemy_update-Quiet :
      (rpc : Value) (c : CombatSync) (mem : Memory)
      → UnplacedEnemies c.enemies
      → Each (QuietSync mem) (handle_enemy_update L sys g rpc c mem)
  unfolding handle_enemy_update
  handle_enemy_update-Quiet rpc c mem u =
      let list = at rpc "enemies" in
      elim (Bool-cases (c.is_host || not (contains rpc "enemies") || not (is_array list))) [
        | inl ignored ↦ rw ignored (u, refl)
        | inr taken ↦ rw taken (
            bind-Each_from (Quiet mem) (QuietSync mem) _ _
              (apply_enemies-Quiet (items list) c.enemies mem u) (λ s quiet. quiet))
      ]

  CombatStep-UnplacedEnemies :
      {c c' : CombatSync} → CombatStep c c' → UnplacedEnemies c.enemies → UnplacedEnemies c'.enemies
  unfolding set_client set_host set_local_id
  CombatStep-UnplacedEnemies (client_set b) u = u
  CombatStep-UnplacedEnemies (host_set b) u = u
  CombatStep-UnplacedEnemies (id_set id) u = u
  CombatStep-UnplacedEnemies (hooked b) u = u
  CombatStep-UnplacedEnemies {c} (damaged rpc mem mem' e) u =
      (subst (Each (QuietSync mem)) e (handle_damage_rpc-Quiet rpc c mem u)).0
  CombatStep-UnplacedEnemies {c} (mirrored rpc mem mem' e) u =
      (subst (Each (QuietSync mem)) e (handle_enemy_update-Quiet rpc c mem u)).0

  CombatReachable-UnplacedEnemies : {c : CombatSync} → CombatReachable c → UnplacedEnemies c.enemies
  CombatReachable-UnplacedEnemies new = tt
  CombatReachable-UnplacedEnemies (called r step) =
      CombatStep-UnplacedEnemies step (CombatReachable-UnplacedEnemies r)

  -- What a handler leaves of the memory, where it does not throw.
  abbrev pub MemoryKept : Memory → Option (CombatSync × Memory) → Type 0
  MemoryKept mem r = Each (λ (r : CombatSync × Memory). r.1 ≡ mem) r

  Quiet-MemoryKept :
      (mem : Memory) (r : Option (CombatSync × Memory)) → Each (QuietSync mem) r → MemoryKept mem r
  Quiet-MemoryKept mem none q = tt
  Quiet-MemoryKept mem (some r) (u, same) = same

  handle_skill_rpc-unresolved :
      (resolve : String → ℕ) (rpc : Value) (c : CombatSync) (mem : Memory)
      → ((id : String) → resolve id ≡ 0)
      → Each (λ (m : Memory). m ≡ mem) (handle_skill_rpc L sys g (some resolve) rpc c mem)
  unfolding handle_skill_rpc
  handle_skill_rpc-unresolved resolve rpc c mem zeros =
      bind-Each (λ (m : Memory). m ≡ mem) (value_by L get_text rpc "sourceId" "") _
        (λ source.
          rw (zeros source) (elim (Bool-cases (str_eq source "" || str_eq source c.local_id)) [
            | inl own ↦ rw own refl
            | inr other ↦ rw other refl
          ]))

  -- In all states of the two synchronisers that are reached, with the resolver that the session
  -- sets, a damage call, a snapshot of the enemies and a skill call leave the memory of the game as
  -- it is, unless the call throws.
  pub combat_idle :
      {c : CombatSync} {s : PlayerSync} (r : CombatReachable c) (p : Reachable L sys g s)
      (rpc : Value) (mem : Memory)
      → MemoryKept mem (handle_damage_rpc L sys g rpc c mem)
        × MemoryKept mem (handle_enemy_update L sys g rpc c mem)
        × Each
            (λ (m : Memory). m ≡ mem)
            (handle_skill_rpc L sys g (some (λ id. get_remote_entity_base id s)) rpc c mem)
  combat_idle {c} {s} r p rpc mem =
      let u = CombatReachable-UnplacedEnemies r in
      (
        Quiet-MemoryKept mem _ (handle_damage_rpc-Quiet rpc c mem u),
        Quiet-MemoryKept mem _ (handle_enemy_update-Quiet rpc c mem u),
        handle_skill_rpc-unresolved (λ id. get_remote_entity_base id s) rpc c mem
            (λ id. (tick_idle L sys g p false 0 mem id).1),
      )
