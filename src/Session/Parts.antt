-- ===== src/Session/Parts.antt =====
-- client/src/session.cpp: what the calls of the session do to the player sync, to the combat sync and
-- to the memory of the game. The calls of the client and of the puzzle sync concern none of these; the
-- suspension of the sending, which the cutscene sync sets, is not followed here.
use crimson_desert_online_mo.Common.{ℕ, Bool, Option, none, some, List, [], ◌∷◌, ◌++◌, ◌>>=◌}
use crimson_desert_online_mo.Net.Json.{JsonLib, value_by}
use crimson_desert_online_mo.Net.Protocol.{PacketType}
use crimson_desert_online_mo.Game.Memory.{Memory, System}
use crimson_desert_online_mo.Game.Offsets.{GameOffsets}
use crimson_desert_online_mo.Sync.Player.{
  PlayerSync, add_remote_player, remove_remote_player, set_remote_cutscene, clear,
  get_remote_entity_base,
}
use crimson_desert_online_mo.Sync.Player
use crimson_desert_online_mo.Sync.Player.Update.{apply_state_update, apply_animation_update}
use crimson_desert_online_mo.Sync.Player.Send
use crimson_desert_online_mo.Sync.Combat.{
  CombatSync, set_host, handle_attack_rpc, handle_damage_rpc, handle_enemy_update, handle_skill_rpc,
}
use crimson_desert_online_mo.Sync.Combat
use crimson_desert_online_mo.Sync.Combat.Hooks
use crimson_desert_online_mo.Sync.Combat.Hooks.{MinHook}
use crimson_desert_online_mo.Session.{Session, Message, Call, Event, react}
use crimson_desert_online_mo.Session
use crimson_desert_online_mo.Session.Packets.{message_of}

module _ (L : JsonLib) (M : MinHook) (sys : System) (g : GameOffsets) where
  open L use {Value, array, object, get_text}

  pub record Parts : Type 0 where
    pub players : PlayerSync
    pub combat : CombatSync
    pub hooks : M.State
    pub memory : Memory
    pub sent : List (PacketType × Value)

  unfoldable pub damage_done : Parts → Option (CombatSync × Memory) → Option Parts
  damage_done p none = none
  damage_done p (some r) = some (record p { combat = r.0; memory = r.1 })

  unfoldable pub players_done : Parts → Option PlayerSync → Option Parts
  players_done p none = none
  players_done p (some s) = some (record p { players = s })

  unfoldable pub memory_done : Parts → Option Memory → Option Parts
  memory_done p none = none
  memory_done p (some mem) = some (record p { memory = mem })

  unfoldable pub animation_of : Option Value → Value
  animation_of none = object []
  animation_of (some a) = a

  -- `now` is what `GetTickCount64` answers, `link` whether the client is connected.
  unfoldable pub perform : ℕ → Bool → Call Value → Parts → Option Parts
  unfolding damage_done players_done memory_done animation_of
  perform now link (Session.apply_state players) p =
      players_done p (apply_state_update L now players p.players)
  perform now link (Session.add_player id name) p =
      some (record p { players = add_remote_player id name p.players })
  perform now link (Session.remove_player id) p =
      some (record p { players = remove_remote_player id p.players })
  perform now link (Session.apply_animation id anim) p =
      players_done p (apply_animation_update L id (animation_of anim) p.players)
  perform now link (Session.remote_cutscene id b) p =
      some (record p { players = set_remote_cutscene id b p.players })
  perform now link (Session.set_local_id id) p = some (record p {
    players = Player.set_local_id id p.players;
    combat = Combat.set_local_id id p.combat;
  })
  perform now link Session.clear_players p = some (record p { players = clear p.players })
  perform now link (Session.attack_rpc d) p = do
    packets ← handle_attack_rpc L d p.combat
    some (record p { sent = p.sent ++ packets })
  perform now link (Session.damage_rpc d) p =
      damage_done p (handle_damage_rpc L sys g d p.combat p.memory)
  perform now link (Session.enemy_update d) p =
      damage_done p (handle_enemy_update L sys g d p.combat p.memory)
  perform now link (Session.skill_rpc d) p = memory_done p (
      handle_skill_rpc L sys g (some (λ id. get_remote_entity_base id p.players)) d p.combat
        p.memory)
  perform now link (Session.loot d) p = do loot ← value_by L get_text d "lootId" ""; some p
  perform now link Session.install_hooks p =
      let installed = Hooks.install_hooks M g p.combat p.hooks in
      some (record p { combat = installed.sync; hooks = installed.hooks })
  perform now link Session.remove_hooks p =
      let removed = Hooks.remove_hooks M g p.combat p.hooks in
      some (record p { combat = removed.0; hooks = removed.1 })
  perform now link (Session.tick_players at) p =
      let ticked = Send.tick L sys g link at p.players p.memory in
      some
        (record p { players = ticked.sync; memory = ticked.memory; sent = p.sent ++ ticked.sent })
  perform now link (Session.connect host port) p = some p
  perform now link Session.disconnect p = some p
  perform now link Session.ping p = some p
  perform now link (Session.handshake name) p = some p
  perform now link (Session.create_session name password) p = some p
  perform now link (Session.join_session code password) p = some p
  perform now link (Session.start_puzzle id) p = some p
  perform now link (Session.end_puzzle id) p = some p
  perform now link (Session.puzzle_token_changed id controller remaining queue) p = some p
  perform now link (Session.poll_cutscene at) p = some p
  perform now link (Session.tick_puzzle at) p = some p

  unfoldable pub perform_all : ℕ → Bool → List (Call Value) → Parts → Option Parts
  unfolding perform
  perform_all now link [] p = some p
  perform_all now link (c ∷ cs) p = do p ← perform now link c p; perform_all now link cs p

  -- `SetHost`, which the handlers of JOIN_ACK and HOST_REASSIGN call before their other calls with
  -- the state that they have just stored.
  unfoldable pub tell_host : Message Value → Bool → CombatSync → CombatSync
  tell_host (Session.join_ack host fire code name players) stored c = set_host stored c
  tell_host (Session.host_reassign id) stored c = set_host stored c
  tell_host (Session.handshake_ack a b) stored combat = combat
  tell_host (Session.join_denied a) stored combat = combat
  tell_host (Session.player_join a) stored combat = combat
  tell_host (Session.player_leave a) stored combat = combat
  tell_host (Session.state_update a) stored combat = combat
  tell_host (Session.animation_update a b) stored combat = combat
  tell_host (Session.rpc_call a b) stored combat = combat
  tell_host (Session.loot_taken a) stored combat = combat
  tell_host (Session.cutscene_started a) stored combat = combat
  tell_host (Session.cutscene_ended a) stored combat = combat
  tell_host (Session.puzzle_started a) stored combat = combat
  tell_host (Session.puzzle_ended a) stored combat = combat
  tell_host (Session.puzzle_token_moved a b c d) stored combat = combat
  tell_host (Session.kick a) stored combat = combat
  tell_host (Session.server_info a) stored combat = combat
  tell_host Session.pong stored combat = combat
  tell_host Session.unhandled stored combat = combat

  unfoldable pub tell_combat : Event Value → Session → CombatSync → CombatSync
  unfolding tell_host
  tell_combat (Session.receives m) s c = tell_host m s.combat_host c
  tell_combat (Session.hosts a port b d) s combat = combat
  tell_combat (Session.joins a port b d) s combat = combat
  tell_combat Session.leaves s combat = combat
  tell_combat Session.shuts_down s combat = combat
  tell_combat Session.connects s combat = combat
  tell_combat Session.drops s combat = combat
  tell_combat (Session.ticks now fine) s combat = combat

  -- An event of the session with its calls.
  unfoldable pub react_parts : ℕ → Bool → Event Value → Session × Parts → Option (Session × Parts)
  unfolding perform_all tell_combat
  react_parts now link e (s, p) =
      let (s, calls) = react (λ v. array (v ∷ [])) e s in
      do
        p ← perform_all now link calls (record p { combat = tell_combat e s p.combat })
        some (s, p)

  -- A packet as it is received.
  unfoldable pub receive_packet :
      ℕ → Bool → PacketType × Value → Session × Parts → Option (Session × Parts)
  unfolding react_parts
  receive_packet now link (type, d) world = do
    m ← message_of L type d
    react_parts now link (Session.receives m) world

  -- Each event comes with the time and with whether the client is connected.
  unfoldable pub run_parts :
      List (ℕ × Bool × Event Value) → Session × Parts → Option (Session × Parts)
  unfolding react_parts
  run_parts [] w = some w
  run_parts ((now, link, e) ∷ es) w = do w ← react_parts now link e w; run_parts es w
