-- ===== src/Session/Told.antt =====
-- client/src/session.cpp and sync/combat_sync.cpp: what `SetHost` leaves as it was.
use crimson_desert_online_mo.Common.{◌≡◌, refl, Bool}
use crimson_desert_online_mo.Net.Json.{JsonLib}
use crimson_desert_online_mo.Game.Memory.{System}
use crimson_desert_online_mo.Game.Offsets.{GameOffsets}
use crimson_desert_online_mo.Sync.Combat.{CombatSync, set_host}
use crimson_desert_online_mo.Sync.Combat.Hooks.{MinHook}
use crimson_desert_online_mo.Sync.Combat.Enemies.{CombatReachable, called, host_set}
use crimson_desert_online_mo.Session.{
  Session, Call, Event, Message, react, on_packet, rpc, state_call, join_calls, join_request, tick,
  host_session, join_session_by, leave_session, shutdown, on_connected,
}
use crimson_desert_online_mo.Session
use crimson_desert_online_mo.Session.Parts.{tell_host, tell_combat}

module _ (L : JsonLib) (M : MinHook) (sys : System) (g : GameOffsets) where
  open L use {Value}

  -- Reached by calls as before, and with the same hooks.
  abbrev pub Told : CombatSync → CombatSync → Type 0
  Told c c' = CombatReachable L sys g c' × (c'.hooks_installed ≡ c.hooks_installed)

  tell_host-Told :
      (m : Message Value) (b : Bool) (c : CombatSync)
      → CombatReachable L sys g c
      → Told c (tell_host L M sys g m b c)
  unfolding tell_host
  tell_host-Told (Session.join_ack host fire code name players) b c r =
      (called r (host_set b), unfold set_host in refl)
  tell_host-Told (Session.host_reassign id) b c r = (called r (host_set b), unfold set_host in refl)
  tell_host-Told (Session.handshake_ack i j) b c r = (r, refl)
  tell_host-Told (Session.join_denied i) b c r = (r, refl)
  tell_host-Told (Session.player_join i) b c r = (r, refl)
  tell_host-Told (Session.player_leave i) b c r = (r, refl)
  tell_host-Told (Session.state_update i) b c r = (r, refl)
  tell_host-Told (Session.animation_update i j) b c r = (r, refl)
  tell_host-Told (Session.rpc_call i j) b c r = (r, refl)
  tell_host-Told (Session.loot_taken i) b c r = (r, refl)
  tell_host-Told (Session.cutscene_started i) b c r = (r, refl)
  tell_host-Told (Session.cutscene_ended i) b c r = (r, refl)
  tell_host-Told (Session.puzzle_started i) b c r = (r, refl)
  tell_host-Told (Session.puzzle_ended i) b c r = (r, refl)
  tell_host-Told (Session.puzzle_token_moved i j k l) b c r = (r, refl)
  tell_host-Told (Session.kick i) b c r = (r, refl)
  tell_host-Told (Session.server_info i) b c r = (r, refl)
  tell_host-Told Session.pong b c r = (r, refl)
  tell_host-Told Session.unhandled b c r = (r, refl)

  pub tell_combat-Told :
      (e : Event Value) (s : Session) (c : CombatSync)
      → CombatReachable L sys g c
      → Told c (tell_combat L M sys g e s c)
  unfolding tell_combat
  tell_combat-Told (Session.receives m) s c r = tell_host-Told m s.combat_host c r
  tell_combat-Told (Session.hosts i j k l) s c r = (r, refl)
  tell_combat-Told (Session.joins i j k l) s c r = (r, refl)
  tell_combat-Told Session.leaves s c r = (r, refl)
  tell_combat-Told Session.shuts_down s c r = (r, refl)
  tell_combat-Told Session.connects s c r = (r, refl)
  tell_combat-Told Session.drops s c r = (r, refl)
  tell_combat-Told (Session.ticks i j) s c r = (r, refl)
