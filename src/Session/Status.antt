-- ===== src/Session/Status.antt =====
-- How the status and the host's role go on.
use crimson_desert_online_mo.Common.{◌≢◌, List, [], ◌∷◌, All, arith}
use crimson_desert_online_mo.Ui.Modal.{in_session}
use crimson_desert_online_mo.Session.{
  Session, Message, Event, hosts, joins, leaves, shuts_down, connects, drops, receives, ticks,
  host_session, join_session_by, leave_session, shutdown, on_connected, on_packet, tick, react, run,
  handshake_ack, join_denied, player_join, player_leave, state_update, animation_update, rpc_call,
  host_reassign, loot_taken, cutscene_started, cutscene_ended, puzzle_started, puzzle_ended,
  puzzle_token_moved, kick, server_info, pong, unhandled, join_ack,
}

abbrev pub IsAdmission : {J : Type 0} → Event J → Type 0
IsAdmission (receives m) = elim m [
  | handshake_ack id server ↦ ⊥
  | join_ack host fire code name players ↦ Unit {0}
  | join_denied reason ↦ ⊥
  | player_join player ↦ ⊥
  | player_leave id ↦ ⊥
  | state_update players ↦ ⊥
  | animation_update id anim ↦ ⊥
  | rpc_call type d ↦ ⊥
  | host_reassign id ↦ ⊥
  | loot_taken d ↦ ⊥
  | cutscene_started id ↦ ⊥
  | cutscene_ended id ↦ ⊥
  | puzzle_started id ↦ ⊥
  | puzzle_ended id ↦ ⊥
  | puzzle_token_moved id controller remaining queue ↦ ⊥
  | kick reason ↦ ⊥
  | server_info name ↦ ⊥
  | pong ↦ ⊥
  | unhandled ↦ ⊥
]
IsAdmission (hosts host port name password) = ⊥
IsAdmission (joins host port code password) = ⊥
IsAdmission leaves = ⊥
IsAdmission shuts_down = ⊥
IsAdmission connects = ⊥
IsAdmission drops = ⊥
IsAdmission (ticks now link) = ⊥

module _ {J : Type 0} (array_of : J → J) where
  on_packet_outside :
      (m : Message J) (s : Session)
      → ¬ IsAdmission (receives m)
      → s.status ≢ in_session
      → (on_packet array_of m s).0.status ≢ in_session
  unfolding on_packet
  on_packet_outside (handshake_ack id server) s bar out = cc
  on_packet_outside (join_ack host fire code name players) s bar out = absurd (bar tt)
  on_packet_outside (join_denied reason) s bar out = cc
  on_packet_outside (player_join player) s bar out = out
  on_packet_outside (player_leave id) s bar out = out
  on_packet_outside (state_update players) s bar out = out
  on_packet_outside (animation_update id anim) s bar out = out
  on_packet_outside (rpc_call type d) s bar out = out
  on_packet_outside (host_reassign id) s bar out = out
  on_packet_outside (loot_taken d) s bar out = out
  on_packet_outside (cutscene_started id) s bar out = out
  on_packet_outside (cutscene_ended id) s bar out = out
  on_packet_outside (puzzle_started id) s bar out = out
  on_packet_outside (puzzle_ended id) s bar out = out
  on_packet_outside (puzzle_token_moved id controller remaining queue) s bar out = out
  on_packet_outside (kick reason) s bar out = cc
  on_packet_outside (server_info name) s bar out = out
  on_packet_outside pong s bar out = out
  on_packet_outside unhandled s bar out = out

  react_outside :
      (e : Event J) (s : Session)
      → ¬ IsAdmission e
      → s.status ≢ in_session
      → (react array_of e s).0.status ≢ in_session
  unfolding react tick host_session join_session_by leave_session shutdown on_connected
  react_outside (hosts host port name password) s bar out = cc
  react_outside (joins host port code password) s bar out = cc
  react_outside leaves s bar out = cc
  react_outside shuts_down s bar out = cc
  react_outside connects s bar out = out
  react_outside drops s bar out = out
  react_outside (receives m) s bar out = on_packet_outside m s bar out
  react_outside (ticks now link) s bar out = ground arith

  -- A session that is not joined becomes so only by a JOIN_ACK: no other packet, connection, choice
  -- of the player or tick makes it count as joined.
  pub run_outside :
      (es : List (Event J)) (s : Session)
      → All (λ e. ¬ IsAdmission e) es
      → s.status ≢ in_session
      → (run array_of es s).status ≢ in_session
  unfolding run
  run_outside [] s bar out = out
  run_outside (e ∷ es) s (bar, bars) out =
      run_outside es (react array_of e s).0 bars (react_outside e s bar out)
