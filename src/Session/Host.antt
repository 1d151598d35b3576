-- ===== src/Session/Host.antt =====
-- Who holds the host's role: the session and the combat sync.
use crimson_desert_online_mo.Common.{◌≡◌, refl, List, [], ◌∷◌, All, arith}
use crimson_desert_online_mo.Session.{
  Session, Message, Event, hosts, joins, leaves, shuts_down, connects, drops, receives, ticks,
  host_session, join_session_by, shutdown, on_connected, on_packet, tick, react, run, handshake_ack,
  join_denied, player_join, player_leave, state_update, animation_update, rpc_call, host_reassign,
  loot_taken, cutscene_started, cutscene_ended, puzzle_started, puzzle_ended, puzzle_token_moved,
  kick, server_info, pong, unhandled, join_ack,
}

abbrev pub IsStay : {J : Type 0} → Event J → Type 0
IsStay leaves = ⊥
IsStay (hosts host port name password) = Unit {0}
IsStay (joins host port code password) = Unit {0}
IsStay shuts_down = Unit {0}
IsStay connects = Unit {0}
IsStay drops = Unit {0}
IsStay (receives m) = Unit {0}
IsStay (ticks now link) = Unit {0}

abbrev pub IsAgreed : Session → Type 0
IsAgreed s = s.combat_host ≡ s.is_host

module _ {J : Type 0} (array_of : J → J) where
  on_packet-IsAgreed :
      (m : Message J) (s : Session) → IsAgreed s → IsAgreed (on_packet array_of m s).0
  unfolding on_packet
  on_packet-IsAgreed (handshake_ack id server) s same = same
  on_packet-IsAgreed (join_ack host fire code name players) s same = refl
  on_packet-IsAgreed (join_denied reason) s same = same
  on_packet-IsAgreed (player_join player) s same = same
  on_packet-IsAgreed (player_leave id) s same = same
  on_packet-IsAgreed (state_update players) s same = same
  on_packet-IsAgreed (animation_update id anim) s same = same
  on_packet-IsAgreed (rpc_call type d) s same = same
  on_packet-IsAgreed (host_reassign id) s same = refl
  on_packet-IsAgreed (loot_taken d) s same = same
  on_packet-IsAgreed (cutscene_started id) s same = same
  on_packet-IsAgreed (cutscene_ended id) s same = same
  on_packet-IsAgreed (puzzle_started id) s same = same
  on_packet-IsAgreed (puzzle_ended id) s same = same
  on_packet-IsAgreed (puzzle_token_moved id controller remaining queue) s same = same
  on_packet-IsAgreed (kick reason) s same = same
  on_packet-IsAgreed (server_info name) s same = same
  on_packet-IsAgreed pong s same = same
  on_packet-IsAgreed unhandled s same = same

  react-IsAgreed :
      (e : Event J) (s : Session) → IsStay e → IsAgreed s → IsAgreed (react array_of e s).0
  unfolding react tick host_session join_session_by shutdown on_connected
  react-IsAgreed leaves s stay same = absurd stay
  react-IsAgreed (hosts host port name password) s stay same = same
  react-IsAgreed (joins host port code password) s stay same = same
  react-IsAgreed shuts_down s stay same = same
  react-IsAgreed connects s stay same = same
  react-IsAgreed drops s stay same = same
  react-IsAgreed (receives m) s stay same = on_packet-IsAgreed m s same
  react-IsAgreed (ticks now link) s stay same = ground arith

  -- If they agree at the start, then as long as the player does not leave, the session and the
  -- combat sync agree on whether this client is the host.
  pub run-IsAgreed :
      (es : List (Event J)) (s : Session)
      → All IsStay es
      → IsAgreed s
      → IsAgreed (run array_of es s)
  unfolding run
  run-IsAgreed [] s stay same = same
  run-IsAgreed (e ∷ es) s (stay, stays) same =
      run-IsAgreed es (react array_of e s).0 stays (react-IsAgreed e s stay same)
