-- ===== src/Session/Joining.antt =====
-- The request that the session sends after each handshake.
use crimson_desert_online_mo.Common.{ℕ, ◌≡◌, refl, ◌∙◌, List, [], ◌∷◌, String, All, arith}
use crimson_desert_online_mo.Session.{
  join_denied, player_join, player_leave, state_update, animation_update, rpc_call, host_reassign,
  loot_taken, cutscene_started, cutscene_ended, puzzle_started, puzzle_ended, puzzle_token_moved,
  kick, server_info, pong, unhandled, join_ack, Session, Message, Event, hosts, joins, leaves,
  shuts_down, connects, drops, receives, ticks, host_session, join_session_by, shutdown,
  on_connected, on_packet, tick, join_request, set_local_id, create_session, join_session,
  handshake_ack, react, run,
}

-- What is no choice of the player in the overlay.
abbrev pub IsUnasked : {J : Type 0} → Event J → Type 0
IsUnasked (hosts host port name password) = ⊥
IsUnasked (joins host port code password) = ⊥
IsUnasked leaves = ⊥
IsUnasked shuts_down = Unit {0}
IsUnasked connects = Unit {0}
IsUnasked drops = Unit {0}
IsUnasked (receives m) = Unit {0}
IsUnasked (ticks now link) = Unit {0}

module _ {J : Type 0} (array_of : J → J) where
  on_packet-join_request :
      (m : Message J) (s : Session)
      → join_request {J = J} (on_packet array_of m s).0 ≡ join_request s
  unfolding on_packet join_request
  on_packet-join_request (handshake_ack id server) s = refl
  on_packet-join_request (join_ack host fire code name players) s = refl
  on_packet-join_request (join_denied reason) s = refl
  on_packet-join_request (player_join player) s = refl
  on_packet-join_request (player_leave id) s = refl
  on_packet-join_request (state_update players) s = refl
  on_packet-join_request (animation_update id anim) s = refl
  on_packet-join_request (rpc_call type d) s = refl
  on_packet-join_request (host_reassign id) s = refl
  on_packet-join_request (loot_taken d) s = refl
  on_packet-join_request (cutscene_started id) s = refl
  on_packet-join_request (cutscene_ended id) s = refl
  on_packet-join_request (puzzle_started id) s = refl
  on_packet-join_request (puzzle_ended id) s = refl
  on_packet-join_request (puzzle_token_moved id controller remaining queue) s = refl
  on_packet-join_request (kick reason) s = refl
  on_packet-join_request (server_info name) s = refl
  on_packet-join_request pong s = refl
  on_packet-join_request unhandled s = refl

  asked_request :
      (s : Session) (host name password id : String) (port : ℕ)
      → set_local_id id
          ∷ join_request {J = J} (host_session {J = J} host port name password s).0
          ∷ []
        ≡ set_local_id id ∷ create_session name password ∷ []
  unfolding join_request host_session
  asked_request s host name password id port = refl

  joined_request :
      (s : Session) (host code password id : String) (port : ℕ)
      → set_local_id id
          ∷ join_request {J = J} (join_session_by {J = J} host port code password s).0
          ∷ []
        ≡ set_local_id id ∷ join_session code password ∷ []
  unfolding join_request join_session_by
  joined_request s host code password id port = refl

  react-join_request :
      (e : Event J) (s : Session)
      → IsUnasked e
      → join_request {J = J} (react array_of e s).0 ≡ join_request s
  unfolding react join_request tick shutdown on_connected
  react-join_request (hosts host port name password) s u = absurd u
  react-join_request (joins host port code password) s u = absurd u
  react-join_request leaves s u = absurd u
  react-join_request shuts_down s u = refl
  react-join_request connects s u = refl
  react-join_request drops s u = refl
  react-join_request (receives m) s u = on_packet-join_request m s
  react-join_request (ticks now link) s u = ground arith

  run-join_request :
      (es : List (Event J)) (s : Session)
      → All IsUnasked es
      → join_request {J = J} (run array_of es s) ≡ join_request s
  unfolding run
  run-join_request [] s u = refl
  run-join_request (e ∷ es) s (u, us) =
      run-join_request es (react array_of e s).0 us ∙ react-join_request e s u

  -- After Host or Join is chosen, and whatever is received, drops or reconnects then, until the
  -- player chooses something else, each HANDSHAKE_ACK makes the session take the id it names and
  -- send the request that was chosen: Host's with its name and password, Join's with its code and
  -- password.
  pub handshake_ack-request :
      (es : List (Event J)) (s : Session) (host name password id server : String) (port : ℕ)
      → All IsUnasked es
      → let ack =
          λ (t : Session). on_packet array_of (handshake_ack id server) (run array_of es t) in
        ((ack (host_session {J = J} host port name password s).0).1
          ≡ set_local_id id ∷ create_session name password ∷ [])
        × ((ack (join_session_by {J = J} host port name password s).0).1
            ≡ set_local_id id ∷ join_session name password ∷ [])
  unfolding on_packet
  handshake_ack-request es s host name password id server port u =
      let asked = (host_session {J = J} host port name password s).0 in
      let joined = (join_session_by {J = J} host port name password s).0 in
      (
        rw (run-join_request es asked u) (asked_request s host name password id port),
        rw (run-join_request es joined u) (joined_request s host name password id port),
      )
