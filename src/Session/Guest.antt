-- ===== src/Session/Guest.antt =====
-- client/src/session.cpp: the events that do not make the client the host, and the calls that they
-- lead to.
use crimson_desert_online_mo.Common.{
  ℕ, All, arith, Bool-cases, inl, inr, String, ◌≡◌, Bool, false, Option, none, some, [], ◌∷◌,
}
use crimson_desert_online_mo.Net.Json.{JsonLib}
use crimson_desert_online_mo.Session.{
  Session, Call, Event, Message, react, on_packet, rpc, state_call, join_calls, join_request, tick,
  host_session, join_session_by, leave_session, shutdown, on_connected,
}
use crimson_desert_online_mo.Session

module _ (L : JsonLib) where
  open L use {Value}

  -- The packet does not make the client the host.
  abbrev pub IsGuestMessage : Message Value → Type 0
  IsGuestMessage (Session.join_ack host fire code name players) = host ≡ false
  IsGuestMessage (Session.host_reassign id) = ⊥
  IsGuestMessage (Session.handshake_ack a b) = Unit {0}
  IsGuestMessage (Session.join_denied a) = Unit {0}
  IsGuestMessage (Session.player_join a) = Unit {0}
  IsGuestMessage (Session.player_leave a) = Unit {0}
  IsGuestMessage (Session.state_update a) = Unit {0}
  IsGuestMessage (Session.animation_update a b) = Unit {0}
  IsGuestMessage (Session.rpc_call a b) = Unit {0}
  IsGuestMessage (Session.loot_taken a) = Unit {0}
  IsGuestMessage (Session.cutscene_started a) = Unit {0}
  IsGuestMessage (Session.cutscene_ended a) = Unit {0}
  IsGuestMessage (Session.puzzle_started a) = Unit {0}
  IsGuestMessage (Session.puzzle_ended a) = Unit {0}
  IsGuestMessage (Session.puzzle_token_moved a b c d) = Unit {0}
  IsGuestMessage (Session.kick a) = Unit {0}
  IsGuestMessage (Session.server_info a) = Unit {0}
  IsGuestMessage Session.pong = Unit {0}
  IsGuestMessage Session.unhandled = Unit {0}

  abbrev pub IsGuest : Event Value → Type 0
  IsGuest (Session.receives m) = IsGuestMessage m
  IsGuest (Session.hosts a b c d) = Unit {0}
  IsGuest (Session.joins a b c d) = Unit {0}
  IsGuest Session.leaves = Unit {0}
  IsGuest Session.shuts_down = Unit {0}
  IsGuest Session.connects = Unit {0}
  IsGuest Session.drops = Unit {0}
  IsGuest (Session.ticks a b) = Unit {0}

  -- A call other than that of `InstallHooks`.
  abbrev pub IsHarmless : Call Value → Type 0
  IsHarmless (Session.connect a b) = Unit {0}
  IsHarmless Session.disconnect = Unit {0}
  IsHarmless Session.clear_players = Unit {0}
  IsHarmless Session.remove_hooks = Unit {0}
  IsHarmless Session.install_hooks = ⊥
  IsHarmless Session.ping = Unit {0}
  IsHarmless (Session.handshake a) = Unit {0}
  IsHarmless (Session.set_local_id a) = Unit {0}
  IsHarmless (Session.create_session a b) = Unit {0}
  IsHarmless (Session.join_session a b) = Unit {0}
  IsHarmless (Session.apply_state a) = Unit {0}
  IsHarmless (Session.add_player a b) = Unit {0}
  IsHarmless (Session.remove_player a) = Unit {0}
  IsHarmless (Session.apply_animation a b) = Unit {0}
  IsHarmless (Session.attack_rpc a) = Unit {0}
  IsHarmless (Session.damage_rpc a) = Unit {0}
  IsHarmless (Session.enemy_update a) = Unit {0}
  IsHarmless (Session.skill_rpc a) = Unit {0}
  IsHarmless (Session.loot a) = Unit {0}
  IsHarmless (Session.remote_cutscene a b) = Unit {0}
  IsHarmless (Session.start_puzzle a) = Unit {0}
  IsHarmless (Session.end_puzzle a) = Unit {0}
  IsHarmless (Session.puzzle_token_changed a b c d) = Unit {0}
  IsHarmless (Session.poll_cutscene a) = Unit {0}
  IsHarmless (Session.tick_puzzle a) = Unit {0}
  IsHarmless (Session.tick_players a) = Unit {0}

  rpc-IsHarmless : (type : String) (d : Value) → All IsHarmless (rpc type d)
  unfolding rpc
  rpc-IsHarmless type d = ground arith

  state_call-IsHarmless : (o : Option Value) → All IsHarmless (state_call o)
  state_call-IsHarmless none = tt
  state_call-IsHarmless (some players) = (tt, tt)

  join_request-IsHarmless : (s : Session) → IsHarmless (join_request s)
  unfolding join_request
  join_request-IsHarmless s = elim (Bool-cases s.want_create) [ inl e ↦ rw e tt | inr e ↦ rw e tt ]

  join_calls-IsHarmless :
      (o : Option ((String × String) × Value))
      → All IsHarmless (join_calls (λ v. L.array (v ∷ [])) o)
  join_calls-IsHarmless none = tt
  join_calls-IsHarmless (some ((id, name), player)) = (tt, (tt, tt))

  on_packet-IsHarmless :
      (m : Message Value) (s : Session)
      → IsGuestMessage m
      → All IsHarmless (on_packet (λ v. L.array (v ∷ [])) m s).1
  unfolding on_packet
  on_packet-IsHarmless (Session.join_ack host fire code name players) s guest =
      rw guest (state_call-IsHarmless players)
  on_packet-IsHarmless (Session.host_reassign id) s guest = absurd guest
  on_packet-IsHarmless (Session.handshake_ack a b) s guest = (tt, (join_request-IsHarmless s, tt))
  on_packet-IsHarmless (Session.join_denied a) s guest = tt
  on_packet-IsHarmless (Session.player_join a) s guest = join_calls-IsHarmless a
  on_packet-IsHarmless (Session.player_leave a) s guest = (tt, tt)
  on_packet-IsHarmless (Session.state_update a) s guest = state_call-IsHarmless a
  on_packet-IsHarmless (Session.animation_update a b) s guest = (tt, tt)
  on_packet-IsHarmless (Session.rpc_call a b) s guest = rpc-IsHarmless a b
  on_packet-IsHarmless (Session.loot_taken a) s guest = (tt, tt)
  on_packet-IsHarmless (Session.cutscene_started a) s guest = (tt, tt)
  on_packet-IsHarmless (Session.cutscene_ended a) s guest = (tt, tt)
  on_packet-IsHarmless (Session.puzzle_started a) s guest = (tt, tt)
  on_packet-IsHarmless (Session.puzzle_ended a) s guest = (tt, tt)
  on_packet-IsHarmless (Session.puzzle_token_moved a b c d) s guest = (tt, tt)
  on_packet-IsHarmless (Session.kick a) s guest = tt
  on_packet-IsHarmless (Session.server_info a) s guest = tt
  on_packet-IsHarmless Session.pong s guest = tt
  on_packet-IsHarmless Session.unhandled s guest = tt

  tick-IsHarmless :
      (now : ℕ) (link : Bool) (s : Session) → All IsHarmless (tick {J = Value} now link s).1
  unfolding tick
  tick-IsHarmless now link s = ground arith

  pub react-IsHarmless :
      (e : Event Value) (s : Session)
      → IsGuest e
      → All IsHarmless (react (λ v. L.array (v ∷ [])) e s).1
  unfolding react host_session join_session_by leave_session shutdown on_connected
  react-IsHarmless (Session.receives m) s guest = on_packet-IsHarmless m s guest
  react-IsHarmless (Session.hosts a b c d) s guest = (tt, tt)
  react-IsHarmless (Session.joins a b c d) s guest = (tt, tt)
  react-IsHarmless Session.leaves s guest = (tt, (tt, tt))
  react-IsHarmless Session.shuts_down s guest = (tt, (tt, tt))
  react-IsHarmless Session.connects s guest = (tt, tt)
  react-IsHarmless Session.drops s guest = tt
  react-IsHarmless (Session.ticks now link) s guest = tick-IsHarmless now link s
