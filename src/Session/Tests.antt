-- ===== src/Session/Tests.antt =====
-- A session that is hosted, kicked and connected again.
use crimson_desert_online_mo.Common.{ℕ, ◌≡◌, true, false, none, List, [], ◌∷◌}
use crimson_desert_online_mo.Ui.Modal.{disconnected}
use crimson_desert_online_mo.Session.{
  Session, Event, receives, connects, drops, ticks, hosts, handshake_ack, join_ack, kick,
  host_reassign, set_local_id, create_session, join_session, host_session, join_session_by,
  on_packet, run,
}
use crimson_desert_online_mo.Session.Joining.{handshake_ack-request}

-- The JSON that is passed on plays no role here.
abbrev same : ℕ → ℕ
same d = d

abbrev start : Session
start = record {
  status = disconnected;
  is_host = false;
  friendly_fire = false;
  want_create = false;
  cutscene_active = false;
  local_id = "";
  player_name = "Player";
  pending_session_name = "";
  pending_password = "";
  pending_invite_code = "";
  invite_code = "";
  server_name = "";
  last_error = "";
  last_ping_ms = 0;
  combat_host = false;
}

abbrev kicked : List (Event ℕ)
kicked =
    connects
    ∷ receives (handshake_ack "a" "srv")
    ∷ receives (join_ack true false "CODE" none none)
    ∷ ticks 5000 true
    ∷ receives (kick "idle")
    ∷ drops
    ∷ connects
    ∷ []

handshake_ack-request_example :
    ((on_packet same
        (handshake_ack "b" "srv")
        (run same kicked (host_session {J = ℕ} "host" 7777 "den" "pw" start).0)).1
      ≡ set_local_id "b" ∷ create_session "den" "pw" ∷ [])
    × ((on_packet same
          (handshake_ack "b" "srv")
          (run same kicked (join_session_by {J = ℕ} "host" 7777 "den" "pw" start).0)).1
        ≡ set_local_id "b" ∷ join_session "den" "pw" ∷ [])
handshake_ack-request_example =
    handshake_ack-request same kicked start "host" "den" "pw" "b" "srv" 7777
      (tt, (tt, (tt, (tt, (tt, (tt, (tt, tt)))))))

abbrev unadmitted : List (Event ℕ)
unadmitted = hosts "host" 7777 "den" "pw" ∷ connects ∷ receives (handshake_ack "a" "srv") ∷ []

abbrev promoted : List (Event ℕ)
promoted =
    receives (join_ack false false "CODE" none none) ∷ receives (host_reassign "") ∷ drops ∷ []
