-- ===== src/Session.antt =====
-- client/src/session.h and session.cpp: the controller. A packet is given by the values that
-- `OnPacket` takes from its JSON (`none` for a key that is missing, where the code asks); `J` is
-- the JSON that it only passes on. What the session tells the other parts is a list of calls.
-- Times are whole milliseconds.
pub mod Joining
pub mod Status
pub mod Host
pub mod Packets
pub mod Parts
pub mod Guest
pub mod Told
pub mod Calm
pub mod Quiet
pub mod Delivery
mod Tests
use crimson_desert_online_mo.Common.{
  ℕ, ◌+◌, Bool, true, false, not, ◌&&◌, Option, none, some, List, [], ◌∷◌, ◌++◌, String, ◌==◌, ltb,
  str_eq, if◌then◌else◌,
}
use Prim.Native.String.{◌++◌ as ◌++ₜ◌}
use crimson_desert_online_mo.Common.Int.{ℤ}
use crimson_desert_online_mo.Ui.Modal.{
  SessionStatus, disconnected, connecting, connected, in_session, failed,
}

pub record Session : Type 0 where
  pub status : SessionStatus
  pub is_host : Bool
  pub friendly_fire : Bool
  pub want_create : Bool
  pub cutscene_active : Bool
  pub local_id : String
  pub player_name : String
  pub pending_session_name : String
  pub pending_password : String
  pub pending_invite_code : String
  pub invite_code : String
  pub server_name : String
  pub last_error : String
  pub last_ping_ms : ℕ
  -- `CombatSync::isHost_`.
  pub combat_host : Bool

module _ (J : Type 0) where
  pub data Call : Type 0 where
    connect : String → ℕ → Call
    disconnect clear_players remove_hooks install_hooks ping : Call
    handshake set_local_id : String → Call
    create_session join_session : String → String → Call
    apply_state : J → Call
    add_player : String → String → Call
    remove_player : String → Call
    apply_animation : String → Option J → Call
    attack_rpc damage_rpc enemy_update skill_rpc loot : J → Call
    remote_cutscene : String → Bool → Call
    start_puzzle end_puzzle : String → Call
    puzzle_token_changed : String → String → ℤ → List String → Call
    poll_cutscene tick_puzzle tick_players : ℕ → Call

  pub data Message : Type 0 where
    handshake_ack : String → String → Message
    join_ack : Bool → Bool → String → Option String → Option J → Message
    join_denied : Option String → Message
    player_join : Option ((String × String) × J) → Message
    player_leave : String → Message
    state_update : Option J → Message
    animation_update : String → Option J → Message
    rpc_call : String → J → Message
    host_reassign : String → Message
    loot_taken : J → Message
    cutscene_started cutscene_ended : String → Message
    puzzle_started puzzle_ended : String → Message
    puzzle_token_moved : String → String → ℤ → List String → Message
    kick : String → Message
    server_info : Option String → Message
    pong unhandled : Message

pub host_session : {J : Type 0} → String → ℕ → String → String → Session → Session × List (Call J)
host_session host port session_name password s = (
  record s {
    pending_session_name = session_name;
    pending_password = password;
    pending_invite_code = "";
    last_error = "";
    want_create = true;
    status = connecting;
  },
  connect host port ∷ [],
)

pub join_session_by :
    {J : Type 0} → String → ℕ → String → String → Session → Session × List (Call J)
join_session_by host port invite_code password s = (
  record s {
    pending_invite_code = invite_code;
    pending_password = password;
    pending_session_name = "";
    last_error = "";
    want_create = false;
    status = connecting;
  },
  connect host port ∷ [],
)

pub leave_session : {J : Type 0} → Session → Session × List (Call J)
leave_session s = (
  record s { status = disconnected; is_host = false; cutscene_active = false },
  disconnect ∷ clear_players ∷ [],
)

pub shutdown : {J : Type 0} → Session → Session × List (Call J)
shutdown s = (record s { status = disconnected }, disconnect ∷ remove_hooks ∷ [])

pub on_connected : {J : Type 0} → Session → Session × List (Call J)
on_connected s = (s, handshake s.player_name ∷ [])

-- The request that Host or Join has queued.
pub join_request : {J : Type 0} → Session → Call J
join_request s =
    if s.want_create
    then create_session s.pending_session_name s.pending_password
    else join_session s.pending_invite_code s.pending_password

abbrev or_else : Option String → String → String
or_else none fallback = fallback
or_else (some x) fallback = x

abbrev if_host : {J : Type 0} → Bool → List (Call J)
if_host host = if host then install_hooks ∷ [] else []

abbrev state_call : {J : Type 0} → Option J → List (Call J)
state_call none = []
state_call (some players) = apply_state players ∷ []

-- `array_of` makes the array of one player.
abbrev join_calls : {J : Type 0} → (J → J) → Option ((String × String) × J) → List (Call J)
join_calls array_of none = []
join_calls array_of (some ((id, name), player)) =
    add_player id name ∷ apply_state (array_of player) ∷ []

rpc : {J : Type 0} → String → J → List (Call J)
rpc type d =
    if str_eq type "attack"
    then attack_rpc d ∷ []
    else if str_eq type "damage"
    then damage_rpc d ∷ []
    else if str_eq type "enemy_update"
    then enemy_update d ∷ []
    else if str_eq type "skill"
    then skill_rpc d ∷ []
    else []

pub on_packet : {J : Type 0} → (J → J) → Message J → Session → Session × List (Call J)
unfolding join_request rpc
on_packet array_of (handshake_ack id server) s = (
  record s { local_id = id; server_name = server; status = connected },
  set_local_id id ∷ join_request s ∷ [],
)
on_packet array_of (join_ack host fire code name players) s = (
  record s {
    is_host = host;
    friendly_fire = fire;
    combat_host = host;
    invite_code = code;
    server_name = or_else name s.server_name;
    status = in_session;
  },
  if_host host ++ state_call players,
)
on_packet array_of (join_denied reason) s =
    (record s { last_error = or_else reason "join denied"; status = failed }, [])
on_packet array_of (player_join player) s = (s, join_calls array_of player)
on_packet array_of (player_leave id) s = (s, remove_player id ∷ [])
on_packet array_of (state_update players) s = (s, state_call players)
on_packet array_of (animation_update id anim) s = (s, apply_animation id anim ∷ [])
on_packet array_of (rpc_call type d) s = (s, rpc type d)
on_packet array_of (host_reassign id) s =
    let now_host = str_eq id s.local_id in
    (record s { is_host = now_host; combat_host = now_host }, if_host now_host)
on_packet array_of (loot_taken d) s = (s, loot d ∷ [])
on_packet array_of (cutscene_started id) s = (s, remote_cutscene id true ∷ [])
on_packet array_of (cutscene_ended id) s = (s, remote_cutscene id false ∷ [])
on_packet array_of (puzzle_started id) s = (s, start_puzzle id ∷ [])
on_packet array_of (puzzle_ended id) s = (s, end_puzzle id ∷ [])
on_packet array_of (puzzle_token_moved id controller remaining queue) s =
    (s, puzzle_token_changed id controller remaining queue ∷ [])
on_packet array_of (kick reason) s =
    (record s { last_error = "Kicked: " ++ₜ reason; status = failed }, [])
on_packet array_of (server_info name) s =
    (record s { server_name = or_else name s.server_name }, [])
on_packet array_of pong s = (s, [])
on_packet array_of unhandled s = (s, [])

abbrev in_play : SessionStatus → Bool
in_play in_session = true
in_play disconnected = false
in_play connecting = false
in_play connected = false
in_play failed = false

-- `link` is `client_ && client_->IsConnected()`.
pub tick : {J : Type 0} → ℕ → Bool → Session → Session × List (Call J)
tick now link s =
    let systems = poll_cutscene now ∷ tick_puzzle now ∷ tick_players now ∷ [] in
    if not (in_play s.status)
    then (s, [])
    else if ltb (s.last_ping_ms + 2000) now
    then (record s { last_ping_ms = now }, systems ++ (if link then ping ∷ [] else []))
    else (s, systems)

-- What reaches the session. The status of a session that drops is left as it is.
pub data Event (J : Type 0) : Type 0 where
  hosts joins : String → ℕ → String → String → Event J
  leaves shuts_down connects drops : Event J
  receives : Message J → Event J
  ticks : ℕ → Bool → Event J

module _ {J : Type 0} (array_of : J → J) where
  pub react : Event J → Session → Session × List (Call J)
  unfolding on_packet tick
  react (hosts host port name password) s = host_session host port name password s
  react (joins host port code password) s = join_session_by host port code password s
  react leaves s = leave_session s
  react shuts_down s = shutdown s
  react connects s = on_connected s
  react drops s = (s, [])
  react (receives m) s = on_packet array_of m s
  react (ticks now link) s = tick now link s

  pub run : List (Event J) → Session → Session
  run [] s = s
  run (e ∷ es) s = run es (react e s).0
