-- ===== src/Session/Packets.antt =====
-- client/src/session.cpp: the values that `OnPacket` takes from the JSON of a packet; `none` stands
-- for an exception.
use crimson_desert_online_mo.Common.{
  ℕ, ◌-◌, ◌^◌, false, not, ◌&&◌, Option, none, some, List, [], ◌∷◌, String, ltb, if◌then◌else◌,
  ◌>>=◌,
}
use crimson_desert_online_mo.Common.Int.{ℤ, pos, negsuc}
use crimson_desert_online_mo.Net.Json.{JsonLib, value_by}
use crimson_desert_online_mo.Net.Protocol.{
  PacketType, handshake, handshake_ack, join_request, join_ack, join_denied, player_join,
  player_leave, state_update, animation_update, rpc_call, rpc_result, chat, host_reassign, ping,
  pong, kick, server_info, loot_taken, cutscene_start, cutscene_end, puzzle_start, puzzle_token,
  puzzle_pass, puzzle_end, unknown,
}
use crimson_desert_online_mo.Session.{Message}
use crimson_desert_online_mo.Session

-- The number of a 32-bit pattern.
abbrev signed : ℕ → ℤ
signed n = if ltb n (2 ^ 31) then pos n else negsuc (2 ^ 32 - 1 - n)

module _ (L : JsonLib) where
  open L use {Value, is_object, contains, at, is_array, items, get_text, get_int, get_bool}

  -- `d.value(k, std::string())`.
  abbrev pub text_at : Value → String → Option String
  text_at d k = value_by L get_text d k ""

  -- `d.value(k, old)`, where a text that is missing is the old one.
  optional_text : Value → String → Option (Option String)
  optional_text d k =
      if not (is_object d)
      then none
      else if not (contains d k)
      then some none
      else get_text (at d k) >>= (λ s. some (some s))

  -- `if (d.contains(k)) f(d[k])`.
  abbrev member_at : Value → String → Option Value
  member_at d k = if contains d k then some (at d k) else none

  texts : List Value → Option (List String)
  texts [] = some []
  texts (v ∷ vs) = do s ← get_text v; rest ← texts vs; some (s ∷ rest)

  queue_of : Value → Option (List String)
  unfolding texts
  queue_of d =
      if contains d "queue" && is_array (at d "queue")
      then texts (items (at d "queue"))
      else some []

  joining : Option Value → Option (Option ((String × String) × Value))
  joining none = some none
  joining (some p) = do id ← text_at p "id"; name ← text_at p "name"; some (some ((id, name), p))

  unfoldable pub message_of : PacketType → Value → Option (Message Value)
  unfolding optional_text queue_of joining
  message_of handshake_ack d = do
    id ← text_at d "playerId"
    server ← text_at d "serverName"
    some (Session.handshake_ack id server)
  message_of join_ack d = do
    host ← value_by L get_bool d "isHost" false
    fire ← value_by L get_bool d "friendlyFire" false
    code ← text_at d "inviteCode"
    name ← optional_text d "sessionName"
    some (Session.join_ack host fire code name (member_at d "players"))
  message_of join_denied d = do reason ← optional_text d "reason"; some (Session.join_denied reason)
  message_of player_join d = do
    player ← joining (member_at d "player")
    some (Session.player_join player)
  message_of player_leave d = do id ← text_at d "playerId"; some (Session.player_leave id)
  message_of state_update d = some (Session.state_update (member_at d "players"))
  message_of animation_update d = do
    id ← text_at d "playerId"
    some (Session.animation_update id (member_at d "animState"))
  message_of rpc_call d = do type ← text_at d "type"; some (Session.rpc_call type d)
  message_of host_reassign d = do id ← text_at d "newHostId"; some (Session.host_reassign id)
  message_of loot_taken d = some (Session.loot_taken d)
  message_of cutscene_start d = do id ← text_at d "playerId"; some (Session.cutscene_started id)
  message_of cutscene_end d = do id ← text_at d "playerId"; some (Session.cutscene_ended id)
  message_of puzzle_start d = do id ← text_at d "puzzleId"; some (Session.puzzle_started id)
  message_of puzzle_token d = do
    queue ← queue_of d
    id ← text_at d "puzzleId"
    controller ← text_at d "controllerId"
    remaining ← value_by L get_int d "remainingMs" 0
    some (Session.puzzle_token_moved id controller (signed remaining) queue)
  message_of puzzle_end d = do id ← text_at d "puzzleId"; some (Session.puzzle_ended id)
  message_of kick d = do reason ← text_at d "reason"; some (Session.kick reason)
  message_of pong d = some Session.pong
  message_of server_info d = do
    name ← optional_text d "sessionName"
    some (Session.server_info name)
  message_of handshake d = some Session.unhandled
  message_of join_request d = some Session.unhandled
  message_of rpc_result d = some Session.unhandled
  message_of chat d = some Session.unhandled
  message_of ping d = some Session.unhandled
  message_of puzzle_pass d = some Session.unhandled
  message_of unknown d = some Session.unhandled
