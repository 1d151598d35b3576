-- ===== src/Net/Protocol.antt =====
-- client/src/net/protocol.h and protocol.cpp: packet types, their names and the JSON envelope.
pub mod Laws
mod Tests
use crimson_desert_online_mo.Common.{ℕ, Bool, not, ◌||◌, Option, none, some, List, [], ◌∷◌, String}
use crimson_desert_online_mo.Common.{◌==◌, str_eq, if◌then◌else◌}
use crimson_desert_online_mo.Net.Json.{JsonLib}

abbrev pub protocol_version : ℕ
protocol_version = 1

pub data PacketType : Type 0 where
  handshake handshake_ack join_request join_ack join_denied player_join : PacketType
  player_leave state_update animation_update rpc_call rpc_result chat : PacketType
  host_reassign ping pong kick server_info loot_taken cutscene_start : PacketType
  cutscene_end puzzle_start puzzle_token puzzle_pass puzzle_end unknown : PacketType

-- The value of the enumerator, by which `==` compares.
abbrev pub ordinal : PacketType → ℕ
ordinal handshake = 0
ordinal handshake_ack = 1
ordinal join_request = 2
ordinal join_ack = 3
ordinal join_denied = 4
ordinal player_join = 5
ordinal player_leave = 6
ordinal state_update = 7
ordinal animation_update = 8
ordinal rpc_call = 9
ordinal rpc_result = 10
ordinal chat = 11
ordinal host_reassign = 12
ordinal ping = 13
ordinal pong = 14
ordinal kick = 15
ordinal server_info = 16
ordinal loot_taken = 17
ordinal cutscene_start = 18
ordinal cutscene_end = 19
ordinal puzzle_start = 20
ordinal puzzle_token = 21
ordinal puzzle_pass = 22
ordinal puzzle_end = 23
ordinal unknown = 24

abbrev pub packet_table : List (PacketType × String)
packet_table =
    (handshake, "HANDSHAKE")
    ∷ (handshake_ack, "HANDSHAKE_ACK")
    ∷ (join_request, "JOIN_REQUEST")
    ∷ (join_ack, "JOIN_ACK")
    ∷ (join_denied, "JOIN_DENIED")
    ∷ (player_join, "PLAYER_JOIN")
    ∷ (player_leave, "PLAYER_LEAVE")
    ∷ (state_update, "STATE_UPDATE")
    ∷ (animation_update, "ANIMATION_UPDATE")
    ∷ (rpc_call, "RPC_CALL")
    ∷ (rpc_result, "RPC_RESULT")
    ∷ (chat, "CHAT")
    ∷ (host_reassign, "HOST_REASSIGN")
    ∷ (ping, "PING")
    ∷ (pong, "PONG")
    ∷ (kick, "KICK")
    ∷ (server_info, "SERVER_INFO")
    ∷ (loot_taken, "LOOT_TAKEN")
    ∷ (cutscene_start, "CUTSCENE_START")
    ∷ (cutscene_end, "CUTSCENE_END")
    ∷ (puzzle_start, "PUZZLE_START")
    ∷ (puzzle_token, "PUZZLE_TOKEN")
    ∷ (puzzle_pass, "PUZZLE_PASS")
    ∷ (puzzle_end, "PUZZLE_END")
    ∷ []

-- The two loops over the table.
name_in : List (PacketType × String) → PacketType → String
name_in [] t = "UNKNOWN"
name_in ((u, name) ∷ rest) t = if ordinal u == ordinal t then name else name_in rest t

type_in : List (PacketType × String) → String → PacketType
type_in [] s = unknown
type_in ((u, name) ∷ rest) s = if str_eq s name then u else type_in rest s

pub packet_type_to_string : PacketType → String
unfolding name_in
packet_type_to_string t = name_in packet_table t

pub packet_type_from_string : String → PacketType
unfolding type_in
packet_type_from_string s = type_in packet_table s

module _ (L : JsonLib) where
  open L use {Value, parse, dump, null, text, object, is_object, contains, at, get_text}

  -- The envelope { "t": <type>, "d": <payload> }.
  abbrev pub envelope : PacketType → Value → Value
  envelope type payload = object (("t", text (packet_type_to_string type)) ∷ ("d", payload) ∷ [])

  pub serialize_packet : PacketType → Value → List ℕ
  serialize_packet type payload = dump (envelope type payload)

  -- What the `catch (...)` and the early return both answer.
  abbrev pub refused : PacketType × Value
  refused = (unknown, null)

  abbrev payload_of : Value → Value
  payload_of j = if contains j "d" then at j "d" else object []

  abbrev typed : Value → Option String → PacketType × Value
  typed j none = refused
  typed j (some t) = (packet_type_from_string t, payload_of j)

  abbrev read_envelope : Option Value → PacketType × Value
  read_envelope none = refused
  read_envelope (some j) =
      if not (is_object j) || not (contains j "t") then refused else typed j (get_text (at j "t"))

  pub deserialize_packet : List ℕ → PacketType × Value
  deserialize_packet raw = read_envelope (parse raw)
