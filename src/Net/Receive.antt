-- ===== src/Net/Receive.antt =====
-- client/src/net/client.cpp: the parsing half of `WsClient::ReceiveLoop`, and the loop itself. A
-- callback is an event: `packet` is a call of `onPacket_`, `reply` one of `SendFrame`.
pub mod Chunks
mod Tests
use crimson_desert_online_mo.Common.{
  ℕ, zero, suc, Bool, true, false, ◌||◌, Option, none, some, List, [], ◌∷◌, ◌++◌, ◌==◌,
  if◌then◌else◌, length,
}
use crimson_desert_online_mo.Net.Json.{JsonLib}
use crimson_desert_online_mo.Net.Protocol.{PacketType, unknown, ordinal, deserialize_packet}
use crimson_desert_online_mo.Net.Frame.{Parsed, wait, overlong, got, parse_frame}

pub data Status : Type 0 where
  waiting closed thrown : Status

module _ (L : JsonLib) where
  open L use {Value}

  pub data Event : Type 0 where
    reply : List ℕ → Event
    packet : PacketType → Value → Event

  pub record Drained : Type 0 where
    pub events : List Event
    pub rest : List ℕ
    pub status : Status

  abbrev pub stop : Status → List ℕ → Drained
  stop s rx = record { events = []; rest = rx; status = s }

  abbrev pub emit : List Event → Drained → Drained
  emit es d = record d { events = es ++ d.events }

  abbrev deliver : PacketType × Value → List Event
  deliver (type, data') = if ordinal type == ordinal unknown then [] else packet type data' ∷ []

  -- The effect of a frame that is no close frame. A ping's reply is a text frame.
  pub on_frame : ℕ → List ℕ → List Event
  on_frame opcode payload =
      if opcode == 0x9
      then reply payload ∷ []
      else if opcode == 0x1 || opcode == 0x2 || opcode == 0x0
      then deliver (deserialize_packet L payload)
      else []

  -- One round of the loop; `again` is the rounds that follow.
  round : (List ℕ → Drained) → List ℕ → Parsed → Drained
  round again rx wait = stop waiting rx
  round again rx overlong = stop thrown rx
  round again rx (got opcode payload rest) =
      if opcode == 0x8 then stop closed rest else emit (on_frame opcode payload) (again rest)

  -- "Parse as many complete frames as are buffered", with fuel.
  pub drain : ℕ → List ℕ → Drained
  unfolding round
  drain zero rx = stop waiting rx
  drain (suc fuel) rx = round (drain fuel) rx (parse_frame rx)

  -- Each frame takes two bytes at least, so the length is fuel enough.
  pub drain_all : List ℕ → Drained
  drain_all rx = drain (length rx) rx

  -- The bytes that were parsed are erased; the cast of their number to `long` is exact below 2^31.
  resume : Status → Drained → List ℕ → Drained
  resume waiting d bytes = emit d.events (drain_all (d.rest ++ bytes))
  resume closed d bytes = d
  resume thrown d bytes = d

  -- One `recv` that returned bytes. After a close frame or an exception the loop is left.
  pub on_bytes : Drained → List ℕ → Drained
  unfolding resume
  on_bytes d bytes = resume d.status d bytes

  pub on_chunks : Drained → List (List ℕ) → Drained
  on_chunks d [] = d
  on_chunks d (c ∷ cs) = on_chunks (on_bytes d c) cs
