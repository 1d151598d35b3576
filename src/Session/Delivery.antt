-- ===== src/Session/Delivery.antt =====
-- client/src/session.cpp with net/protocol.cpp and the player sync: a packet from its bytes to the table
-- of players.
mod Tests
use crimson_desert_online_mo.Common.{[], ◌∷◌, String}
use crimson_desert_online_mo.Net.Json.{JsonLib, IsJson}
use crimson_desert_online_mo.Game.Memory.{System}
use crimson_desert_online_mo.Game.Offsets.{GameOffsets}
use crimson_desert_online_mo.Sync.Player.Send.{Local, player_value}
use crimson_desert_online_mo.Sync.Combat.Hooks.{MinHook}
use crimson_desert_online_mo.Session.{Session, Call, Event}
use crimson_desert_online_mo.Session
use crimson_desert_online_mo.Session.Parts.{Parts}

module _ (L : JsonLib) (J : IsJson L) (M : MinHook) (sys : System) (g : GameOffsets) where
  open L use {Value, parse, dump, object, array}

  -- `{{"players", {player}}}`
  abbrev pub state_data : String → Local → Value
  state_data id l = object (("players", array (player_value L id l ∷ [])) ∷ [])
