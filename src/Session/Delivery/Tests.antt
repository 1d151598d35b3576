-- ===== src/Session/Delivery/Tests.antt =====
-- A session that receives the state of another player, and a short run.
use crimson_desert_online_mo.Common.{ℕ, Bool, true, false, none, List, [], ◌∷◌}
use crimson_desert_online_mo.Net.Json.{JsonLib}
use crimson_desert_online_mo.Net.Json.Sample.{Tree, sample, sample-IsJson, nothing}
use crimson_desert_online_mo.Net.Protocol.{state_update, envelope}
use crimson_desert_online_mo.Game.Memory.Sample.{open_system, zeros}
use crimson_desert_online_mo.Game.Offsets.{no_offsets}
use crimson_desert_online_mo.Ui.Modal.{in_session}
use crimson_desert_online_mo.Sync.Player.Reach.{new_sync}
use crimson_desert_online_mo.Sync.Player.Sample.{hero}
use crimson_desert_online_mo.Sync.Combat.{new_combat}
use crimson_desert_online_mo.Sync.Combat.Hooks.{MinHook}
use crimson_desert_online_mo.Session.{
  Session, Event, receives, ticks, rpc_call, join_ack, player_leave,
}
use crimson_desert_online_mo.Session.Parts.{Parts}
use crimson_desert_online_mo.Session.Delivery.{state_data}

-- Every hook is made.
abbrev hooks : MinHook
hooks = record {
  State = Bool;
  create_hook = λ f h. (true, true);
  enable_hook = λ f h. (h, true);
  disable_hook = λ f h. (h, true);
  is_created = λ f h. h;
}

abbrev session : Session
session = record {
  status = in_session;
  is_host = false;
  friendly_fire = false;
  want_create = false;
  cutscene_active = false;
  local_id = "a";
  player_name = "Ann";
  pending_session_name = "";
  pending_password = "";
  pending_invite_code = "";
  invite_code = "";
  server_name = "";
  last_error = "";
  last_ping_ms = 0;
  combat_host = false;
}

-- The library reads back the packet of the player "b".
abbrev written : Tree
written =
    envelope (sample nothing) state_update
      (state_data (sample nothing) (sample-IsJson nothing) hooks open_system no_offsets "b" hero)

abbrev json : JsonLib
json = sample written

abbrev parts : Parts json hooks open_system no_offsets
parts = record {
  players = record new_sync { local_id = "a" };
  combat = new_combat;
  hooks = false;
  memory = zeros;
  sent = [];
}

abbrev events : List (ℕ × Bool × Event Tree)
events =
    (1000, true, receives (player_leave "b"))
    ∷ (1005, true, receives (join_ack false false "code" none none))
    ∷ (1010, true, receives (rpc_call "damage" nothing))
    ∷ (1020, true, ticks 1020 true)
    ∷ []
