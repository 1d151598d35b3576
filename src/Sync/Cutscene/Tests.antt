-- ===== src/Sync/Cutscene/Tests.antt =====
-- A cutscene that is reported twice, and a flag that is polled.
use crimson_desert_online_mo.Common.{◌≡◌, refl, true, false, not, List, [], ◌∷◌, ◌==◌, arith}
use crimson_desert_online_mo.Game.Memory.{
  Memory, is_readable, in_region, region_readable, safe_read,
}
use crimson_desert_online_mo.Game.Memory.Sample.{open_system, zeros}
use crimson_desert_online_mo.Ui.Modal.{closed}
use crimson_desert_online_mo.Sync.Cutscene.{
  State, Event, entering, polled, scan_for_cinematic_flag, poll, run,
}
use crimson_desert_online_mo.Game.Offsets.{GameOffsets, no_offsets}
use crimson_desert_online_mo.Game.Resolve.{get_local_player_base}
use crimson_desert_online_mo.Sync.Cutscene.Pairing.{IsPaired, silent, run-IsPaired}
use crimson_desert_online_mo.Sync.Cutscene.Flag.{Kept, scan_for_cinematic_flag-Kept, poll_follows}

abbrev polling : State
polling = record {
  sync = record {
    active = false;
    hook_installed = false;
    poll_fallback = true;
    cinematic_flag_addr = 0x2000;
    last_poll_ms = 0;
    last_polled_flag = false;
  };
  world = record {
    cutscene_active = false;
    suspended = false;
    modal = closed;
    has_client = true;
    sent = [];
  };
}

abbrev events : List Event
events =
    entering true
    ∷ polled open_system (λ a. 1) 150
    ∷ entering true
    ∷ entering false
    ∷ polled open_system zeros 300
    ∷ []

run-IsPaired_example : IsPaired (run events polling)
run-IsPaired_example =
    run-IsPaired events polling
      (record { session = refl; players = refl; client = refl; packets = silent })

abbrev ones : Memory
ones = λ a. 1

readable : is_readable open_system polling.sync.cinematic_flag_addr 1 ≡ true
unfolding is_readable in_region region_readable
readable = refl

poll_follows_example :
    (let flag = not (safe_read open_system ones polling.sync.cinematic_flag_addr 1 == 0) in
      ((poll open_system ones 150 polling).sync.active ≡ flag)
      × ((poll open_system ones 150 polling).sync.last_polled_flag ≡ flag))
poll_follows_example =
    poll_follows open_system ones 150 polling refl refl (omega arith) (ground arith) readable

-- In a memory of ones the player stands at 0x0101010101010101.
abbrev with_player : GameOffsets
with_player = record no_offsets { player_base_ptr = 0x2000 }

scan_for_cinematic_flag-Kept_example :
    Kept open_system ones
      (get_local_player_base open_system ones with_player)
      with_player
      polling.sync
      (scan_for_cinematic_flag open_system ones (with_player, polling.sync))
scan_for_cinematic_flag-Kept_example =
    scan_for_cinematic_flag-Kept open_system ones with_player polling.sync
