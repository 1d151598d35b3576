-- ===== src/Sync/Player/Tests.antt =====
-- Two players.
use crimson_desert_online_mo.Common.{
  ℕ, ◌+◌, ◌≡◌, ◌≢◌, ◌≤◌, ◌↔◌, refl, true, false, some, List, [], ◌∷◌, str_eq, if◌then◌else◌, All,
  length,
}
use crimson_desert_online_mo.Common.Table.{put}
use crimson_desert_online_mo.Net.Json.{JsonLib}
use crimson_desert_online_mo.Net.Json.Sample.{sample, sample-IsJson, nothing}
use crimson_desert_online_mo.Game.Float.Arith.{float_add, float_sub, float_mul, float_ratio}
use crimson_desert_online_mo.Game.Memory.Sample.{open_system, zeros}
use crimson_desert_online_mo.Game.Offsets.{GameOffsets, no_offsets, player_layout_resolved}
use crimson_desert_online_mo.Game.Resolve.{get_local_player_base}
use crimson_desert_online_mo.Sync.Player.{
  PlayerSync, tm_land, add_remote_player, get_remote_entity_base, remote_at,
}
use crimson_desert_online_mo.Sync.Player.Gameplay.{read_local_gameplay}
use crimson_desert_online_mo.Sync.Player.Gameplay.Bounds.{read_local_gameplay-bounds}
use crimson_desert_online_mo.Sync.Player.Update.{apply_state_update}
use crimson_desert_online_mo.Sync.Player.Motion.{lerp, converge, seconds_since}
use crimson_desert_online_mo.Sync.Player.Sample.{hero, hero-LocalFits}
use crimson_desert_online_mo.Sync.Player.Reach.{new_sync, Reachable, started, stepped, added}
use crimson_desert_online_mo.Sync.Player.Send.{
  player_value, tick, send_local_state, worth_sending, read_local,
}
use crimson_desert_online_mo.Sync.Player.Send.Received.{shown}
use crimson_desert_online_mo.Sync.Player.Send.Delivered.{apply_state_update-player_value}
use crimson_desert_online_mo.Sync.Player.Idle.{tick_idle}
use crimson_desert_online_mo.Sync.Player.Throttle.{
  SendCall, Spaced, is_empty, send_times, send_times-Spaced, send_local_state_iff,
}

abbrev json : JsonLib
json = sample nothing

abbrev joined : PlayerSync
joined = record new_sync { local_id = "a" }

apply_state_update-player_value_example :
    apply_state_update json 1000 (json.array (player_value json "b" hero ∷ [])) joined
    ≡ some (
        if str_eq "b" joined.local_id then joined else record joined {
          remotes = put "b" (shown 1000 "b" hero (remote_at "b" joined.remotes)) joined.remotes;
        })
apply_state_update-player_value_example =
    apply_state_update-player_value json (sample-IsJson nothing) "b" hero hero-LocalFits 1000 joined

abbrev with_bo : PlayerSync
with_bo = add_remote_player "b" "Bo" new_sync

bo-Reachable : Reachable json open_system no_offsets with_bo
bo-Reachable = stepped started (added "b" "Bo")

tick_idle_example :
    ((tick json open_system no_offsets true 1000 with_bo zeros).memory ≡ zeros)
    × (get_remote_entity_base "b" with_bo ≡ 0)
tick_idle_example = tick_idle json open_system no_offsets bo-Reachable true 1000 zeros "b"

-- The player's address is 0x0101010101010101 wherever it is read.
abbrev known : GameOffsets
known = record no_offsets {
  player_base_ptr = 0x2000;
  off_position_x = 0x10;
  off_health = 0x20;
  off_anim_id = 0x30;
  traversal_flags_offset = 0x40;
}

abbrev calls : List SendCall
calls =
    record { now = 100; memory = zeros; connected = true }
    ∷ record { now = 120; memory = λ a. 1; connected = true }
    ∷ record { now = 200; memory = λ a. 1; connected = true }
    ∷ []

send_times-Spaced_example :
    Spaced json open_system known 0 (send_times json open_system known calls joined)
send_times-Spaced_example = send_times-Spaced json open_system known calls joined

send_local_state_iff_example :
    (is_empty json open_system known
        (send_local_state json open_system (λ a. 1) known true 200 joined).1
      ≡ false)
    ↔ ((true ≡ true)
        × (joined.suspended ≡ false)
        × (joined.last_send_ms + 50 ≤ 200)
        × (get_local_player_base open_system (λ a. 1) known ≢ 0)
        × (player_layout_resolved known ≡ true)
        × (worth_sending
              (read_local open_system
                (λ a. 1)
                known
                (get_local_player_base open_system (λ a. 1) known))
              (record joined { last_send_ms = 200 })
            ≡ true))
send_local_state_iff_example = send_local_state_iff json open_system known (λ a. 1) true 200 joined

read_local_gameplay-bounds_example :
    let gp = read_local_gameplay open_system (λ a. 1) known 0x1000 in
    (gp.traversal.mode ≤ tm_land)
    × (length gp.active_vfx ≤ 8)
    × All (λ (id : ℕ). id ≢ 0) gp.active_vfx
    × (length gp.buff_ids ≤ 8)
    × All (λ (id : ℕ). id ≢ 0) gp.buff_ids
read_local_gameplay-bounds_example = read_local_gameplay-bounds open_system (λ a. 1) known 0x1000

-- Half-way from 1 to 2, 25 of 100 milliseconds, and a hundredth of a second.
lerp_half : lerp 0x3F800000 0x40000000 0x3F000000 ≡ 0x3FC00000
unfolding lerp float_add float_mul float_sub
lerp_half = refl

converge_quarter : converge 1025 1000 100 ≡ 0x3E800000
unfolding converge float_ratio
converge_quarter = refl

seconds_since_hundredth : seconds_since 1010 1000 ≡ 0x3C23D70A
unfolding seconds_since float_ratio
seconds_since_hundredth = refl
