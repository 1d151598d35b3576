-- ===== src/Game/Cache/Tests.antt =====
-- A cache with a few offsets, written and read back at another module base.
use crimson_desert_online_mo.Common.{◌≡◌, refl, some, arith}
use crimson_desert_online_mo.Net.Json.Sample.{sample, sample-IsJson}
use crimson_desert_online_mo.Game.Offsets.{no_offsets, player_layout_resolved}
use crimson_desert_online_mo.Game.Cache.Sample.{
  found, found-Fits, old_range, new_range, written_tree,
}
use crimson_desert_online_mo.Game.Cache.{answered, load_from_cache, save_offset_cache}
use crimson_desert_online_mo.Game.Cache.RoundTrip.{restored, load-save}

load-save_example :
    load_from_cache
      (sample written_tree)
      (some (save_offset_cache (sample written_tree) "ab12" old_range found))
      "ab12"
      new_range
      no_offsets
    ≡ answered
        (player_layout_resolved (restored found old_range new_range no_offsets))
        (restored found old_range new_range no_offsets)
load-save_example =
    load-save (sample written_tree) (sample-IsJson written_tree) "ab12" old_range new_range found
      no_offsets refl found-Fits (λ e. omega arith) (omega arith) (λ e. omega arith)
