-- ===== src/Game/Resolve/Tests.antt =====
-- A start from a cache.
use crimson_desert_online_mo.Common.{
  ℕ, ◌≡◌, ◌≢◌, refl, true, Option, some, none, List, String, arith, eq_iff,
}
use crimson_desert_online_mo.Net.Json.{JsonLib}
use crimson_desert_online_mo.Net.Json.Sample.{sample, sample-IsJson}
use crimson_desert_online_mo.Game.Memory.Sample.{open_system, zeros}
use crimson_desert_online_mo.Game.Offsets.{GameOffsets, no_offsets}
use crimson_desert_online_mo.Game.Cache.{answered, load_from_cache, save_offset_cache}
use crimson_desert_online_mo.Game.Cache.Sample.{
  found, found-Fits, old_range, new_range, written_tree,
}
use crimson_desert_online_mo.Game.Cache.RoundTrip.{restored, load-save}
use crimson_desert_online_mo.Game.Resolve.{Resolved, resolve_offsets, after_cache}
use crimson_desert_online_mo.Game.Resolve.Laws.{
  IsHonest, resolve_offsets-IsHonest, resolve_offsets_unhooked,
}

abbrev json : JsonLib
json = sample written_tree

abbrev file : Option (List ℕ)
file = some (save_offset_cache json "ab12" old_range found)

abbrev moved : GameOffsets
moved = restored found old_range new_range no_offsets

abbrev from_cache : Resolved
from_cache = record { ok = true; offsets = moved; written = none }

cached : load_from_cache json file "ab12" new_range no_offsets ≡ answered true moved
cached =
    load-save json (sample-IsJson written_tree) "ab12" old_range new_range found no_offsets refl
      found-Fits (λ e. omega arith) (omega arith) (λ e. omega arith)

resolved : resolve_offsets open_system zeros new_range json "ab12" file no_offsets ≡ some from_cache
unfolding resolve_offsets after_cache
resolved = rw cached refl

abbrev hash : String
hash = "ab12"

known : hash ≢ ""
known = ground (arith, eq_iff hash "")

resolve_offsets-IsHonest_example : IsHonest open_system zeros new_range json "ab12" from_cache
resolve_offsets-IsHonest_example =
    resolve_offsets-IsHonest open_system zeros new_range json "ab12" file no_offsets resolved

resolve_offsets_unhooked_example :
    (true ≡ true) × (moved.cutscene_fn ≡ 0) × (moved.puzzle_input_fn ≡ 0)
resolve_offsets_unhooked_example =
    resolve_offsets_unhooked open_system zeros new_range json "ab12" file known cached resolved
