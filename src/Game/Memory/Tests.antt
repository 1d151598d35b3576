-- ===== src/Game/Memory/Tests.antt =====
-- A system with one readable region.
use crimson_desert_online_mo.Common.{ℕ, ◌≡◌, refl, true}
use crimson_desert_online_mo.Game.Memory.{is_readable, in_region, region_readable}
use crimson_desert_online_mo.Game.Memory.Sample.{open_system}

abbrev inside : ℕ
inside = 0x2000

readable : is_readable open_system 0x2000 4 ≡ true
unfolding is_readable in_region region_readable
readable = refl
