-- ===== src/Game/Walk/Tests.antt =====
-- An entity with a position, a health and an animation.
use crimson_desert_online_mo.Common.{◌==◌, if◌then◌else◌}
use crimson_desert_online_mo.Game.Memory.{Memory}
use crimson_desert_online_mo.Game.Walk.Layout.{Layout}

-- At 0x10 the position (1, 0, 0), at 0x40 a health of 100 of 100, at 0x50 the animation 5 at time 0.
abbrev player_memory : Memory
player_memory = λ a.
    if a == 0x2012
    then 0x80
    else if a == 0x2013
    then 0x3F
    else if a == 0x2042
    then 0xC8
    else if a == 0x2043
    then 0x42
    else if a == 0x2046
    then 0xC8
    else if a == 0x2047
    then 0x42
    else if a == 0x2050
    then 5
    else 0
