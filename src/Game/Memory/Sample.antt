-- ===== src/Game/Memory/Sample.antt =====
-- A system with one region, for the tests.
use crimson_desert_online_mo.Common.{false, some}
use crimson_desert_online_mo.Game.Memory.{Memory, System, Region}

abbrev pub page : Region
page = record { base_address = 0x1000; region_size = 0x10000; state = 0x1000; protect = 4 }

-- Every address lies in the page, and no access faults.
abbrev pub open_system : System
open_system = record {
  query = λ a. some page;
  read_faults = λ a n. false;
  write_faults = λ a n. false;
}

abbrev pub zeros : Memory
zeros = λ a. 0
