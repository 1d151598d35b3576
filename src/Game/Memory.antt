-- ===== src/Game/Memory.antt =====
-- client/src/game/memory.h and memory.cpp. Memory is a function from addresses to bytes. A value of
-- four or eight bytes is a number: an `int32_t` or a `float` is its bit pattern. What the system
-- answers is a parameter: the regions of `VirtualQuery`, and whether a guarded copy faults. A copy
-- that faults copies nothing.
pub mod Laws
pub mod Fields
pub mod Sample
mod Tests
use crimson_desert_online_mo.Common.{
  ℕ, zero, suc, ◌+◌, ◌-◌, ◌*◌, ◌/◌, ◌%◌, ◌^◌, bit_and, Bool, true, false, not, ◌&&◌, Option, none,
  some, List, [], ◌∷◌, ◌==◌, ltb, leb, if◌then◌else◌, length, get_or,
}

abbrev pub Memory : Type 0
Memory = ℕ → ℕ

-- The fields of MEMORY_BASIC_INFORMATION that the client reads.
pub record Region : Type 0 where
  pub base_address : ℕ
  pub region_size : ℕ
  pub state : ℕ
  pub protect : ℕ

pub record System : Type 0 where
  pub query : ℕ → Option Region
  pub read_faults : ℕ → ℕ → Bool
  pub write_faults : ℕ → ℕ → Bool

abbrev pub mem_commit : ℕ
mem_commit = 0x1000

-- PAGE_READONLY, PAGE_READWRITE, PAGE_WRITECOPY and their PAGE_EXECUTE_ forms.
abbrev pub page_readable : ℕ
page_readable = 0xEE

abbrev pub page_guard : ℕ
page_guard = 0x100

-- A sum of 64-bit addresses.
abbrev pub add_ptr : ℕ → ℕ → ℕ
add_ptr a b = (a + b) % 2 ^ 64

unfoldable pub region_readable : Region → ℕ → ℕ → Bool
region_readable r addr size =
    (r.state == mem_commit)
    && not (bit_and r.protect page_readable == 0)
    && (bit_and r.protect page_guard == 0)
    && leb (add_ptr addr size) (add_ptr r.base_address r.region_size)

unfoldable pub in_region : Option Region → ℕ → ℕ → Bool
in_region none addr size = false
in_region (some r) addr size = region_readable r addr size

-- Little-endian values.
unfoldable pub load : Memory → ℕ → ℕ → ℕ
load mem addr zero = 0
load mem addr (suc n) = mem addr + 256 * load mem (addr + 1) n

pub store : Memory → ℕ → ℕ → ℕ → Memory
store mem addr zero v = mem
store mem addr (suc n) v = store (λ a. if a == addr then v % 256 else mem a) (addr + 1) n (v / 256)

module _ (sys : System) where
  unfoldable pub is_readable : ℕ → ℕ → Bool
  is_readable addr size = if addr == 0 then false else in_region (sys.query addr) addr size

  -- `SafeRead<T>` of a value of `size` bytes: `T{}` where `SafeReadRaw` fails.
  unfoldable pub safe_read : Memory → ℕ → ℕ → ℕ
  safe_read mem addr size =
      if is_readable addr size && not (sys.read_faults addr size) then load mem addr size else 0

  -- `SafeWrite<T>`: the memory, and whether the write was made.
  pub safe_write : Memory → ℕ → ℕ → ℕ → Memory × Bool
  safe_write mem addr size v =
      if addr == 0
      then (mem, false)
      else if sys.write_faults addr size
      then (mem, false)
      else (store mem addr size v, true)

  -- `ReadInt`, `ReadU32` and `ReadFloat`.
  pub read_u32 : Memory → ℕ → ℕ → ℕ
  read_u32 mem base offset = if base == 0 then 0 else safe_read mem (add_ptr base offset) 4

  unfoldable pub read_u64 : Memory → ℕ → ℕ → ℕ
  read_u64 mem base offset = if base == 0 then 0 else safe_read mem (add_ptr base offset) 8

  -- `WriteInt`, `WriteU32` and `WriteFloat`.
  pub write_u32 : Memory → ℕ → ℕ → ℕ → Memory
  write_u32 mem base offset v =
      if base == 0 then mem else (safe_write mem (add_ptr base offset) 4 v).0

pub record Vec3 : Type 0 where
  pub x : ℕ
  pub y : ℕ
  pub z : ℕ

module _ (sys : System) where
  pub read_vec3 : Memory → ℕ → ℕ → Vec3
  read_vec3 mem base offset = if base == 0 then record { x = 0; y = 0; z = 0 } else record {
    x = safe_read sys mem (add_ptr base offset) 4;
    y = safe_read sys mem (add_ptr base (offset + 4)) 4;
    z = safe_read sys mem (add_ptr base (offset + 8)) 4;
  }

  pub write_vec3 : Memory → ℕ → ℕ → Vec3 → Memory
  write_vec3 mem base offset v =
      if base == 0
      then mem
      else let mem = (safe_write sys mem (add_ptr base offset) 4 v.x).0 in
        let mem = (safe_write sys mem (add_ptr base (offset + 4)) 4 v.y).0 in
        (safe_write sys mem (add_ptr base (offset + 8)) 4 v.z).0
