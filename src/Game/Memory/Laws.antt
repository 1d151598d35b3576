-- ===== src/Game/Memory/Laws.antt =====
-- What a write does to a later read.
use native.Mathlib.Nat.{pow-suc}
use crimson_desert_online_mo.Common.{
  ℕ, zero, suc, ◌+◌, ◌/◌, ◌%◌, ◌^◌, ◌≤◌, ◌<◌, ◌≡◌, refl, ◌∙◌, ◌≢◌, ◌⊎◌, ◌↔◌, inl, inr, Option, none,
  some, bit_and, true, false, ◌==◌, if◌then◌else◌, arith, Bool-cases,
}
use crimson_desert_online_mo.Game.Memory.{
  Memory, System, Region, add_ptr, mem_commit, page_readable, page_guard, region_readable,
  in_region, load, store, is_readable, safe_read, safe_write,
}

-- Outside the bytes written nothing changes.
pub store_frame :
    (mem : Memory) (addr n v a : ℕ) → (a < addr) ⊎ (addr + n ≤ a) → store mem addr n v a ≡ mem a
unfolding store
store_frame mem addr zero v a h = refl
store_frame mem addr (suc n) v a h =
    store_frame (λ b. if b == addr then v % 256 else mem b) (addr + 1) n (v / 256) a (ground arith)
    ∙ ground arith

pub load_frame :
    (mem : Memory) (addr n v at' m : ℕ)
    → (at' + m ≤ addr) ⊎ (addr + n ≤ at')
    → load (store mem addr n v) at' m ≡ load mem at' m
unfolding load
load_frame mem addr n v at' zero h = refl
load_frame mem addr n v at' (suc m) h =
    ground (arith, store_frame mem addr n v at', load_frame mem addr n v (at' + 1) m)

pub load-store : (mem : Memory) (addr n v : ℕ) → v < 256 ^ n → load (store mem addr n v) addr n ≡ v
unfolding load store
load-store mem addr zero v h = omega arith
load-store mem addr (suc n) v h =
    let first =
      store_frame (λ b. if b == addr then v % 256 else mem b) (addr + 1) n (v / 256) addr
        (inl (omega arith)) in
    let rest =
      load-store (λ b. if b == addr then v % 256 else mem b) (addr + 1) n (v / 256)
        (omega (arith, pow-suc 256 n)) in
    rw (first, rest) (ground arith)

-- Memory that the guarded accesses reach.
pub record Accessible (sys : System) (addr n : ℕ) : Type 0 where
  pub readable : is_readable sys addr n ≡ true
  pub reads : sys.read_faults addr n ≡ false
  pub writes : sys.write_faults addr n ≡ false

module _ (sys : System) (mem : Memory) (addr n v : ℕ) where
  -- A value that fits its bytes and is written where memory can be read and written is read back.
  pub safe_read-safe_write_self :
      Accessible sys addr n → v < 256 ^ n → safe_read sys (safe_write sys mem addr n v).0 addr n ≡ v
  unfolding safe_read safe_write is_readable
  safe_read-safe_write_self acc h =
      ground (arith, acc.readable, acc.reads, acc.writes, load-store mem addr n v)

  -- A write changes no byte outside its range, whether it succeeds or not.
  pub safe_write_frame :
      (a : ℕ) → (a < addr) ⊎ (addr + n ≤ a) → (safe_write sys mem addr n v).0 a ≡ mem a
  unfolding safe_write
  safe_write_frame a h = ground (arith, store_frame mem addr n v a h)

  -- A write, whether it succeeds or not, does not change a value whose bytes lie apart from those
  -- written.
  pub safe_read-safe_write_other :
      (addr' m : ℕ)
      → (addr' + m ≤ addr) ⊎ (addr + n ≤ addr')
      → safe_read sys (safe_write sys mem addr n v).0 addr' m ≡ safe_read sys mem addr' m
  unfolding safe_read safe_write
  safe_read-safe_write_other addr' m h = ground (arith, load_frame mem addr n v addr' m h)

  -- A write at the null address, and one that faults, report failure and change nothing.
  pub safe_write_fails :
      ((safe_write sys mem addr n v).1 ≡ false) ↔ ((addr ≡ 0) ⊎ (sys.write_faults addr n ≡ true))
  unfolding safe_write
  safe_write_fails = ground arith

abbrev pub Admits : Region → ℕ → ℕ → Type 0
Admits r addr size =
    (r.state ≡ mem_commit)
    × (bit_and r.protect page_readable ≢ 0)
    × (bit_and r.protect page_guard ≡ 0)
    × (add_ptr addr size ≤ add_ptr r.base_address r.region_size)

in_region-Admits :
    (o : Option Region) (addr size : ℕ)
    → in_region o addr size ≡ true
    → (r : Region) × (o ≡ some r) × Admits r addr size
unfolding in_region region_readable
in_region-Admits none addr size h = cc
in_region-Admits (some r) addr size h =
    (r, refl, (ground arith, ground arith, ground arith, ground arith))

-- A range that passes for readable is not null, and the region that the system reports for it is
-- committed, has a readable protection, is no guard page and does not end before the range.
pub is_readable-Admits :
    (sys : System) (addr size : ℕ)
    → is_readable sys addr size ≡ true
    → (addr ≢ 0) × ((r : Region) × (sys.query addr ≡ some r) × Admits r addr size)
unfolding is_readable
is_readable-Admits sys addr size h = elim (Bool-cases (addr == 0)) [
  | inl null ↦ ground arith
  | inr some_where ↦
      (ground arith, in_region-Admits (sys.query addr) addr size (rw some_where at h))
]
