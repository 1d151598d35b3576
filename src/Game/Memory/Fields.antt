-- ===== src/Game/Memory/Fields.antt =====
-- What a write of a field does to a later read.
use crimson_desert_online_mo.Common.{ℕ, ◌+◌, ◌^◌, ◌≤◌, ◌<◌, ◌≡◌, ◌≢◌, ◌⊎◌, true, arith}
use crimson_desert_online_mo.Game.Memory.{
  Memory, System, add_ptr, safe_read, safe_write, read_u32, write_u32,
}
use crimson_desert_online_mo.Game.Memory.Laws.{
  Accessible, safe_read-safe_write_self, safe_read-safe_write_other, safe_write_frame,
}

-- An address outside the `n` bytes from `start`.
abbrev pub Outside : ℕ → ℕ → ℕ → Type 0
Outside a start n = (a < start) ⊎ (start + n ≤ a)

-- Ranges of `m` and of `n` bytes that share none.
abbrev pub Apart : ℕ → ℕ → ℕ → ℕ → Type 0
Apart a m b n = (a + m ≤ b) ⊎ (b + n ≤ a)

module _ (sys : System) (mem : Memory) (base offset v : ℕ) where
  pub write_u32_frame :
      (a : ℕ)
      → base + offset < 2 ^ 64
      → Outside a (base + offset) 4
      → write_u32 sys mem base offset v a ≡ mem a
  unfolding write_u32
  write_u32_frame a no_wrap out =
      ground (arith, safe_write_frame sys mem (add_ptr base offset) 4 v a)

  pub safe_read-write_u32_other :
      (a n : ℕ)
      → base + offset < 2 ^ 64
      → Apart a n (base + offset) 4
      → safe_read sys (write_u32 sys mem base offset v) a n ≡ safe_read sys mem a n
  unfolding write_u32
  safe_read-write_u32_other a n no_wrap apart =
      ground (arith, safe_read-safe_write_other sys mem (add_ptr base offset) 4 v a n)

  pub safe_read-write_u32_self :
      (a : ℕ)
      → a ≡ base + offset
      → base ≢ 0
      → a < 2 ^ 64
      → Accessible sys a 4
      → v < 2 ^ 32
      → safe_read sys (write_u32 sys mem base offset v) a 4 ≡ v
  unfolding write_u32
  safe_read-write_u32_self a same some_where no_wrap acc small =
      let whole : add_ptr base offset ≡ a = omega arith in
      rw whole (ground (arith, safe_read-safe_write_self sys mem a 4 v acc))

pub read_u32-at :
    (sys : System) (mem : Memory) (base offset : ℕ)
    → base ≢ 0
    → base + offset < 2 ^ 64
    → read_u32 sys mem base offset ≡ safe_read sys mem (base + offset) 4
unfolding read_u32
read_u32-at sys mem base offset some_where no_wrap =
    let whole : add_ptr base offset ≡ base + offset = omega arith in rw whole (ground arith)

-- Where every write faults, a field keeps its value.
pub write_u32-faults :
    (sys : System) (mem : Memory) (base offset v : ℕ)
    → ((addr n : ℕ) → sys.write_faults addr n ≡ true)
    → write_u32 sys mem base offset v ≡ mem
unfolding write_u32 safe_write
write_u32-faults sys mem base offset v faults = ground (arith, faults (add_ptr base offset) 4)
