-- ===== src/Sync/Cutscene/Flag.antt =====
-- The flag that is polled where the hook is missing.
use crimson_desert_online_mo.Common.{
  ℕ, zero, suc, ◌+◌, ◌≤◌, ◌<◌, ◌≡◌, sym, ap, ◌≢◌, ◌⊎◌, ◌↔◌, refl, inl, inr, Bool, true, false, not,
  Option, none, some, ◌==◌, arith, Bool-cases,
}
use crimson_desert_online_mo.Game.Memory.{Memory, System, add_ptr, is_readable, safe_read}
use crimson_desert_online_mo.Game.Offsets.{GameOffsets}
use crimson_desert_online_mo.Game.Resolve.{get_local_player_base}
use crimson_desert_online_mo.Sync.Cutscene.{
  State, CutsceneSync, plausible_flag, scan_flag, set_flag, scan_for_cinematic_flag,
  on_cutscene_start, on_cutscene_end, transition, poll_flag, poll,
}

-- A search that fails at its first place and at those behind it fails at all.
all_miss :
    (test : ℕ → Bool) (m off : ℕ)
    → test off ≡ false
    → ((j : ℕ) → j < m → test (off + 1 + j) ≡ false)
    → (j : ℕ) → j < suc m
    → test (off + j) ≡ false
all_miss test m off miss rest zero h = let e : off + 0 ≡ off = omega arith in rw e miss
all_miss test m off miss rest (suc j) h =
    let e : off + suc j ≡ off + 1 + j = omega arith in rw e (rest j (omega arith))

module _ (sys : System) (mem : Memory) where
  -- What a scan of `n` addresses from an offset may answer.
  abbrev Scanned : ℕ → ℕ → ℕ → Option ℕ → Type 0
  Scanned base n off none =
      (j : ℕ) → j < n → plausible_flag sys mem (add_ptr base (off + j)) ≡ false
  Scanned base n off (some addr) =
      (k : ℕ) × (k < n)
      × (addr ≡ add_ptr base (off + k))
      × (plausible_flag sys mem addr ≡ true)
      × ((j : ℕ) → j < k → plausible_flag sys mem (add_ptr base (off + j)) ≡ false)

  later :
      (base n off : ℕ) (o : Option ℕ)
      → plausible_flag sys mem (add_ptr base off) ≡ false
      → Scanned base n (off + 1) o
      → Scanned base (suc n) off o
  later base n off none miss s =
      all_miss (λ o. plausible_flag sys mem (add_ptr base o)) n off miss s
  later base n off (some addr) miss (k, low, at', hit, before) =
      let e : off + suc k ≡ off + 1 + k = omega arith in
      let before' = all_miss (λ o. plausible_flag sys mem (add_ptr base o)) k off miss before in
      (suc k, omega arith, rw e at', hit, before')

  scan_flag-Scanned : (base n off : ℕ) → Scanned base n off (scan_flag sys mem base n off)
  unfolding scan_flag
  scan_flag-Scanned base zero off = λ j h. absurd (omega arith)
  scan_flag-Scanned base (suc n) off =
      elim (Bool-cases (plausible_flag sys mem (add_ptr base off))) [
        | inl hit ↦
            let here : off + 0 ≡ off = omega arith in
            rw hit (0, omega arith, ap (add_ptr base) (sym here), hit, λ j h. absurd (omega arith))
        | inr miss ↦ rw miss (later base n off _ miss (scan_flag-Scanned base n (off + 1)))
      ]

  -- A byte that can be read and reads 0 or 1.
  abbrev pub IsFlag : ℕ → Type 0
  IsFlag addr =
      (is_readable sys addr 1 ≡ true)
      × ((safe_read sys mem addr 1 ≡ 0) ⊎ (safe_read sys mem addr 1 ≡ 1))

  plausible_flag-IsFlag : (addr : ℕ) → (plausible_flag sys mem addr ≡ true) ↔ IsFlag addr
  unfolding plausible_flag
  plausible_flag-IsFlag addr = ground arith

  missed :
      (n base : ℕ)
      → ((j : ℕ) → j < n → plausible_flag sys mem (add_ptr base (0x200 + j)) ≡ false)
      → (j : ℕ) → j < n
      → ¬ IsFlag (add_ptr base (0x200 + j))
  missed n base none_there j low flag =
      ground (arith, none_there j low, (plausible_flag-IsFlag (add_ptr base (0x200 + j))).1 flag)

  -- What the scan may do: without a player nothing; else the first flag of the window is kept in
  -- both places, or there is no flag in the window.
  abbrev pub Kept : ℕ → GameOffsets → CutsceneSync → (GameOffsets × CutsceneSync) × Bool → Type 0
  Kept base g c r =
      ((base ≡ 0) × (r ≡ ((g, c), false)))
      ⊎ ((base ≢ 0)
          × ((k : ℕ) × (k < 0x600)
              × IsFlag (add_ptr base (0x200 + k))
              × ((j : ℕ) → j < k → ¬ IsFlag (add_ptr base (0x200 + j)))
              × (r ≡ (
                (
                  record g { cinematic_flag_ptr = add_ptr base (0x200 + k) },
                  record c { cinematic_flag_addr = add_ptr base (0x200 + k) },
                ),
                true,
              ))))
      ⊎ ((base ≢ 0)
          × ((j : ℕ) → j < 0x600 → ¬ IsFlag (add_ptr base (0x200 + j)))
          × (r ≡ ((g, c), false)))

  set_flag-Kept :
      (base : ℕ) (g : GameOffsets) (c : CutsceneSync) (o : Option ℕ)
      → base ≢ 0
      → Scanned base 0x600 0x200 o
      → Kept base g c (set_flag sys mem o (g, c))
  unfolding set_flag
  set_flag-Kept base g c none there s = inr (inr (there, missed 0x600 base s, refl))
  set_flag-Kept base g c (some addr) there (k, low, at', hit, before) = inr (
      inl (
        there,
        (
          k,
          low,
          (plausible_flag-IsFlag (add_ptr base (0x200 + k))).0 (rw at' at hit),
          missed k base before,
          rw at' refl,
        ),
      ))

  -- With a player in the game, `ScanForCinematicFlag` keeps, in the offsets and in the sync, the
  -- first address from 0x200 to before 0x800 behind the player that `IsReadable` accepts and that
  -- `SafeRead` reads as 0 or 1, and answers true; where there is no such address, and without a
  -- player, it changes nothing and answers false.
  pub scan_for_cinematic_flag-Kept :
      (g : GameOffsets) (c : CutsceneSync)
      → Kept (get_local_player_base sys mem g) g c (scan_for_cinematic_flag sys mem (g, c))
  unfolding scan_for_cinematic_flag
  scan_for_cinematic_flag-Kept g c =
      let base = get_local_player_base sys mem g in
      elim (Bool-cases (base == 0)) [
        | inl e ↦ rw e (inl (ground (arith, e), refl))
        | inr e ↦
            let there : base ≢ 0 = ground (arith, e) in
            rw e (
              set_flag-Kept base g c (scan_flag sys mem base 0x600 0x200) there
                (scan_flag-Scanned base 0x600 0x200))
      ]

  -- Where the fallback is in use, 100 ms have passed since the last poll, the flag can be read, and
  -- `active_` is the flag that was polled last, a poll makes both `active_` and the flag that was
  -- polled last the flag that is read now.
  pub poll_follows :
      (now : ℕ) (s : State)
      → s.sync.active ≡ s.sync.last_polled_flag
      → s.sync.poll_fallback ≡ true
      → s.sync.last_poll_ms + 100 ≤ now
      → s.sync.cinematic_flag_addr ≢ 0
      → is_readable sys s.sync.cinematic_flag_addr 1 ≡ true
      → let flag = not (safe_read sys mem s.sync.cinematic_flag_addr 1 == 0) in
        ((poll sys mem now s).sync.active ≡ flag)
        × ((poll sys mem now s).sync.last_polled_flag ≡ flag)
  unfolding poll poll_flag transition on_cutscene_start on_cutscene_end
  poll_follows now s same fallback due there readable = ground arith
