-- ===== src/Game/Resolve/Laws.antt =====
-- What a start resolves.
use crimson_desert_online_mo.Common.{
  ◌⊎◌, inl, inr, ℕ, ◌≡◌, refl, sym, subst, ◌≢◌, inl, inr, Bool, true, false, Option, none, some,
  List, String, ◌==◌, str_eq, if◌then◌else◌, arith, Bool-cases, Option-cases, eq_iff,
}
use crimson_desert_online_mo.Net.Json.{JsonLib}
use crimson_desert_online_mo.Game.Memory.{Memory, System}
use crimson_desert_online_mo.Game.Offsets.{GameOffsets, player_layout_resolved, no_offsets}
use crimson_desert_online_mo.Game.Pattern.{ModuleRange}
use crimson_desert_online_mo.Game.Cache.{Loaded, answered, thrown, load_from_cache}
use crimson_desert_online_mo.Game.Cache.Missing.{load_from_cache-keeps}
use crimson_desert_online_mo.Game.Cache.Accepted.{load_from_cache-accepted}
use crimson_desert_online_mo.Game.Resolve.{
  Resolved, resolve_inventory_fields, scan_signatures, walk, finish_scan, scan_engine, after_cache,
  resolve_offsets,
}

module _ (sys : System) (mem : Memory) (range : ModuleRange) (L : JsonLib) (hash : String) where
  -- The answer tells whether the core layout is there, and only such a layout is written.
  abbrev pub IsHonest : Resolved → Type 0
  IsHonest r =
      (r.ok ≡ player_layout_resolved r.offsets)
      × ((r.written ≡ none) ⊎ ((hash ≢ "") × (player_layout_resolved r.offsets ≡ true)))

  abbrev HonestOption : Option Resolved → Type 0
  HonestOption none = Unit {0}
  HonestOption (some r) = IsHonest r

  finish_scan-IsHonest : (g : GameOffsets) → IsHonest (finish_scan sys mem range L hash g)
  unfolding finish_scan
  finish_scan-IsHonest g = (refl, ground (arith, eq_iff hash ""))

  scan_engine-Honest : (g : GameOffsets) → HonestOption (scan_engine sys mem range L hash g)
  unfolding scan_engine
  scan_engine-Honest g = elim (Option-cases (scan_signatures sys mem range g)) [
    | inl e ↦ rw e tt
    | inr (g', e) ↦ rw e (finish_scan-IsHonest (resolve_inventory_fields (walk sys mem range g')))
  ]

  after_cache-Honest :
      (l : Loaded L)
      → ((r : GameOffsets) → l ≡ answered true r → player_layout_resolved r ≡ true)
      → HonestOption (after_cache sys mem range L hash l)
  unfolding after_cache resolve_inventory_fields
  after_cache-Honest thrown h = tt
  after_cache-Honest (answered false g) h = scan_engine-Honest g
  after_cache-Honest (answered true g) h =
      let resolved = h g refl in
      elim (Bool-cases (g.item_stride == 0)) [
        | inl e ↦ rw e (sym resolved, inl refl)
        | inr e ↦ rw e (sym resolved, inl refl)
      ]

  either-Honest :
      (b : Bool) (x y : Option Resolved)
      → HonestOption x
      → HonestOption y
      → HonestOption (if b then x else y)
  either-Honest true x y hx hy = hx
  either-Honest false x y hx hy = hy

  -- Where no exception ends it, `ResolveOffsets` answers true exactly if the offsets that it leaves
  -- have the core layout; it writes a cache only of such offsets and under a hash.
  pub resolve_offsets-IsHonest :
      (file : Option (List ℕ)) (g : GameOffsets) {r : Resolved}
      → resolve_offsets sys mem range L hash file g ≡ some r
      → IsHonest r
  unfolding resolve_offsets
  resolve_offsets-IsHonest file g e =
      let from_cache =
        after_cache-Honest (load_from_cache L file hash range g)
          (λ r. load_from_cache-accepted L file hash range g) in
      subst HonestOption e (either-Honest (str_eq hash "") _ _ (scan_engine-Honest g) from_cache)

  -- Where the hash of the binary is known, a start with no offsets yet that finds a cache it
  -- accepts succeeds and leaves the cutscene and the puzzle functions unresolved, so that neither
  -- hook can be installed.
  pub resolve_offsets_unhooked :
      (file : Option (List ℕ)) {c : GameOffsets} {r : Resolved}
      → hash ≢ ""
      → load_from_cache L file hash range no_offsets ≡ answered true c
      → resolve_offsets sys mem range L hash file no_offsets ≡ some r
      → (r.ok ≡ true) × (r.offsets.cutscene_fn ≡ 0) × (r.offsets.puzzle_input_fn ≡ 0)
  unfolding resolve_offsets after_cache resolve_inventory_fields
  resolve_offsets_unhooked file known accepted e =
      ground (arith, eq_iff hash "", load_from_cache-keeps L file hash range no_offsets accepted)
