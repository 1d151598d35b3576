-- ===== src/Game/Cache/Accepted.antt =====
-- A cache is accepted only with a core layout.
use crimson_desert_online_mo.Common.{
  ℕ, ◌≡◌, refl, subst, true, not, ◌&&◌, Option, none, some, List, String, ◌==◌, str_eq, Bool-cases,
  inl, inr,
}
use crimson_desert_online_mo.Net.Json.{JsonLib}
use crimson_desert_online_mo.Game.Offsets.{GameOffsets, player_layout_resolved}
use crimson_desert_online_mo.Game.Pattern.{ModuleRange}
use crimson_desert_online_mo.Game.Cache.{
  Loaded, answered, thrown, read_base, read_offsets, read_json, read_file, rebase, check_hash,
  load_from_cache,
}

module _ (L : JsonLib) where
  abbrev Accepted : Loaded L → Type 0
  Accepted thrown = Unit {0}
  Accepted (answered b r) = b ≡ true → player_layout_resolved r ≡ true

  rebase-Accepted :
      (v : Option ℕ) (range : ModuleRange) (r : GameOffsets) → Accepted (rebase L v range r)
  rebase-Accepted none range r = tt
  rebase-Accepted (some v) range r = λ h. h

  read_base-Accepted :
      (j : L.Value) (range : ModuleRange) (o : Option GameOffsets)
      → Accepted (read_base L j range o)
  unfolding read_base
  read_base-Accepted j range none = tt
  read_base-Accepted j range (some r) =
      elim (Bool-cases (L.contains j "playerBaseRva" && not (range.base == 0))) [
        | inl e ↦ rw e (rebase-Accepted (L.get_number (L.at j "playerBaseRva")) range r)
        | inr e ↦ rw e (λ h. h)
      ]

  check_hash-Accepted :
      (t : Option String) (hash : String) (j : L.Value) (range : ModuleRange) (g : GameOffsets)
      → Accepted (check_hash L t hash j range g)
  unfolding read_offsets
  check_hash-Accepted none hash j range g = tt
  check_hash-Accepted (some h) hash j range g = elim (Bool-cases (str_eq h hash)) [
    | inl e ↦ rw e (read_base-Accepted j range _)
    | inr e ↦ rw e (λ f. cc f)
  ]

  read_json-Accepted :
      (o : Option L.Value) (hash : String) (range : ModuleRange) (g : GameOffsets)
      → Accepted (read_json L o hash range g)
  unfolding read_json
  read_json-Accepted none hash range g = λ f. cc f
  read_json-Accepted (some j) hash range g = elim (Bool-cases (L.contains j "hash")) [
    | inl e ↦ rw e (check_hash-Accepted (L.get_text (L.at j "hash")) hash j range g)
    | inr e ↦ rw e (λ f. cc f)
  ]

  pub load_from_cache-accepted :
      (file : Option (List ℕ)) (hash : String) (range : ModuleRange) (g : GameOffsets)
      {r : GameOffsets}
      → load_from_cache L file hash range g ≡ answered true r
      → player_layout_resolved r ≡ true
  unfolding load_from_cache
  load_from_cache-accepted file hash range g e =
      subst Accepted e (read_json-Accepted (read_file L file) hash range g) refl
