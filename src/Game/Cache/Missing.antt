-- ===== src/Game/Cache/Missing.antt =====
-- What the cache does not hold.
use crimson_desert_online_mo.Common.{
  ℕ, ◌%◌, ◌≡◌, refl, subst, ◌∙◌, Bool, not, ◌&&◌, Option, none, some, List, [], ◌∷◌, String, ◌==◌,
  All, arith, str_eq, Bool-cases, inl, inr,
}
use crimson_desert_online_mo.Net.Json.{JsonLib}
use crimson_desert_online_mo.Game.Offsets.{GameOffsets}
use crimson_desert_online_mo.Game.Pattern.{ModuleRange}
use crimson_desert_online_mo.Game.Cache.{
  CacheField, cache_fields, Loaded, answered, thrown, read_value, read_field, read_fields,
  read_base, read_offsets, read_json, read_file, rebase, check_hash, load_from_cache,
}

-- The targets that the cache has no member for.
abbrev pub SameHooks : GameOffsets → GameOffsets → Type 0
SameHooks g r =
    (r.cutscene_fn ≡ g.cutscene_fn)
    × (r.puzzle_input_fn ≡ g.puzzle_input_fn)
    × (r.puzzle_trigger_fn ≡ g.puzzle_trigger_fn)
    × (r.cinematic_flag_ptr ≡ g.cinematic_flag_ptr)
    × (r.entity_list_ptr ≡ g.entity_list_ptr)

module _ (L : JsonLib) where
  abbrev KeepsHooks : GameOffsets → Option GameOffsets → Type 0
  KeepsHooks g none = Unit {0}
  KeepsHooks g (some r) = SameHooks g r

  abbrev Neutral : CacheField → Type 0
  Neutral f = (v : ℕ) (g : GameOffsets) → SameHooks g (f.put v g)

  cache_fields-Neutral : All Neutral cache_fields
  cache_fields-Neutral = ground arith

  read_fields-keeps :
      (o : L.Value) (fs : List CacheField) (g : GameOffsets) (r : Option GameOffsets)
      → All Neutral fs
      → KeepsHooks g r
      → KeepsHooks g (read_fields L o fs r)
  unfolding read_fields read_field
  read_fields-keeps o fs g none h k = tt
  read_fields-keeps o [] g (some r) h k = k
  read_fields-keeps o (f ∷ fs) g (some r) h k =
      read_fields-keeps o fs g (read_field L o f r) h.1 (elim (Bool-cases (L.contains o f.name)) [
        | inl e ↦ rw (e, read_field) (read_value-keeps (L.get_number (L.at o f.name)))
        | inr e ↦ rw (e, read_field) k
      ])
    where
      read_value-keeps : (v : Option ℕ) → KeepsHooks g (read_value L f v r)
      read_value-keeps none = tt
      read_value-keeps (some v) =
          let n = h.0 (v % f.modulus) r in (n.0 ∙ k.0, n.1 ∙ k.1, n.2 ∙ k.2, n.3 ∙ k.3, n.4 ∙ k.4)

  abbrev KeepsLoaded : GameOffsets → Loaded L → Type 0
  KeepsLoaded g (answered b r) = SameHooks g r
  KeepsLoaded g thrown = Unit {0}

  rebase-keeps :
      (v : Option ℕ) (range : ModuleRange) (g r : GameOffsets)
      → SameHooks g r
      → KeepsLoaded g (rebase L v range r)
  rebase-keeps none range g r k = tt
  rebase-keeps (some v) range g r k = k

  read_base-keeps :
      (j : L.Value) (range : ModuleRange) (g : GameOffsets) (r : Option GameOffsets)
      → KeepsHooks g r
      → KeepsLoaded g (read_base L j range r)
  unfolding read_base
  read_base-keeps j range g none k = tt
  read_base-keeps j range g (some r) k =
      elim (Bool-cases (L.contains j "playerBaseRva" && not (range.base == 0))) [
        | inl e ↦ rw e (rebase-keeps (L.get_number (L.at j "playerBaseRva")) range g r k)
        | inr e ↦ rw e k
      ]

  read_offsets-keeps :
      (j : L.Value) (range : ModuleRange) (g : GameOffsets)
      → KeepsLoaded g (read_offsets L j range g)
  unfolding read_offsets
  read_offsets-keeps j range g =
      read_base-keeps j range g _ (elim (Bool-cases (L.contains j "offsets")) [
        | inl e ↦
            rw e (
              read_fields-keeps (L.at j "offsets") cache_fields g (some g) cache_fields-Neutral
                same)
        | inr e ↦ rw e same
      ])
    where
      same : SameHooks g g
      same = (refl, refl, refl, refl, refl)

  check_hash-keeps :
      (t : Option String) (hash : String) (j : L.Value) (range : ModuleRange) (g : GameOffsets)
      → KeepsLoaded g (check_hash L t hash j range g)
  check_hash-keeps none hash j range g = tt
  check_hash-keeps (some h) hash j range g = elim (Bool-cases (str_eq h hash)) [
    | inl e ↦ rw e (read_offsets-keeps j range g)
    | inr e ↦ rw e (refl, refl, refl, refl, refl)
  ]

  read_json-keeps :
      (o : Option L.Value) (hash : String) (range : ModuleRange) (g : GameOffsets)
      → KeepsLoaded g (read_json L o hash range g)
  unfolding read_json
  read_json-keeps none hash range g = (refl, refl, refl, refl, refl)
  read_json-keeps (some j) hash range g = elim (Bool-cases (L.contains j "hash")) [
    | inl e ↦ rw e (check_hash-keeps (L.get_text (L.at j "hash")) hash j range g)
    | inr e ↦ rw e (refl, refl, refl, refl, refl)
  ]

  -- Whatever the file holds, and whether it is accepted or not, reading the cache leaves the
  -- addresses of the cutscene and puzzle functions and the cinematic flag as they were before it, so
  -- that after a start from the cache they are still 0.
  pub load_from_cache-keeps :
      (file : Option (List ℕ)) (hash : String) (range : ModuleRange) (g : GameOffsets) {b : Bool}
      {r : GameOffsets}
      → load_from_cache L file hash range g ≡ answered b r
      → SameHooks g r
  unfolding load_from_cache
  load_from_cache-keeps file hash range g e =
      subst (KeepsLoaded g) e (read_json-keeps (read_file L file) hash range g)
