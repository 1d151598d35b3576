-- ===== src/Game/Cache/RoundTrip.antt =====
-- What a later start reads of the cache.
use crimson_desert_online_mo.Common.{
  ◌+◌, ◌-◌, ◌%◌, ◌^◌, ◌≤◌, ◌<◌, ◌≡◌, refl, ◌∙◌, ◌≢◌, true, false, not, ◌&&◌, some, List, [], ◌∷◌,
  String, ◌==◌, leb, arith, eq_iff,
}
use crimson_desert_online_mo.Net.Json.{JsonLib, IsJson}
use crimson_desert_online_mo.Game.Offsets.{GameOffsets, player_layout_resolved}
use crimson_desert_online_mo.Game.Pattern.{ModuleRange}
use crimson_desert_online_mo.Game.Cache.{
  cache_fields, saved_members, offset_members, cache_members, save_offset_cache, answered,
  read_base, read_offsets, read_json, load_from_cache,
}
use crimson_desert_online_mo.Game.Cache.Fields.{
  Fits, with_cached, read_fields-Holds, saved_members-Holds, set_fields-with_cached,
}

-- The offsets of an earlier start, with the player's pointer moved along with the module.
abbrev pub restored : GameOffsets → ModuleRange → ModuleRange → GameOffsets → GameOffsets
restored o range range' g = record (with_cached o g) {
  player_base_ptr = (range'.base + (o.player_base_ptr - range.base)) % 2 ^ 64;
}

module _ (L : JsonLib) (laws : IsJson L) where
  abbrev members : String → ModuleRange → GameOffsets → List (String × L.Value)
  members hash range o =
      ("hash", L.text hash)
      ∷ ("offsets", L.object (offset_members L (saved_members o)))
      ∷ ("playerBaseRva", L.number (o.player_base_ptr - range.base))
      ∷ []

  cache_members-loaded :
      (hash : String) (range : ModuleRange) (o : GameOffsets)
      → range.base ≢ 0
      → range.base ≤ o.player_base_ptr
      → cache_members L hash range o ≡ members hash range o
  cache_members-loaded hash range o loaded above =
      let test : (not (range.base == 0) && leb range.base o.player_base_ptr) ≡ true =
        ground arith in
      rw test

  module _ (hash : String) (range range' : ModuleRange) (o g : GameOffsets) where
    abbrev file : List (String × L.Value)
    file = members hash range o

    read_base-file :
        (r : GameOffsets)
        → o.player_base_ptr < 2 ^ 64
        → range'.base ≢ 0
        → read_base L (L.object file) range' (some r) ≡ (
            let r' = record r {
              player_base_ptr = (range'.base + (o.player_base_ptr - range.base)) % 2 ^ 64;
            } in
            answered (player_layout_resolved r') r')
    unfolding read_base
    read_base-file r small loaded' =
        let test : (range'.base == 0) ≡ false = ground arith in
        let rva : L.Value = L.number (o.player_base_ptr - range.base) in
        rw (
          laws.contains-object file "playerBaseRva",
          laws.at-object file "playerBaseRva" rva refl,
          laws.get_number-number (o.player_base_ptr - range.base) (omega arith),
          test,
        )

    read_offsets-file :
        Fits o
        → range'.base ≢ 0
        → read_offsets L (L.object file) range' g
          ≡ answered
              (player_layout_resolved (restored o range range' g))
              (restored o range range' g)
    unfolding read_offsets
    read_offsets-file fits loaded' =
        let offsets : List (String × L.Value) = offset_members L (saved_members o) in
        rw
          (
            laws.contains-object file "offsets",
            laws.at-object file "offsets" (L.object offsets) refl,
            read_fields-Holds L laws offsets cache_fields (saved_members o) g
                (saved_members-Holds L laws o fits),
            set_fields-with_cached L laws o g,
          )
          (read_base-file (with_cached o g) fits.player_base_ptr loaded')

    read_json-file :
        read_json L (some (L.object file)) hash range' g ≡ read_offsets L (L.object file) range' g
    unfolding read_json
    read_json-file = rw (
      laws.contains-object file "hash",
      laws.at-object file "hash" (L.text hash) refl,
      laws.get_text-text hash,
      (eq_iff hash hash).1 refl,
    )

  -- Where the JSON library keeps its documented laws and reads back the text that it dumps, each
  -- cached offset fits its type, and the module is loaded in both starts, the player's pointer
  -- behind its base in the first, a cache written under a hash is read back under it: each cached
  -- offset has its value again, the player's pointer is moved to where the module is loaded now,
  -- and the answer is whether the core layout is there.
  pub load-save :
      (hash : String) (range range' : ModuleRange) (o g : GameOffsets)
      → L.parse (L.dump (L.object (cache_members L hash range o)))
        ≡ some (L.object (cache_members L hash range o))
      → Fits o
      → range.base ≢ 0
      → range.base ≤ o.player_base_ptr
      → range'.base ≢ 0
      → load_from_cache L (some (save_offset_cache L hash range o)) hash range' g
        ≡ answered (player_layout_resolved (restored o range range' g)) (restored o range range' g)
  unfolding load_from_cache save_offset_cache
  load-save hash range range' o g round fits loaded above loaded' =
      rw (round, cache_members-loaded hash range o loaded above)
        (read_json-file hash range range' o g
          ∙ read_offsets-file hash range range' o g fits loaded')
