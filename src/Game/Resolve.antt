-- ===== src/Game/Resolve.antt =====
-- client/src/game/scanner.cpp: `ResolveOffsets` and what it calls; `GetLocalPlayerBase` of
-- memory.cpp. `none` is an exception. `hash` is what `GameBinaryHash` answers, in `ResolveOffsets` as in
-- `SaveOffsetCache`.
pub mod Laws
mod Tests
use crimson_desert_online_mo.Common.{
  ℕ, zero, suc, ◌+◌, ◌-◌, ◌%◌, ◌^◌, Bool, true, false, not, ◌&&◌, Option, none, some, List, [], ◌∷◌,
  String, codes, ◌==◌, ltb, str_eq, if◌then◌else◌, ◌>>=◌,
}
use crimson_desert_online_mo.Net.Json.{JsonLib}
use crimson_desert_online_mo.Game.Memory.{Memory, System, add_ptr, safe_read}
use crimson_desert_online_mo.Game.Offsets.{GameOffsets, player_layout_resolved}
use crimson_desert_online_mo.Game.Pattern.{
  ModuleRange, CompiledPattern, compile_pattern, scan_pattern,
}
use crimson_desert_online_mo.Game.Cache.{
  Loaded, answered, thrown, load_from_cache, save_offset_cache,
}
use crimson_desert_online_mo.Game.Walk.{walk_entity_layout}

abbrev player_base_sig : String
player_base_sig = "48 8B 05 ?? ?? ?? ?? 48 85 C0 74 ?? 48 8B"

abbrev inventory_sig : String
inventory_sig = "48 8D 8F ?? ?? ?? ?? E8 ?? ?? ?? ?? 8B 87"

abbrev item_use_sig : String
item_use_sig = "40 53 48 83 EC ?? 48 8B D9 8B 49"

abbrev attack_sig : String
attack_sig = "48 89 5C 24 ?? 57 48 83 EC ?? 8B FA 48 8B D9 83"

abbrev skill_sig : String
skill_sig = "48 89 5C 24 ?? 48 89 6C 24 ?? 57 48 83 EC ?? 8B EA 48 8B D9"

abbrev cutscene_sig : String
cutscene_sig = "48 89 5C 24 ?? 48 89 6C 24 ?? 57 48 83 EC ?? 0F B6 EA"

abbrev puzzle_sig : String
puzzle_sig = "40 55 53 56 57 48 8D 6C 24 ?? 48 81 EC ?? ?? ?? ?? 8B F2"

-- An `int32_t` pattern as a 64-bit summand.
abbrev pub sign_extend : ℕ → ℕ
sign_extend d = if ltb d (2 ^ 31) then d else d + 2 ^ 64 - 2 ^ 32

pub resolve_inventory_fields : GameOffsets → GameOffsets
resolve_inventory_fields g = record g {
  item_stride = 0x40;
  off_item_id = 0x00;
  off_item_quantity = 0x08;
  off_item_durability = 0x0C;
  off_item_flags = 0x10;
  off_item_name_hash = 0x14;
}

-- The result, the offsets, and the cache that is written.
pub record Resolved : Type 0 where
  pub ok : Bool
  pub offsets : GameOffsets
  pub written : Option (List ℕ)

module _ (sys : System) (mem : Memory) where
  pub resolve_rip_relative : ℕ → ℕ → ℕ → ℕ
  resolve_rip_relative addr disp_offset insn_len =
      if addr == 0
      then 0
      else (addr + insn_len + sign_extend (safe_read sys mem (add_ptr addr disp_offset) 4)) % 2 ^ 64

  pub get_local_player_base : GameOffsets → ℕ
  get_local_player_base g =
      if g.player_base_ptr == 0 then 0 else safe_read sys mem g.player_base_ptr 8

  module _ (range : ModuleRange) where
    pub scan_text : String → Option ℕ
    scan_text ida = do pat ← compile_pattern (codes ida); some (scan_pattern mem range pat)

    resolve_player : ℕ → GameOffsets → GameOffsets
    resolve_player sig g =
        if sig == 0 then g else record g { player_base_ptr = resolve_rip_relative sig 3 7 }

    resolve_inventory : ℕ → GameOffsets → GameOffsets
    resolve_inventory sig g =
        if sig == 0
        then g
        else let array = resolve_rip_relative sig 3 7 in
          record g { inventory_array_ptr = array; item_count_ptr = add_ptr array 0x08 }

    -- Steps 1 to 3b.
    scan_signatures : GameOffsets → Option GameOffsets
    unfolding resolve_player resolve_inventory
    scan_signatures g = do
      player ← scan_text player_base_sig
      inventory ← scan_text inventory_sig
      item_use ← scan_text item_use_sig
      attack ← scan_text attack_sig
      skill ← scan_text skill_sig
      cutscene ← scan_text cutscene_sig
      puzzle ← scan_text puzzle_sig
      let g' = resolve_inventory inventory (resolve_player player g)
      some (record g' {
        item_use_fn = item_use;
        attack_trigger_fn = attack;
        skill_trigger_fn = skill;
        cutscene_fn = cutscene;
        puzzle_input_fn = puzzle;
        puzzle_trigger_fn = puzzle;
      })

    -- Step 4.
    walk : GameOffsets → GameOffsets
    walk g =
        let entity = get_local_player_base g in
        if entity == 0 then g else (walk_entity_layout sys mem entity g).0

    module _ (L : JsonLib) (hash : String) where
      finish_scan : GameOffsets → Resolved
      finish_scan g = record {
        ok = player_layout_resolved g;
        offsets = g;
        written =
            if not (str_eq hash "") && player_layout_resolved g
            then some (save_offset_cache L hash range g)
            else none;
      }

      scan_engine : GameOffsets → Option Resolved
      unfolding scan_signatures walk finish_scan
      scan_engine g = do
        g' ← scan_signatures g
        some (finish_scan (resolve_inventory_fields (walk g')))

      -- What the cache has answered.
      after_cache : Loaded L → Option Resolved
      unfolding scan_engine
      after_cache thrown = none
      after_cache (answered false g) = scan_engine g
      after_cache (answered true g) = some (record {
        ok = true;
        offsets = if g.item_stride == 0 then resolve_inventory_fields g else g;
        written = none;
      })

      pub resolve_offsets : Option (List ℕ) → GameOffsets → Option Resolved
      unfolding after_cache
      resolve_offsets file g =
          if str_eq hash ""
          then scan_engine g
          else after_cache (load_from_cache L file hash range g)
