-- ===== src/Game/Pattern/Tests.antt =====
-- A pattern of three words in a module of sixteen bytes.
use crimson_desert_online_mo.Common.{
  ℕ, ◌+◌, ◌-◌, ◌≡◌, true, false, Option, none, some, List, [], ◌∷◌, map, length, ◌==◌,
  if◌then◌else◌, arith,
}
use crimson_desert_online_mo.Game.Memory.{Memory}
use crimson_desert_online_mo.Game.Pattern.{
  CompiledPattern, ModuleRange, compile_pattern, scan_pattern,
}
use crimson_desert_online_mo.Game.Pattern.Scan.{First, scan_pattern-First}
use crimson_desert_online_mo.Game.Pattern.Text.{
  written, byte_of, significant, compile_pattern-written,
}

abbrev tokens : List (Option ℕ)
tokens = some 0x48 ∷ none ∷ some 0x05 ∷ []

compile_pattern-written_example :
    compile_pattern (written tokens)
    ≡ some (record { bytes = map byte_of tokens; mask = map significant tokens })
compile_pattern-written_example = compile_pattern-written tokens (ground arith)

abbrev image : Memory
image = λ a. if a == 0x105 then 0x48 else if a == 0x107 then 0x05 else 0

abbrev loaded : ModuleRange
loaded = record { base = 0x100; size = 16 }

abbrev pattern' : CompiledPattern
pattern' = record { bytes = 0x48 ∷ 0 ∷ 0x05 ∷ []; mask = true ∷ false ∷ true ∷ [] }

scan_pattern-First_example :
    First image loaded pattern' 0
      (loaded.size + 1 - length pattern'.bytes)
      (scan_pattern image loaded pattern')
scan_pattern-First_example =
    scan_pattern-First image loaded pattern' (λ e. omega arith) (omega arith)
