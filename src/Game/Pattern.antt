-- ===== src/Game/Pattern.antt =====
-- client/src/game/scanner.cpp: `CompilePattern` and `ScanPattern`. Texts are lists of characters.
pub mod Scan
pub mod Text
mod Tests
use crimson_desert_online_mo.Common.{
  ℕ, zero, suc, ◌+◌, ◌-◌, ◌*◌, ◌%◌, ◌^◌, Bool, true, false, not, ◌&&◌, ◌||◌, Option, none, some,
  List, [], ◌∷◌, ◌++◌, ◌==◌, ltb, leb, if◌then◌else◌, length,
}
use crimson_desert_online_mo.Game.Memory.{Memory}

pub record CompiledPattern : Type 0 where
  pub bytes : List ℕ
  pub mask : List Bool

-- `std::isspace` in the "C" locale.
abbrev pub is_space : ℕ → Bool
is_space c = (c == b' ') || (leb 9 c && leb c 13)

-- `iss >> tok` until it fails: the words of the text. `word` is what is read of the current one.
abbrev end_word : List ℕ → List (List ℕ) → List (List ℕ)
end_word [] ws = ws
end_word (c ∷ cs) ws = (c ∷ cs) ∷ ws

pub words_from : List ℕ → List ℕ → List (List ℕ)
words_from word [] = end_word word []
words_from word (c ∷ cs) =
    let space = end_word word (words_from [] cs) in
    let letter = words_from (word ++ c ∷ []) cs in if is_space c then space else letter

pub hex_digit : ℕ → Option ℕ
hex_digit c =
    if leb b'0' c && leb c b'9'
    then some (c - b'0')
    else if leb b'a' c && leb c b'f'
    then some (c - b'a' + 10)
    else if leb b'A' c && leb c b'F'
    then some (c - b'A' + 10)
    else none

-- The leading hexadecimal digits, after `acc`.
pub digits_from : ℕ → List ℕ → ℕ
digits_from acc [] = acc
digits_from acc (c ∷ cs) = elim (hex_digit c) [
  | none ↦ acc
  | some d ↦ digits_from (acc * 16 + d) cs
]

-- `std::stoul(tok, nullptr, 16)` on a word with neither sign nor "0x": it throws where no digit
-- leads, and where the value does not fit an `unsigned long`, which has 32 bits on Windows.
pub stoul : List ℕ → Option ℕ
stoul [] = none
stoul (c ∷ cs) = elim (hex_digit c) [
  | none ↦ none
  | some d ↦ let v = digits_from d cs in if ltb v (2 ^ 32) then some v else none
]

abbrev pub is_wildcard : List ℕ → Bool
is_wildcard (c ∷ []) = c == b'?'
is_wildcard (c ∷ d ∷ []) = (c == b'?') && (d == b'?')
is_wildcard _ = false

abbrev pub push_token : ℕ → Bool → CompiledPattern → CompiledPattern
push_token byte significant p = record { bytes = byte ∷ p.bytes; mask = significant ∷ p.mask }

abbrev pub push_value : Option ℕ → Option CompiledPattern → Option CompiledPattern
push_value (some v) (some p) = some (push_token (v % 256) true p)
push_value _ _ = none

abbrev pub push_wildcard : Option CompiledPattern → Option CompiledPattern
push_wildcard none = none
push_wildcard (some p) = some (push_token 0 false p)

-- The loop over the tokens; `none` is the exception.
pub compile_words : List (List ℕ) → Option CompiledPattern
compile_words [] = some (record { bytes = []; mask = [] })
compile_words (w ∷ ws) =
    let rest = compile_words ws in
    if is_wildcard w then push_wildcard rest else push_value (stoul w) rest

pub compile_pattern : List ℕ → Option CompiledPattern
compile_pattern ida = compile_words (words_from [] ida)

pub record ModuleRange : Type 0 where
  pub base : ℕ
  pub size : ℕ

-- The inner loop, at the address of `scan[i]`.
pub matches_at : Memory → ℕ → List ℕ → List Bool → Bool
matches_at mem addr [] mask = true
matches_at mem addr (b ∷ bs) [] = true
matches_at mem addr (b ∷ bs) (m ∷ ms) =
    if m && not (mem addr == b) then false else matches_at mem (addr + 1) bs ms

-- The outer loop from index `i` on, with the number of rounds that are left.
pub scan_from : Memory → ModuleRange → CompiledPattern → ℕ → ℕ → ℕ
scan_from mem range pat zero i = 0
scan_from mem range pat (suc rounds) i =
    let rest = scan_from mem range pat rounds (i + 1) in
    if matches_at mem (range.base + i) pat.bytes pat.mask then range.base + i else rest

pub scan_pattern : Memory → ModuleRange → CompiledPattern → ℕ
scan_pattern mem range pat =
    if (range.base == 0) || (length pat.bytes == 0)
    then 0
    else if ltb range.size (length pat.bytes)
    then 0
    else scan_from mem range pat (range.size - length pat.bytes + 1) 0
