-- ===== src/Game/Pattern/Text.antt =====
-- Patterns written out and compiled.
use crimson_desert_online_mo.Common.{
  ℕ, ◌+◌, ◌-◌, ◌/◌, ◌%◌, ◌<◌, ◌≡◌, refl, ap, ◌∙◌, Bool, true, false, Option, none, some, List, [],
  ◌∷◌, ◌++◌, map, ◌==◌, ltb, if◌then◌else◌, length, All, arith, Option-cases, inl, inr,
}
use crimson_desert_online_mo.Net.Frame.{IsByte}
use crimson_desert_online_mo.Game.Pattern.{
  CompiledPattern, words_from, hex_digit, digits_from, stoul, compile_words, compile_pattern,
  is_space,
}

-- The two vectors of a compiled pattern have one length, so that `pat.mask[j]` is in range.
pub compile_words_even :
    (ws : List (List ℕ)) {p : CompiledPattern}
    → compile_words ws ≡ some p
    → (length p.bytes ≡ length p.mask) × (length p.bytes ≡ length ws)
unfolding compile_words
compile_words_even [] e = ground arith
compile_words_even (w ∷ ws) e = elim (Option-cases (compile_words ws)) [
  | inl e' ↦ ground (arith, e')
  | inr (q, e') ↦ ground (arith, e', compile_words_even ws e')
]

-- A pattern as the source writes it, with one blank between two words: `none` is a wildcard.
abbrev nibble : ℕ → ℕ
nibble d = if ltb d 10 then b'0' + d else b'A' + (d - 10)

abbrev word : Option ℕ → List ℕ
word none = b'?' ∷ b'?' ∷ []
word (some b) = nibble (b / 16) ∷ nibble (b % 16) ∷ []

pub written : List (Option ℕ) → List ℕ
written [] = []
written (t ∷ []) = word t
written (t ∷ u ∷ ts) = word t ++ b' ' ∷ written (u ∷ ts)

abbrev IsToken : Option ℕ → Type 0
IsToken none = Unit {0}
IsToken (some b) = IsByte b

abbrev pub byte_of : Option ℕ → ℕ
byte_of none = 0
byte_of (some b) = b

abbrev pub significant : Option ℕ → Bool
significant none = false
significant (some b) = true

hex_digit-nibble : (d : ℕ) → d < 16 → hex_digit (nibble d) ≡ some d
unfolding hex_digit
hex_digit-nibble d h = ground arith

stoul-word : (b : ℕ) → b < 256 → stoul (word (some b)) ≡ some b
unfolding stoul digits_from
stoul-word b h =
    ground (arith, hex_digit-nibble (b / 16) (omega arith), hex_digit-nibble (b % 16) (omega arith))

nibble_letter : (d : ℕ) → d < 16 → is_space (nibble d) ≡ false
nibble_letter d h = ground arith

nibble_digit : (d : ℕ) → d < 16 → (nibble d == b'?') ≡ false
nibble_digit d h = ground arith

words-word :
    (t : Option ℕ) (rest : List ℕ)
    → IsToken t
    → words_from [] (word t ++ b' ' ∷ rest) ≡ word t ∷ words_from [] rest
unfolding words_from
words-word none rest h = refl
words-word (some b) rest h =
    rw (nibble_letter (b / 16) (omega arith), nibble_letter (b % 16) (omega arith))

words_word_end : (t : Option ℕ) → IsToken t → words_from [] (word t) ≡ word t ∷ []
unfolding words_from
words_word_end none h = refl
words_word_end (some b) h =
    rw (nibble_letter (b / 16) (omega arith), nibble_letter (b % 16) (omega arith))

words-written : (ts : List (Option ℕ)) → All IsToken ts → words_from [] (written ts) ≡ map word ts
unfolding written
words-written [] h = unfold words_from in refl
words-written (t ∷ []) h = words_word_end t h.0
words-written (t ∷ u ∷ ts) h = rw (words-word t (written (u ∷ ts)) h.0, words-written (u ∷ ts) h.1)

abbrev compiled : List (Option ℕ) → CompiledPattern
compiled ts = record { bytes = map byte_of ts; mask = map significant ts }

compile-words :
    (ts : List (Option ℕ)) → All IsToken ts → compile_words (map word ts) ≡ some (compiled ts)
unfolding compile_words
compile-words [] h = refl
compile-words (none ∷ ts) h = rw (compile-words ts h.1)
compile-words (some b ∷ ts) h =
    ground (arith, nibble_digit (b / 16) (omega arith), stoul-word b h.0, compile-words ts h.1)

-- A pattern written in two-digit hexadecimal words of upper case and "??", with one blank between
-- two words and none at the ends, compiles to its bytes and its mask.
pub compile_pattern-written :
    (ts : List (Option ℕ))
    → All IsToken ts
    → compile_pattern (written ts)
      ≡ some (record { bytes = map byte_of ts; mask = map significant ts })
unfolding compile_pattern
compile_pattern-written ts h = ap compile_words (words-written ts h) ∙ compile-words ts h
