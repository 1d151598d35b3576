-- ===== src/Common/Table.antt =====
-- `std::map` with text keys: entries with one key each, in the order of the keys.
pub mod Laws
use package.crimson_desert_online_mo.Common.Tests.{ltb, ◌==◌, str_eq, if◌then◌else◌}
use package.crimson_desert_online_mo.Common.Text.{codes}
use Prim.Native.Nat.{ℕ}
use Prim.Native.String.{String}
use mathlib.Core.Bool.{Bool, true, false}
use mathlib.Core.Option.{Option, none, some}
use mathlib.Core.List.{List, [], ◌∷◌}

abbrev pub Table {ℓ} : Type ℓ → Type ℓ
Table V = List (String × V)

-- The order of `std::string`, by codes.
abbrev codes_lt : List ℕ → List ℕ → Bool
codes_lt [] [] = false
codes_lt [] (d ∷ ds) = true
codes_lt (c ∷ cs) [] = false
codes_lt (c ∷ cs) (d ∷ ds) = if c == d then codes_lt cs ds else ltb c d

module _ {ℓ} {V : Type ℓ} where
  unfoldable pub find : String → Table V → Option V
  find k [] = none
  find k ((j, v) ∷ t) = if str_eq j k then some v else find k t

  -- A key that is there keeps its place.
  replace : String → V → Table V → Table V
  replace k v [] = []
  replace k v ((j, w) ∷ t) =
      let rest = replace k v t in if str_eq j k then (k, v) ∷ t else (j, w) ∷ rest

  place : String → V → Table V → Table V
  place k v [] = (k, v) ∷ []
  place k v ((j, w) ∷ t) =
      let rest = place k v t in
      if codes_lt (codes k) (codes j) then (k, v) ∷ (j, w) ∷ t else (j, w) ∷ rest

  put_by : Option V → String → V → Table V → Table V
  put_by (some old) k v t = replace k v t
  put_by none k v t = place k v t

  unfoldable pub put : String → V → Table V → Table V
  unfolding find replace place put_by
  put k v t = put_by (find k t) k v t

  unfoldable pub erase : String → Table V → Table V
  erase k [] = []
  erase k ((j, v) ∷ t) = let rest = erase k t in if str_eq j k then rest else (j, v) ∷ rest

  -- `m[k]`: the value, or `d` where the key is new.
  abbrev pub find_or : String → V → Option V → V
  find_or k d none = d
  find_or k d (some v) = v
