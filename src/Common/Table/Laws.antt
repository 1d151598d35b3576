-- ===== src/Common/Table/Laws.antt =====
-- Laws of the table.
use package.crimson_desert_online_mo.Common.Tests.{str_eq, if◌then◌else◌, Bool-cases, Option-cases}
use package.crimson_desert_online_mo.Common.Lists.{All}
use package.crimson_desert_online_mo.Common.Text.{codes}
use package.crimson_desert_online_mo.Common.Table.{
  Table, codes_lt, find, replace, place, put_by, put, erase,
}
use Prim.Native.String.{String}
use mathlib.Core.Path.{◌≡◌, refl, subst}
use mathlib.Core.Logic.{inl, inr}
use mathlib.Core.Option.{none, some}
use mathlib.Core.List.{[], ◌∷◌}
use native.Mathlib.Omega.{arith}
use text.Mathlib.TextEquality.{eq_iff}

module _ {ℓ} {V : Type ℓ} where
  -- A key stands once.
  abbrev pub NodupKeys : Table V → Type ℓ
  NodupKeys [] = Unit {ℓ}
  NodupKeys ((k, v) ∷ t) = (find k t ≡ none) × NodupKeys t

  find-replace :
      (j k : String) (v : V) (t : Table V) {w : V}
      → find k t ≡ some w
      → find j (replace k v t) ≡ (if str_eq k j then some v else find j t)
  unfolding find replace
  find-replace j k v [] e = cc
  find-replace j k v ((i, u) ∷ t) {w} e =
      ground (arith, find-replace j k v t {w = w}, eq_iff i k, eq_iff i j, eq_iff k j)

  find-place :
      (j k : String) (v : V) (t : Table V)
      → find k t ≡ none
      → find j (place k v t) ≡ (if str_eq k j then some v else find j t)
  unfolding find place
  find-place j k v [] e = ground (arith)
  find-place j k v ((i, u) ∷ t) e =
      ground (arith, find-place j k v t, eq_iff i k, eq_iff i j, eq_iff k j)

  pub find-put :
      (j k : String) (v : V) (t : Table V)
      → find j (put k v t) ≡ (if str_eq k j then some v else find j t)
  unfolding put put_by
  find-put j k v t = elim (Option-cases (find k t)) [
    | inl e ↦ rw e (find-place j k v t e)
    | inr (w, e) ↦ rw e (find-replace j k v t e)
  ]

  pub find-erase :
      (j k : String) (t : Table V) → find j (erase k t) ≡ (if str_eq k j then none else find j t)
  unfolding find erase
  find-erase j k [] = ground arith
  find-erase j k ((i, u) ∷ t) = ground (arith, find-erase j k t, eq_iff i k, eq_iff i j, eq_iff k j)

  replace-NodupKeys :
      (k : String) (v : V) (t : Table V) {w : V}
      → find k t ≡ some w
      → NodupKeys t
      → NodupKeys (replace k v t)
  unfolding replace find
  replace-NodupKeys k v [] e u = cc
  replace-NodupKeys k v ((j, x) ∷ t) {w} e (fresh, u) = elim (Bool-cases (str_eq j k)) [
    | inl here ↦ let same : j ≡ k = (eq_iff j k).0 here in rw here (rw same at fresh, u)
    | inr there ↦ rw there (
      ground (arith, eq_iff j k, eq_iff k j, find-replace j k v t {w = w}),
      replace-NodupKeys k v t (rw there at e) u,
    )
  ]

  place-NodupKeys :
      (k : String) (v : V) (t : Table V) → find k t ≡ none → NodupKeys t → NodupKeys (place k v t)
  unfolding place find
  place-NodupKeys k v [] e u = (refl, tt)
  place-NodupKeys k v ((j, x) ∷ t) e (fresh, u) =
      ground (arith, eq_iff j k, eq_iff k j, find-place j k v t, place-NodupKeys k v t)

  pub put-NodupKeys : (k : String) (v : V) (t : Table V) → NodupKeys t → NodupKeys (put k v t)
  unfolding put put_by
  put-NodupKeys k v t u = elim (Option-cases (find k t)) [
    | inl e ↦ rw e (place-NodupKeys k v t e u)
    | inr (w, e) ↦ rw e (replace-NodupKeys k v t e u)
  ]

  pub erase-NodupKeys : (k : String) (t : Table V) → NodupKeys t → NodupKeys (erase k t)
  unfolding erase
  erase-NodupKeys k [] u = tt
  erase-NodupKeys k ((j, x) ∷ t) (fresh, u) =
      ground (arith, find-erase j k t, erase-NodupKeys k t u)

  -- What holds of all values.
  abbrev pub AllValues {κ} : (V → Type κ) → Table V → Type κ
  AllValues P t = All (λ (e : String × V). P e.1) t

  module _ {κ} (P : V → Type κ) where
    pub find-AllValues :
        (k : String) (t : Table V) {v : V} → AllValues P t → find k t ≡ some v → P v
    unfolding find
    find-AllValues k [] a e = cc
    find-AllValues k ((j, x) ∷ t) {v} (p, ps) e = elim (Bool-cases (str_eq j k)) [
      | inl here ↦ subst P (ground arith) p
      | inr there ↦ find-AllValues k t ps (rw there at e)
    ]

    replace-AllValues :
        (k : String) (v : V) (t : Table V) → P v → AllValues P t → AllValues P (replace k v t)
    unfolding replace
    replace-AllValues k v [] p a = tt
    replace-AllValues k v ((j, x) ∷ t) p (q, a) = elim (Bool-cases (str_eq j k)) [
      | inl here ↦ rw here (p, a)
      | inr there ↦ rw there (q, replace-AllValues k v t p a)
    ]

    place-AllValues :
        (k : String) (v : V) (t : Table V) → P v → AllValues P t → AllValues P (place k v t)
    unfolding place
    place-AllValues k v [] p a = (p, tt)
    place-AllValues k v ((j, x) ∷ t) p (q, a) = elim (Bool-cases (codes_lt (codes k) (codes j))) [
      | inl here ↦ rw here (p, (q, a))
      | inr there ↦ rw there (q, place-AllValues k v t p a)
    ]

    pub put-AllValues :
        (k : String) (v : V) (t : Table V) → P v → AllValues P t → AllValues P (put k v t)
    unfolding put put_by
    put-AllValues k v t p a = elim (Option-cases (find k t)) [
      | inl e ↦ rw e (place-AllValues k v t p a)
      | inr (w, e) ↦ rw e (replace-AllValues k v t p a)
    ]

    pub erase-AllValues : (k : String) (t : Table V) → AllValues P t → AllValues P (erase k t)
    unfolding erase
    erase-AllValues k [] a = tt
    erase-AllValues k ((j, x) ∷ t) (p, a) = elim (Bool-cases (str_eq j k)) [
      | inl here ↦ rw here (erase-AllValues k t a)
      | inr there ↦ rw there (p, erase-AllValues k t a)
    ]
