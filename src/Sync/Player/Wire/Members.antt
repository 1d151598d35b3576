-- ===== src/Sync/Player/Wire/Members.antt =====
-- client/src/sync/player_sync.cpp: what is found in an object of groups of members.
use crimson_desert_online_mo.Common.{
  ℕ, ◌<◌, ◌^◌, ◌≡◌, refl, sym, ◌∙◌, Bool, true, false, Option, none, some, List, [], ◌∷◌, ◌++◌, map,
  String, if◌then◌else◌, arith, All,
}
use crimson_desert_online_mo.Net.Json.{JsonLib, IsJson, find_member, is_some, value_by}
use crimson_desert_online_mo.Game.Float.{is_finite}
use crimson_desert_online_mo.Game.Memory.{Vec3}
use crimson_desert_online_mo.Sync.Player.Wire.{
  Group, emit, vec_value, value_int, value_float, value_vec, value_vec_at, get_ints,
}

-- The member that is found, or what the later groups have.
abbrev or_later {ℓ} : {V : Type ℓ} → Bool → Option V → Option V → Option V
or_later present none later = later
or_later present (some v) later = if present then some v else later

or_later-false {ℓ} : {V : Type ℓ} (o later : Option V) → or_later false o later ≡ later
or_later-false none later = refl
or_later-false (some v) later = refl

abbrev pub Word : ℕ → Type 0
Word n = n < 2 ^ 32

-- A pattern of a `float` that JSON can carry.
abbrev pub Finite : ℕ → Type 0
Finite v = (v < 2 ^ 32) × (is_finite v ≡ true)

abbrev pub FiniteVec : Vec3 → Type 0
FiniteVec v = Finite v.x × Finite v.y × Finite v.z

module _ (L : JsonLib) where
  open L use {Value}

  abbrev pub find_in : String → List (Group L) → Option Value
  find_in k [] = none
  find_in k ((present, kvs) ∷ gs) = or_later present (find_member k kvs) (find_in k gs)

  find_member-append :
      (k : String) (kvs more : List (String × Value))
      → find_member k (kvs ++ more) ≡ or_later true (find_member k kvs) (find_member k more)
  find_member-append k [] more = refl
  find_member-append k ((j, v) ∷ kvs) more = ground (arith, find_member-append k kvs more)

  find_member-emit : (k : String) (gs : List (Group L)) → find_member k (emit L gs) ≡ find_in k gs
  unfolding emit
  find_member-emit k [] = refl
  find_member-emit k ((true, kvs) ∷ gs) =
      rw (find_member-append k kvs (emit L gs), find_member-emit k gs) refl
  find_member-emit k ((false, kvs) ∷ gs) =
      find_member-emit k gs ∙ sym (or_later-false (find_member k kvs) (find_in k gs))

module _ (L : JsonLib) (J : IsJson L) where
  open L use {Value, object, contains, at, integer, real, array}

  module _ (gs : List (Group L)) (k : String) where
    pub contains-emit : contains (object (emit L gs)) k ≡ is_some (find_in L k gs)
    contains-emit = J.contains-object (emit L gs) k ∙ rw (find_member-emit L k gs) refl

    pub contains_there :
        (v : Value) → find_in L k gs ≡ some v → contains (object (emit L gs)) k ≡ true
    contains_there v e = contains-emit ∙ rw e refl

    pub contains_missing : find_in L k gs ≡ none → contains (object (emit L gs)) k ≡ false
    contains_missing e = contains-emit ∙ rw e refl

    pub at-emit : (v : Value) → find_in L k gs ≡ some v → at (object (emit L gs)) k ≡ v
    at-emit v e = J.at-object (emit L gs) k v (find_member-emit L k gs ∙ e)

    pub value_by-emit {ℓ} :
        {A : Type ℓ} (get : Value → Option A) (d : A) (v : Value)
        → find_in L k gs ≡ some v
        → value_by L get (object (emit L gs)) k d ≡ get v
    value_by-emit get d v e =
        rw (J.is_object-object (emit L gs), contains-emit, e, at-emit v e) refl

  pub value_float-real :
      (gs : List (Group L)) (k : String) (d v : ℕ)
      → Finite v
      → find_in L k gs ≡ some (real v)
      → value_float L (object (emit L gs)) k d ≡ some v
  value_float-real gs k d v (small, finite) e =
      value_by-emit gs k L.get_float d (real v) e ∙ J.get_float-real v small finite

  pub value_int-integer :
      (gs : List (Group L)) (k : String) (d n : ℕ)
      → Word n
      → find_in L k gs ≡ some (integer n)
      → value_int L (object (emit L gs)) k d ≡ some n
  value_int-integer gs k d n small e =
      value_by-emit gs k L.get_int d (integer n) e ∙ J.get_int-integer n small

  pub value_vec-vec_value : (v : Vec3) → FiniteVec v → value_vec L (vec_value L v) ≡ some v
  unfolding value_vec emit
  value_vec-vec_value v (fx, fy, fz) =
      let gs : List (Group L) =
        (true, ("x", real v.x) ∷ ("y", real v.y) ∷ ("z", real v.z) ∷ []) ∷ [] in
      let x : value_float L (vec_value L v) "x" 0 ≡ some v.x =
        value_float-real gs "x" 0 v.x fx refl in
      let y : value_float L (vec_value L v) "y" 0 ≡ some v.y =
        value_float-real gs "y" 0 v.y fy refl in
      let z : value_float L (vec_value L v) "z" 0 ≡ some v.z =
        value_float-real gs "z" 0 v.z fz refl in
      rw (x, y, z) refl

  pub value_vec_at-emit :
      (gs : List (Group L)) (k : String) (old v : Vec3)
      → FiniteVec v
      → find_in L k gs ≡ some (vec_value L v)
      → value_vec_at L (object (emit L gs)) k old ≡ some v
  unfolding value_vec_at
  value_vec_at-emit gs k old v f e =
      rw (contains-emit gs k, e, at-emit gs k (vec_value L v) e) (value_vec-vec_value v f)

  pub get_ints-map : (ns : List ℕ) → All Word ns → get_ints L (map integer ns) ≡ some ns
  unfolding get_ints
  get_ints-map [] h = refl
  get_ints-map (n ∷ ns) (small, h) = rw (J.get_int-integer n small, get_ints-map ns h) refl
