-- ===== src/Net/Json.antt =====
-- The calls that the client makes of nlohmann::json, a library outside the repository: the type of
-- its values and its functions are parameters. `none` stands for an exception that a call throws.
pub mod Sample
use crimson_desert_online_mo.Common.{
  ℕ, ◌<◌, ◌^◌, ◌≡◌, Bool, true, false, Option, none, some, List, [], ◌∷◌, String,
}
use crimson_desert_online_mo.Common.{str_eq, if◌then◌else◌, not}
use crimson_desert_online_mo.Game.Float.{is_finite}

pub record JsonLib : Type 1 where
  pub Value : Type 0
  -- `json::parse` and `dump`.
  pub parse : List ℕ → Option Value
  pub dump : Value → List ℕ
  pub null : Value
  -- A JSON text, a number that is not negative, and the object of a list of members.
  pub text : String → Value
  pub number : ℕ → Value
  pub object : List (String × Value) → Value
  pub is_object : Value → Bool
  pub contains : Value → String → Bool
  -- `j[k]` of a member that is there.
  pub at : Value → String → Value
  -- `get<std::string>()`.
  pub get_text : Value → Option String
  -- `get<uint64_t>()`; a narrower type takes the low bits.
  pub get_number : Value → Option ℕ
  -- An `int32_t` pattern as a signed number, a `float` pattern as a real number, a Boolean value
  -- and an array, with what reads them.
  pub integer : ℕ → Value
  pub real : ℕ → Value
  pub boolean : Bool → Value
  pub array : List Value → Value
  pub is_text : Value → Bool
  pub is_array : Value → Bool
  pub is_boolean : Value → Bool
  pub items : Value → List Value
  -- `get<int>()`, `get<float>()` and `get<bool>()`.
  pub get_int : Value → Option ℕ
  pub get_float : Value → Option ℕ
  pub get_bool : Value → Option Bool

-- The first member of a name.
abbrev pub find_member {ℓ} : {V : Type ℓ} → String → List (String × V) → Option V
find_member k [] = none
find_member k ((j, v) ∷ kvs) = if str_eq j k then some v else find_member k kvs

abbrev pub is_some {ℓ} : {A : Type ℓ} → Option A → Bool
is_some none = false
is_some (some a) = true

-- `j.value(k, d)` with what reads the member: the default where it is missing.
abbrev pub value_by {ℓ} :
    {A : Type ℓ} (L : JsonLib) → (L.Value → Option A) → L.Value → String → A → Option A
value_by L get j k d =
    if not (L.is_object j) then none else if L.contains j k then get (L.at j k) else some d

-- What the library documents of its values.
pub record IsJson (L : JsonLib) : Type 0 where
  pub is_object-object : (kvs : List (String × L.Value)) → L.is_object (L.object kvs) ≡ true
  pub contains-object :
      (kvs : List (String × L.Value)) (k : String)
      → L.contains (L.object kvs) k ≡ is_some (find_member k kvs)
  pub at-object :
      (kvs : List (String × L.Value)) (k : String) (v : L.Value)
      → find_member k kvs ≡ some v
      → L.at (L.object kvs) k ≡ v
  pub get_text-text : (s : String) → L.get_text (L.text s) ≡ some s
  pub is_text-text : (s : String) → L.is_text (L.text s) ≡ true
  pub get_number-number : (n : ℕ) → n < 2 ^ 64 → L.get_number (L.number n) ≡ some n
  pub get_int-integer : (n : ℕ) → n < 2 ^ 32 → L.get_int (L.integer n) ≡ some n
  pub get_float-real : (v : ℕ) → v < 2 ^ 32 → is_finite v ≡ true → L.get_float (L.real v) ≡ some v
  pub get_bool-boolean : (b : Bool) → L.get_bool (L.boolean b) ≡ some b
  pub is_array-array : (vs : List L.Value) → L.is_array (L.array vs) ≡ true
  pub items-array : (vs : List L.Value) → L.items (L.array vs) ≡ vs
