-- ===== src/Net/Json/Sample.antt =====
-- A small JSON library for the tests: its parser knows one text.
use crimson_desert_online_mo.Common.{
  ℕ, ◌≡◌, refl, Bool, true, false, Option, none, some, List, [], ◌∷◌, String, str_eq, if◌then◌else◌,
}
use crimson_desert_online_mo.Net.Json.{JsonLib, IsJson, find_member, is_some}

-- An object is the chain of its members.
pub data Tree : Type 0 where
  absent nothing : Tree
  words : String → Tree
  count : ℕ → Tree
  member : String → Tree → Tree → Tree
  whole real_number : ℕ → Tree
  flag : Bool → Tree
  end_of_array : Tree
  item : Tree → Tree → Tree

abbrev pub tree_object : List (String × Tree) → Tree
tree_object [] = nothing
tree_object ((k, v) ∷ kvs) = member k v (tree_object kvs)

abbrev pub tree_is_object : Tree → Bool
tree_is_object absent = false
tree_is_object nothing = true
tree_is_object (words s) = false
tree_is_object (count n) = false
tree_is_object (member k v rest) = true
tree_is_object (whole n) = false
tree_is_object (real_number n) = false
tree_is_object (flag b) = false
tree_is_object end_of_array = false
tree_is_object (item t rest) = false

abbrev pub tree_find : Tree → String → Option Tree
tree_find absent k = none
tree_find nothing k = none
tree_find (words s) k = none
tree_find (count n) k = none
tree_find (member j v rest) k = if str_eq j k then some v else tree_find rest k
tree_find (whole n) k = none
tree_find (real_number n) k = none
tree_find (flag b) k = none
tree_find end_of_array k = none
tree_find (item t rest) k = none

abbrev pub tree_at : Option Tree → Tree
tree_at none = absent
tree_at (some v) = v

abbrev pub tree_text : Tree → Option String
tree_text absent = none
tree_text nothing = none
tree_text (words s) = some s
tree_text (count n) = none
tree_text (member k v rest) = none
tree_text (whole n) = none
tree_text (real_number n) = none
tree_text (flag b) = none
tree_text end_of_array = none
tree_text (item t rest) = none

abbrev pub tree_number : Tree → Option ℕ
tree_number absent = none
tree_number nothing = none
tree_number (words s) = none
tree_number (count n) = some n
tree_number (member k v rest) = none
tree_number (whole n) = none
tree_number (real_number n) = none
tree_number (flag b) = none
tree_number end_of_array = none
tree_number (item t rest) = none

abbrev pub tree_int : Tree → Option ℕ
tree_int absent = none
tree_int nothing = none
tree_int (words s) = none
tree_int (count n) = none
tree_int (member k v rest) = none
tree_int (whole n) = some n
tree_int (real_number n) = none
tree_int (flag b) = none
tree_int end_of_array = none
tree_int (item t rest) = none

abbrev pub tree_float : Tree → Option ℕ
tree_float absent = none
tree_float nothing = none
tree_float (words s) = none
tree_float (count n) = none
tree_float (member k v rest) = none
tree_float (whole n) = none
tree_float (real_number n) = some n
tree_float (flag b) = none
tree_float end_of_array = none
tree_float (item t rest) = none

abbrev pub tree_bool : Tree → Option Bool
tree_bool absent = none
tree_bool nothing = none
tree_bool (words s) = none
tree_bool (count n) = none
tree_bool (member k v rest) = none
tree_bool (whole n) = none
tree_bool (real_number n) = none
tree_bool (flag b) = some b
tree_bool end_of_array = none
tree_bool (item t rest) = none

abbrev pub tree_is_array : Tree → Bool
tree_is_array absent = false
tree_is_array nothing = false
tree_is_array (words s) = false
tree_is_array (count n) = false
tree_is_array (member k v rest) = false
tree_is_array (whole n) = false
tree_is_array (real_number n) = false
tree_is_array (flag b) = false
tree_is_array end_of_array = true
tree_is_array (item t rest) = true

abbrev pub tree_items : Tree → List Tree
tree_items absent = []
tree_items nothing = []
tree_items (words s) = []
tree_items (count n) = []
tree_items (member k v rest) = []
tree_items (whole n) = []
tree_items (real_number n) = []
tree_items (flag b) = []
tree_items end_of_array = []
tree_items (item t rest) = t ∷ tree_items rest

abbrev pub tree_array : List Tree → Tree
tree_array [] = end_of_array
tree_array (t ∷ ts) = item t (tree_array ts)

-- The library whose one text stands for the tree `known`.
abbrev pub sample : Tree → JsonLib
sample known = record {
  Value = Tree;
  parse = λ raw. some known;
  dump = λ v. [];
  null = absent;
  text = words;
  number = count;
  object = tree_object;
  is_object = tree_is_object;
  contains = λ v k. is_some (tree_find v k);
  at = λ v k. tree_at (tree_find v k);
  get_text = tree_text;
  get_number = tree_number;
  integer = whole;
  real = real_number;
  boolean = flag;
  array = tree_array;
  is_text = λ v. is_some (tree_text v);
  is_array = tree_is_array;
  is_boolean = λ v. is_some (tree_bool v);
  items = tree_items;
  get_int = tree_int;
  get_float = tree_float;
  get_bool = tree_bool;
}

tree_find-object :
    (kvs : List (String × Tree)) (k : String) → tree_find (tree_object kvs) k ≡ find_member k kvs
tree_find-object [] k = refl
tree_find-object ((j, v) ∷ kvs) k = rw (tree_find-object kvs k) refl

tree_is_object-object : (kvs : List (String × Tree)) → tree_is_object (tree_object kvs) ≡ true
tree_is_object-object [] = refl
tree_is_object-object ((k, v) ∷ kvs) = refl

tree_is_array-array : (ts : List Tree) → tree_is_array (tree_array ts) ≡ true
tree_is_array-array [] = refl
tree_is_array-array (t ∷ ts) = refl

tree_items-array : (ts : List Tree) → tree_items (tree_array ts) ≡ ts
tree_items-array [] = refl
tree_items-array (t ∷ ts) = rw (tree_items-array ts)

pub sample-IsJson : (known : Tree) → IsJson (sample known)
sample-IsJson known = record {
  is_object-object = tree_is_object-object;
  contains-object = λ kvs k. rw (tree_find-object kvs k) refl;
  at-object = λ kvs k v e. rw (tree_find-object kvs k, e) refl;
  get_text-text = λ s. refl;
  get_number-number = λ n small. refl;
  get_int-integer = λ n small. refl;
  get_float-real = λ v small finite. refl;
  get_bool-boolean = λ b. refl;
  is_text-text = λ s. refl;
  is_array-array = tree_is_array-array;
  items-array = tree_items-array;
}
