-- ===== src/Stringified.antt =====
-- common/strings/stringifier.ts: `StringifiedMap` and `StringifiedSet`. A JavaScript `Map` is the list
-- of its entries in order of insertion. The stringifier is a parameter: the ones in use call the
-- engine's `JSON.stringify`.
pub mod Laws
pub mod Written
mod Tests
use dataform.Prelude.{
  ◌≡◌, String, Bool, true, false, ◌||◌, ◌==◌, List, [], ◌∷◌, ◌++◌, map, Option, none, some,
  if◌then◌else◌, add, add_all, includes, filter, not,
}

-- `IStringifier<T>`
pub record Stringifier {ℓ} (T : Type ℓ) : Type ℓ where
  pub stringify : T → String
  pub parse : String → T

-- The operations of the engine's `Map<string, V>` that the classes call.
module _ {ℓ} {V : Type ℓ} where
  unfoldable pub get_entry : String → List (String × V) → Option V
  get_entry k [] = none
  get_entry k ((j, v) ∷ m) = if j == k then some v else get_entry k m

  unfoldable pub has_entry : String → List (String × V) → Bool
  has_entry k [] = false
  has_entry k ((j, v) ∷ m) = j == k || has_entry k m

  -- A key that is there keeps its place.
  unfoldable pub set_entry : String → V → List (String × V) → List (String × V)
  set_entry k v [] = (k, v) ∷ []
  set_entry k v ((j, w) ∷ m) = if j == k then (j, v) ∷ m else (j, w) ∷ set_entry k v m

  unfoldable pub delete_entry : String → List (String × V) → List (String × V)
  delete_entry k [] = []
  delete_entry k ((j, v) ∷ m) = if j == k then m else (j, v) ∷ delete_entry k m

  -- `new Map(entries)`: of two entries with one key the later value stays.
  unfoldable pub set_entries : List (String × V) → List (String × V) → List (String × V)
  unfolding set_entry
  set_entries m [] = m
  set_entries m ((k, v) ∷ entries) = set_entries (set_entry k v m) entries

pub record StringifiedMap {ℓ} (V : Type ℓ) : Type ℓ where
  pub entries : List (String × V)

module _ {ℓ κ} {K : Type ℓ} {V : Type κ} (s : Stringifier K) where
  -- the constructor, with entries
  unfoldable pub map_of : List (K × V) → StringifiedMap V
  unfolding set_entries
  map_of given = record { entries = set_entries [] (map (λ e. (s.stringify e.0, e.1)) given) }

  unfoldable pub get : K → StringifiedMap V → Option V
  unfolding get_entry
  get k m = get_entry (s.stringify k) m.entries

  unfoldable pub has : K → StringifiedMap V → Bool
  unfolding has_entry
  has k m = has_entry (s.stringify k) m.entries

  unfoldable pub set : K → V → StringifiedMap V → StringifiedMap V
  unfolding set_entry
  set k v m = record { entries = set_entry (s.stringify k) v m.entries }

  unfoldable pub delete : K → StringifiedMap V → StringifiedMap V
  unfolding delete_entry
  delete k m = record { entries = delete_entry (s.stringify k) m.entries }

  -- `entries()`: the keys are parsed back.
  unfoldable pub entries_of : StringifiedMap V → List (K × V)
  entries_of m = map (λ e. (s.parse e.0, e.1)) m.entries

  unfoldable pub keys_of : StringifiedMap V → List K
  keys_of m = map (λ e. s.parse e.0) m.entries

-- `StringStringifier`
unfoldable pub string_stringifier : Stringifier String
string_stringifier = record { stringify = λ v. v; parse = λ v. v }

pub record StringifiedSet : Type 0 where
  pub members : List String

module _ {ℓ} {T : Type ℓ} (s : Stringifier T) where
  -- the constructor, with values
  unfoldable pub set_of : List T → StringifiedSet
  unfolding add_all
  set_of values = record { members = add_all [] (map s.stringify values) }

  unfoldable pub add_value : T → StringifiedSet → StringifiedSet
  unfolding add
  add_value v set = record { members = add set.members (s.stringify v) }

  unfoldable pub has_value : T → StringifiedSet → Bool
  unfolding includes
  has_value v set = includes set.members (s.stringify v)

  unfoldable pub delete_value : T → StringifiedSet → StringifiedSet
  delete_value v set = record { members = filter (λ k. not (k == s.stringify v)) set.members }

  -- `keys()`, `values()` and the set's own iterator: the members are parsed back.
  unfoldable pub values_of : StringifiedSet → List T
  values_of set = map s.parse set.members
