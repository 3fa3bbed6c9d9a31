-- ===== src/Stringified/Tests.antt =====
-- Small inputs for common/strings/stringifier.ts.
use dataform.Prelude.{ℕ, String, ◌≡◌, ◌≢◌, eq_iff, refl, List, [], ◌∷◌, none, some}
use dataform.Stringified.{
  StringifiedMap, string_stringifier, has_entry, get, set, delete, map_of, entries_of,
}
use dataform.Stringified.Laws.{IsMap, IsFaithful, AreDistinct, get-set-delete, entries_of-map_of}

strings-IsFaithful : IsFaithful string_stringifier
unfolding string_stringifier
strings-IsFaithful x = refl

abbrev two : StringifiedMap ℕ
two = record { entries = ("a", 1) ∷ ("b", 2) ∷ [] }

two-IsMap : IsMap two.entries
unfolding has_entry
two-IsMap = (refl, (refl, tt))

get-set-delete_example :
    (get string_stringifier "b" (set string_stringifier "b" 3 two) ≡ some 3)
    × ((j : String)
        → "b" ≢ j
        → get string_stringifier j (set string_stringifier "b" 3 two)
          ≡ get string_stringifier j two)
    × (get string_stringifier "b" (delete string_stringifier "b" two) ≡ none)
    × ((j : String)
        → "b" ≢ j
        → get string_stringifier j (delete string_stringifier "b" two)
          ≡ get string_stringifier j two)
    × IsMap (set string_stringifier "b" 3 two).entries
    × IsMap (delete string_stringifier "b" two).entries
get-set-delete_example = get-set-delete string_stringifier strings-IsFaithful "b" 3 two two-IsMap

abbrev given : List (String × ℕ)
given = ("a", 1) ∷ ("b", 2) ∷ []

given-AreDistinct : AreDistinct given
given-AreDistinct = ((λ e. let h = (eq_iff "b" "a").1 e in cc, tt), (tt, tt))

entries_of-map_of_example : entries_of string_stringifier (map_of string_stringifier given) ≡ given
entries_of-map_of_example =
    entries_of-map_of string_stringifier strings-IsFaithful given given-AreDistinct
