-- ===== src/Names/Tests.antt =====
-- Small inputs for core/utils.ts.
use Prim.Native.String.{String}
use dataform.Prelude.{
  ◌≡◌, ◌↔◌, ◌⊎◌, All, Has, refl, List, [], ◌∷◌, ok, throw, ambiguous_action_name,
}
use dataform.Proto.{Target}
use dataform.Names.{match_patterns, target_to_name, has_dot}
use dataform.Names.Patterns.{
  Denotes, DenotedBy, IsUnambiguous, IsAmbiguity, match_patterns-eq-ok_iff, match_patterns_cases,
}
use dataform.Names.Qualified.{IsPlain, Denotes-target_to_name_iff}

abbrev values : List String
values = "db.s1.a" ∷ "db.s1.b" ∷ "db.s2.a" ∷ []

match_patterns_tests :
    (match_patterns ("b" ∷ "db.s2.a" ∷ "db.s3.a" ∷ "c" ∷ []) values
      ≡ ok ("db.s1.b" ∷ "db.s2.a" ∷ []))
    × (match_patterns ("b" ∷ "a" ∷ []) values
        ≡ throw (ambiguous_action_name "a" ("db.s1.a" ∷ "db.s2.a" ∷ [])))
unfolding match_patterns
match_patterns_tests = (refl, refl)

target_to_name_tests :
    (target_to_name (record { database = "d"; schema = "s"; name = "n" }) ≡ "d.s.n")
    × (target_to_name (record { database = ""; schema = "s"; name = "n" }) ≡ "s.n")
unfolding target_to_name
target_to_name_tests = (refl, refl)

match_patterns_b : match_patterns ("b" ∷ []) values ≡ ok ("db.s1.b" ∷ [])
unfolding match_patterns
match_patterns_b = refl

match_patterns-eq-ok_iff_example :
    Has ("db.s1.b" ∷ []) "db.s1.b" ↔ Has values "db.s1.b" × DenotedBy ("b" ∷ []) "db.s1.b"
match_patterns-eq-ok_iff_example =
    match_patterns-eq-ok_iff ("b" ∷ []) values ("db.s1.b" ∷ []) match_patterns_b "db.s1.b"

match_patterns_cases_example :
    All (IsUnambiguous values) ("a" ∷ [])
      × ((out : List String) × (match_patterns ("a" ∷ []) values ≡ ok out))
    ⊎ IsAmbiguity ("a" ∷ []) values (match_patterns ("a" ∷ []) values)
match_patterns_cases_example = match_patterns_cases ("a" ∷ []) values

abbrev target_a : Target
target_a = record { database = "db"; schema = "s1"; name = "a" }

abbrev target_b : Target
target_b = record { database = ""; schema = "s1"; name = "b" }

target_a-IsPlain : IsPlain target_a
unfolding has_dot
target_a-IsPlain = record { database_plain = refl; schema_plain = refl; name_plain = refl }

target_b-IsPlain : IsPlain target_b
unfolding has_dot
target_b-IsPlain = record { database_plain = refl; schema_plain = refl; name_plain = refl }

Denotes-target_to_name_iff_example :
    (Denotes (target_to_name target_a) (target_to_name target_b) ↔ (target_a ≡ target_b))
    × (Denotes target_a.name (target_to_name target_b) ↔ (target_a.name ≡ target_b.name))
Denotes-target_to_name_iff_example =
    Denotes-target_to_name_iff target_a target_b target_a-IsPlain target_b-IsPlain
