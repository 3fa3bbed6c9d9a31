-- ===== src/Names/Patterns.antt =====
-- core/utils.ts: what `matchPatterns` selects, and when it throws.
use mathlib.Core.Logic.{◌⊎◌}
use dataform.Prelude.{
  String, true, false, ◌≡◌, refl, sym, subst, ◌≢◌, ◌↔◌, inl, inr, ◌==◌, eq_iff, Bool-cases, List,
  [], ◌∷◌, ◌++◌, ◌≤◌, ◌<◌, length, All, Elem, here, there, Has, includes, includes-append,
  includes-filter, Error, Result, ok, throw, throw_ne_ok, ok_ne_out_of_fuel, ◌∙◌, out_of_fuel,
  ambiguous_action_name, ◌>>=◌, bind-eq-ok, if◌then◌else◌, arith,
}
use dataform.Names.{has_dot, last_segment, matches, single_match, match_pattern, match_patterns}

-- A pattern with a dot is a full name. One without is the last part of a name.
abbrev pub Denotes : String → String → Type 0
Denotes pattern value =
    (has_dot pattern ≡ true) × (pattern ≡ value)
    ⊎ (has_dot pattern ≡ false) × (pattern ≡ last_segment value)

-- Some pattern of the list denotes the value.
abbrev pub DenotedBy : List String → String → Type 0
DenotedBy patterns value = (pattern : String) × Elem pattern patterns × Denotes pattern value

matches_iff :
    (pattern : String) (values : List String) (value : String)
    → Has (matches pattern values) value ↔ Has values value × (pattern ≡ last_segment value)
unfolding matches
matches_iff pattern values value = ground (
  arith,
  includes-filter (λ v. pattern == last_segment v) values value,
  eq_iff pattern (last_segment value),
)

single_match-eq-ok :
    (pattern : String) (found out : List String)
    → single_match pattern found ≡ ok out
    → (found ≡ out) × (length found ≤ 1)
unfolding single_match
single_match-eq-ok pattern [] out e = ground arith
single_match-eq-ok pattern (a ∷ []) out e = ground arith
single_match-eq-ok pattern (a ∷ b ∷ more) out e = cc

match_pattern-eq-ok_iff :
    (values : List String) (pattern : String) (out : List String)
    → match_pattern values pattern ≡ ok out
    → (value : String) → Has out value ↔ Has values value × Denotes pattern value
unfolding match_pattern
match_pattern-eq-ok_iff values pattern out e value = elim (Bool-cases (has_dot pattern)) [
  | inl dotted ↦ ground (arith, eq_iff pattern value)
  | inr plain ↦ ground (
    arith,
    single_match-eq-ok pattern (matches pattern values) out,
    matches_iff pattern values value,
  )
]

DenotedBy-cons :
    (pattern : String) (patterns : List String) (value : String)
    → DenotedBy (pattern ∷ patterns) value ↔ (Denotes pattern value ⊎ DenotedBy patterns value)
DenotedBy-cons pattern patterns value = (to, from)
  where
    to : DenotedBy (pattern ∷ patterns) value → Denotes pattern value ⊎ DenotedBy patterns value
    to (p, here same, d) = inl (subst (λ q. Denotes q value) same d)
    to (p, there e, d) = inr (p, e, d)

    from : Denotes pattern value ⊎ DenotedBy patterns value → DenotedBy (pattern ∷ patterns) value
    from (inl d) = (pattern, here refl, d)
    from (inr (p, e, d)) = (p, there e, d)

not-Elem-nil {ℓ} : {A : Type ℓ} {x : A} → ¬ Elem x []
not-Elem-nil e = elim e [ ]

-- When `matchPatterns` returns, its result holds exactly the listed values that some pattern denotes.
pub match_patterns-eq-ok_iff :
    (patterns values out : List String)
    → match_patterns patterns values ≡ ok out
    → (value : String) → Has out value ↔ Has values value × DenotedBy patterns value
unfolding match_patterns includes
match_patterns-eq-ok_iff [] values out e value =
    (λ h. ground arith, λ h. absurd (not-Elem-nil h.1.1))
match_patterns-eq-ok_iff (pattern ∷ patterns) values out e value =
    let (found, e1, rest_e) = bind-eq-ok (match_pattern values pattern) _ e in
    let (rest, e2, last) = bind-eq-ok (match_patterns patterns values) _ rest_e in
    let one = match_pattern-eq-ok_iff values pattern found e1 value in
    let more = match_patterns-eq-ok_iff patterns values rest e2 value in
    let split = DenotedBy-cons pattern patterns value in
    ground (arith, one, more, split, includes-append found rest value)

-- An unqualified pattern is the last part of at most one listed value.
abbrev pub IsUnambiguous : List String → String → Type 0
IsUnambiguous values pattern = has_dot pattern ≡ false → length (matches pattern values) ≤ 1

-- The failure of `matchPatterns` on a pattern that is the last part of several listed values.
pub data IsAmbiguity (patterns values : List String) : Result (List String) → Type 0 where
  ambiguity :
      (pattern : String)
      → Elem pattern patterns
      → has_dot pattern ≡ false
      → 1 < length (matches pattern values)
      → IsAmbiguity patterns values (throw (ambiguous_action_name pattern (matches pattern values)))

single_match_cases :
    (pattern : String) (found : List String)
    → (length found ≤ 1) × (single_match pattern found ≡ ok found)
      ⊎ (1 < length found)
        × (single_match pattern found ≡ throw (ambiguous_action_name pattern found))
unfolding single_match
single_match_cases pattern [] = ground arith
single_match_cases pattern (a ∷ []) = ground arith
single_match_cases pattern (a ∷ b ∷ more) = ground arith

match_pattern_cases :
    (values : List String) (pattern : String)
    → IsUnambiguous values pattern × ((out : List String) × (match_pattern values pattern ≡ ok out))
      ⊎ ((has_dot pattern ≡ false)
          × (1 < length (matches pattern values))
          × (match_pattern values pattern
              ≡ throw (ambiguous_action_name pattern (matches pattern values))))
unfolding match_pattern
match_pattern_cases values pattern = elim (Bool-cases (has_dot pattern)) [
  | inl dotted ↦
      inl (λ plain. cc, (if includes values pattern then pattern ∷ [] else [], rw dotted refl))
  | inr plain ↦ elim (single_match_cases pattern (matches pattern values)) [
    | inl (few, e) ↦ inl (λ _. few, (matches pattern values, rw plain e))
    | inr (many, e) ↦ inr (plain, many, rw plain e)
  ]
]

IsAmbiguity-cons :
    (pattern : String) (patterns values : List String) (r : Result (List String))
    (f : List String → Result (List String))
    → IsAmbiguity patterns values r
    → IsAmbiguity (pattern ∷ patterns) values (r >>= f)
IsAmbiguity-cons pattern patterns values r f (ambiguity p m plain many) =
    ambiguity p (there m) plain many

-- `matchPatterns` returns a list when every unqualified pattern is the last part of at most one
-- listed value. Otherwise it throws the error on an ambiguous name, for a pattern that is not so.
pub match_patterns_cases :
    (patterns values : List String)
    → All (IsUnambiguous values) patterns
        × ((out : List String) × (match_patterns patterns values ≡ ok out))
      ⊎ IsAmbiguity patterns values (match_patterns patterns values)
unfolding match_patterns
match_patterns_cases [] values = inl (tt, ([], refl))
match_patterns_cases (pattern ∷ patterns) values = elim (match_pattern_cases values pattern) [
  | inr (plain, many, e) ↦ inr (rw e (ambiguity pattern (here refl) plain many))
  | inl (one, (found, e)) ↦ elim (match_patterns_cases patterns values) [
    | inl (rest, (out, e')) ↦ inl ((one, rest), (found ++ out, rw (e, e') refl))
    | inr bad ↦
        inr (rw e (IsAmbiguity-cons pattern patterns values (match_patterns patterns values) _ bad))
  ]
]

-- The error on a name that several actions have.
abbrev pub IsAmbiguousName : Error → Type 0
IsAmbiguousName err =
    (pattern : String) × (found : List String) × (1 < length found)
    × (err ≡ ambiguous_action_name pattern found)

IsAmbiguity-throw :
    (patterns values : List String) (r : Result (List String)) (err : Error)
    → IsAmbiguity patterns values r
    → r ≡ throw err
    → IsAmbiguousName err
IsAmbiguity-throw patterns values r err (ambiguity p m plain many) e =
    (p, matches p values, many, cc)

IsAmbiguity-ne-out_of_fuel :
    (patterns values : List String) (r : Result (List String))
    → IsAmbiguity patterns values r
    → r ≢ out_of_fuel
IsAmbiguity-ne-out_of_fuel patterns values r (ambiguity p m plain many) e = cc

pub match_patterns-eq-throw :
    (patterns values : List String) (err : Error)
    → match_patterns patterns values ≡ throw err
    → IsAmbiguousName err
match_patterns-eq-throw patterns values err e = elim (match_patterns_cases patterns values) [
  | inl (_, (out, e')) ↦ absurd (throw_ne_ok (sym e ∙ e'))
  | inr bad ↦ IsAmbiguity-throw patterns values (match_patterns patterns values) err bad e
]

pub match_patterns-ne-out_of_fuel :
    (patterns values : List String) → match_patterns patterns values ≢ out_of_fuel
match_patterns-ne-out_of_fuel patterns values e = elim (match_patterns_cases patterns values) [
  | inl (_, (out, e')) ↦ ok_ne_out_of_fuel (sym e' ∙ e)
  | inr bad ↦ IsAmbiguity-ne-out_of_fuel patterns values (match_patterns patterns values) bad e
]
