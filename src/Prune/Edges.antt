-- ===== src/Prune/Edges.antt =====
-- api/commands/prune.ts: the steps of the two loops, as relations between names.
use mathlib.Core.Logic.{◌⊎◌}
use mathlib.Core.Bool.{false≢true}
use dataform.Prelude.{
  String, Bool, true, false, ◌≡◌, refl, sym, ◌∙◌, subst, inl, inr, ◌↔◌, List, [], ◌∷◌, eq_iff,
  eq_self, some, Option-cases, eq-cases, if◌then◌else◌, ltb, ltb→lt, length, Elem, here, there,
  includes, Has, ok, throw_ne_ok, bind-eq-ok, ok_injective, some_cancel, arith,
}
use dataform.Proto.{CompiledGraph}
use dataform.Names.{match_patterns}
use dataform.Names.Patterns.{Denotes, DenotedBy, match_patterns-eq-ok_iff}
use dataform.Prune.Worklist.Closure.{Computes}
use dataform.Prune.{
  CompileAction, name_of, dependencies_of, all_actions, action_by_name, all_action_names,
  dependency_names, dependents, dependent_names,
}

-- The action named `x` has a dependency that denotes `y`.
abbrev pub Requires : CompiledGraph → String → String → Type 0
Requires g x y =
    (a : CompileAction) × (action_by_name (all_actions g) x ≡ some a)
    × Has (all_action_names g) y
    × DenotedBy (dependencies_of a) y

-- `x` denotes one of the dependencies of the action.
abbrev pub Meets : String → CompileAction → Type 0
Meets x a = (d : String) × Has (dependencies_of a) d × Denotes x d

-- An action named `y` has a dependency that `x` denotes.
abbrev pub IsRequiredBy : CompiledGraph → String → String → Type 0
IsRequiredBy g x y =
    (a : CompileAction) × Elem a (all_actions g)
    × (name_of a ≡ y)
    × ((d : String) × Has (dependencies_of a) d × Denotes x d)

not-Has-nil : (y : String) → ¬ Has [] y
unfolding includes
not-Has-nil y h = cc

not-Elem-nil {ℓ} : {A : Type ℓ} {x : A} → ¬ Elem x []
not-Elem-nil e = elim e [ ]

-- The matches of a list of dependencies, whether or not it is empty.
pub dependency_matches :
    (patterns values out : List String)
    → (if ltb 0 (length patterns) then match_patterns patterns values else ok []) ≡ ok out
    → (y : String) → Has out y ↔ Has values y × DenotedBy patterns y
unfolding includes
dependency_matches [] values out e y = (
  λ h. absurd (not-Has-nil y (subst (λ l. Has l y) (sym (ok_injective e)) h)),
  λ h. absurd (not-Elem-nil h.1.1),
)
dependency_matches (p ∷ patterns) values out e y =
    match_patterns-eq-ok_iff (p ∷ patterns) values out (ground arith) y

pub dependency_names-Computes : (g : CompiledGraph) → Computes (dependency_names g) (Requires g)
unfolding dependency_names
dependency_names-Computes g x names e y = elim (Option-cases (action_by_name (all_actions g) x)) [
  | inl missing ↦ absurd (throw_ne_ok (rw (missing, dependency_names) at e))
  | inr (a, found) ↦
      let matched =
        dependency_matches (dependencies_of a) (all_action_names g) names
          (rw (found, dependency_names) at e) y in
      (
        λ h. let (listed, denoted) = matched.0 h in (a, found, listed, denoted),
        λ (b, found', listed, denoted). matched.1 (
          listed,
          subst (λ c. DenotedBy (dependencies_of c) y) (some_cancel (sym found' ∙ found)) denoted,
        ),
      )
]

nonempty_Has : (found : List String) → ltb 0 (length found) ≡ true → (d : String) × Has found d
unfolding includes
nonempty_Has [] h = absurd (omega (arith, ltb→lt 0 0 h))
nonempty_Has (d ∷ found) h = (d, ground (arith, eq_self d))

Has-nonempty : (found : List String) (d : String) → Has found d → ltb 0 (length found) ≡ true
unfolding includes
Has-nonempty [] d h = cc
Has-nonempty (x ∷ found) d h = ground arith

Meets-iff :
    (x : String) (a : CompileAction) (found : List String)
    → match_patterns (x ∷ []) (dependencies_of a) ≡ ok found
    → (ltb 0 (length found) ≡ true) ↔ Meets x a
Meets-iff x a found e = (to, from)
  where
    one : (p d : String) → Elem p (x ∷ []) → Denotes p d → Denotes x d
    one p d (here same) h = subst (λ q. Denotes q d) same h
    one p d (there m) h = absurd (not-Elem-nil m)

    to : ltb 0 (length found) ≡ true → Meets x a
    to h =
        let (d, m) = nonempty_Has found h in
        let (listed, (p, e', denoted)) =
          (match_patterns-eq-ok_iff (x ∷ []) (dependencies_of a) found e d).0 m in
        (d, listed, one p d e' denoted)

    from : Meets x a → ltb 0 (length found) ≡ true
    from (d, listed, denoted) = Has-nonempty found d (
        (match_patterns-eq-ok_iff (x ∷ []) (dependencies_of a) found e d).1
          (listed, (x, here refl, denoted)))

abbrev IsDependent : List CompileAction → String → String → Type 0
IsDependent actions x y = (a : CompileAction) × Elem a actions × (name_of a ≡ y) × Meets x a

IsDependent-cons :
    (action : CompileAction) (actions : List CompileAction) (x y : String)
    → IsDependent (action ∷ actions) x y
      ↔ ((name_of action ≡ y) × Meets x action ⊎ IsDependent actions x y)
IsDependent-cons action actions x y = (to, from)
  where
    to :
        IsDependent (action ∷ actions) x y
        → (name_of action ≡ y) × Meets x action ⊎ IsDependent actions x y
    to (a, here same, named, m) =
        inl (subst (λ b. name_of b ≡ y) same named, subst (λ b. Meets x b) same m)
    to (a, there e, named, m) = inr (a, e, named, m)

    from :
        (name_of action ≡ y) × Meets x action ⊎ IsDependent actions x y
        → IsDependent (action ∷ actions) x y
    from (inl (named, m)) = (action, here refl, named, m)
    from (inr (a, e, named, m)) = (a, there e, named, m)

-- A name that a test puts in front of the rest.
Has-if-cons_iff :
    {M D G : Type 0} (b : Bool) (name y : String) (rest : List String)
    → (b ≡ true) ↔ M
    → Has rest y ↔ D
    → G ↔ ((name ≡ y) × M ⊎ D)
    → Has (if b then name ∷ rest else rest) y ↔ G
unfolding includes
Has-if-cons_iff true name y rest met ih cons = (
  λ h. cons.1 (elim (eq-cases name y) [
    | inl (_, same) ↦ inl (same, met.0 refl)
    | inr (other, _) ↦ inr (ih.0 (ground arith))
  ]),
  λ g. elim (cons.0 g) [
    | inl (same, m) ↦ ground (arith, eq_iff name y)
    | inr d ↦ let h = ih.1 d in ground arith
  ],
)
Has-if-cons_iff false name y rest met ih cons = (
  λ h. cons.1 (inr (ih.0 h)),
  λ g. elim (cons.0 g) [ inl (same, m) ↦ absurd (false≢true (met.1 m)) | inr d ↦ ih.1 d ],
)

dependents_iff :
    (actions : List CompileAction) (x : String) (out : List String)
    → dependents actions x ≡ ok out
    → (y : String) → Has out y ↔ IsDependent actions x y
unfolding dependents includes
dependents_iff [] x out e y = (
  λ h. absurd (not-Has-nil y (subst (λ l. Has l y) (sym (ok_injective e)) h)),
  λ (a, m, same, d). absurd (not-Elem-nil m),
)
dependents_iff (action ∷ actions) x out e y =
    let (found, e1, e') = bind-eq-ok (match_patterns (x ∷ []) (dependencies_of action)) _ e in
    let (rest, e2, last) = bind-eq-ok (dependents actions x) _ e' in
    step found rest (Meets-iff x action found e1) (dependents_iff actions x rest e2 y)
      (ok_injective last)
  where
    step :
        (found rest : List String)
        → (ltb 0 (length found) ≡ true) ↔ Meets x action
        → Has rest y ↔ IsDependent actions x y
        → (if ltb 0 (length found) then name_of action ∷ rest else rest) ≡ out
        → Has out y ↔ IsDependent (action ∷ actions) x y
    step found rest met ih same =
        subst (λ l. Has l y ↔ IsDependent (action ∷ actions) x y) same
          (Has-if-cons_iff (ltb 0 (length found)) (name_of action) y rest met ih
            (IsDependent-cons action actions x y))

pub dependent_names-Computes : (g : CompiledGraph) → Computes (dependent_names g) (IsRequiredBy g)
unfolding dependent_names
dependent_names-Computes g x names e y = dependents_iff (all_actions g) x names e y
