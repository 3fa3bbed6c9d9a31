-- ===== src/Prune/Outcome.antt =====
-- api/commands/prune.ts: pruning always ends, and its only failure is an ambiguous name.
use mathlib.Core.Bool.{false≢true}
use dataform.Prelude.{
  reverse, includes-reverse, String, Bool, true, false, not, ◌&&◌, ◌≡◌, ◌≢◌, refl, sym, ◌∙◌, subst,
  inl, inr, List, [], ◌∷◌, map, eq_self, none, Option-cases, if◌then◌else◌, ltb, length, Elem, here,
  there, includes, Has, Error, Result, ok, throw, throw_ne_ok, out_of_fuel, ◌>>=◌, arith,
}
use dataform.Proto.{CompiledGraph, RunConfig}
use dataform.Names.{match_patterns}
use dataform.Names.Patterns.{
  IsAmbiguousName, match_patterns-eq-throw, match_patterns-ne-out_of_fuel,
}
use dataform.Prune.Selection.{IsSelected, select_actions_iff, loop_iff}
use dataform.Prune.Worklist.Closure.{Reach, given, next}
use dataform.Prune.Worklist.Ending.{
  IsBounded, missing-le-length, expand-ne-out_of_fuel, expand-eq-throw,
}
use dataform.Prune.Edges.{
  Requires, IsRequiredBy, dependency_names-Computes, dependent_names-Computes,
}
use dataform.Prune.{
  CompileAction, name_of, dependencies_of, all_actions, action_by_name, all_action_names,
  dependency_names, dependents, dependent_names, has_action_selector, has_tag_selector,
  select_actions, expand_from, expand_selection, compute_included_action_names, prune,
}

-- The result is not "out of fuel", and what is thrown is the error on an ambiguous name.
pub record IsSafe {ℓ} {A : Type ℓ} (r : Result A) : Type ℓ where
  pub ends : r ≢ out_of_fuel
  pub throws : (err : Error) → r ≡ throw err → IsAmbiguousName err

IsSafe-ok {ℓ} : {A : Type ℓ} (a : A) → IsSafe (ok a)
IsSafe-ok a = record { ends = cc; throws = λ err e. absurd (throw_ne_ok (sym e)) }

IsSafe-bind {ℓ κ} :
    {A : Type ℓ} {B : Type κ} (m : Result A) (f : A → Result B)
    → IsSafe m
    → ((a : A) → m ≡ ok a → IsSafe (f a))
    → IsSafe (m >>= f)
IsSafe-bind (ok a) f s h = h a refl
IsSafe-bind (throw e) f s h = record { ends = cc; throws = λ err e'. s.throws err cc }
IsSafe-bind out_of_fuel f s h = absurd (s.ends refl)

IsSafe-if {ℓ} :
    {A : Type ℓ} (b : Bool) (x y : Result A) → IsSafe x → IsSafe y → IsSafe (if b then x else y)
IsSafe-if true x y sx sy = sx
IsSafe-if false x y sx sy = sy

match_patterns-IsSafe : (patterns values : List String) → IsSafe (match_patterns patterns values)
match_patterns-IsSafe patterns values = record {
  ends = match_patterns-ne-out_of_fuel patterns values;
  throws = match_patterns-eq-throw patterns values;
}

action_by_name-Has :
    (actions : List CompileAction) (x : String)
    → action_by_name actions x ≡ none
    → includes (map name_of actions) x ≡ false
unfolding action_by_name includes
action_by_name-Has [] x e = refl
action_by_name-Has (a ∷ actions) x e = ground (arith, action_by_name-Has actions x)

dependency_names-IsSafe :
    (g : CompiledGraph) (x : String) → Has (all_action_names g) x → IsSafe (dependency_names g x)
unfolding dependency_names
dependency_names-IsSafe g x h = elim (Option-cases (action_by_name (all_actions g) x)) [
  | inl missing ↦ absurd (false≢true (sym (action_by_name-Has (all_actions g) x missing) ∙ h))
  | inr (a, found) ↦
      rw (found, dependency_names) (IsSafe-if _ _ _ (match_patterns-IsSafe _ _) (IsSafe-ok []))
]

dependents-IsSafe : (actions : List CompileAction) (x : String) → IsSafe (dependents actions x)
unfolding dependents
dependents-IsSafe [] x = IsSafe-ok []
dependents-IsSafe (a ∷ actions) x =
    IsSafe-bind (match_patterns (x ∷ []) (dependencies_of a)) _ (match_patterns-IsSafe _ _)
      λ found _.
        IsSafe-bind (dependents actions x) _ (dependents-IsSafe actions x) λ rest _. IsSafe-ok _

dependency_names-ne-out_of_fuel :
    (g : CompiledGraph) (x : String) → dependency_names g x ≢ out_of_fuel
unfolding dependency_names
dependency_names-ne-out_of_fuel g x = elim (Option-cases (action_by_name (all_actions g) x)) [
  | inl missing ↦ rw (missing, dependency_names) (cc)
  | inr (a, found) ↦
      rw (found, dependency_names)
        (IsSafe-if (ltb 0 (length (dependencies_of a))) _ _
          (match_patterns-IsSafe (dependencies_of a) (all_action_names g)) (IsSafe-ok [])).ends
]

map-Has :
    (actions : List CompileAction) (a : CompileAction)
    → Elem a actions
    → Has (map name_of actions) (name_of a)
unfolding includes
map-Has [] a e = elim e [ ]
map-Has (b ∷ actions) a (here same) = rw same (ground (arith, eq_self (name_of b)))
map-Has (b ∷ actions) a (there e) = ground (arith, map-Has actions a e)

module _ (g : CompiledGraph) where
  abbrev names : List String
  names = all_action_names g

  Requires-listed : (x y : String) → Requires g x y → Has names y
  Requires-listed x y (a, found, listed, d) = listed

  IsRequiredBy-listed : (x y : String) → IsRequiredBy g x y → Has names y
  IsRequiredBy-listed x y (a, e, named, m) =
      subst (λ n. Has names n) named (map-Has (all_actions g) a e)

  dependency_names-IsBounded : IsBounded names (dependency_names g)
  dependency_names-IsBounded = record {
    within = λ x found e y h. Requires-listed x y ((dependency_names-Computes g x found e y).0 h);
    computed = dependency_names-ne-out_of_fuel g;
  }

  dependent_names-IsSafe : (x : String) → IsSafe (dependent_names g x)
  unfolding dependent_names
  dependent_names-IsSafe x = dependents-IsSafe (all_actions g) x

  dependent_names-IsBounded : IsBounded names (dependent_names g)
  dependent_names-IsBounded = record {
    within =
        λ x found e y h. IsRequiredBy-listed x y ((dependent_names-Computes g x found e y).0 h);
    computed = λ x. (dependent_names-IsSafe x).ends;
  }

  expand_from-IsSafe :
      (neighbours : String → Result (List String)) (start : List String)
      → IsBounded names neighbours
      → ((x : String) → Has names x → IsSafe (neighbours x))
      → ((x : String) → Has start x → Has names x)
      → IsSafe (expand_from g neighbours start)
  unfolding expand_from
  expand_from-IsSafe neighbours start b safe listed = record {
    ends =
        expand-ne-out_of_fuel names neighbours b _ (reverse start) start
          (omega (arith, missing-le-length names start));
    throws = λ err e.
        let (x, h, e') =
          expand-eq-throw names neighbours b _ (reverse start) start err
            (λ x h. listed x (ground (arith, includes-reverse start x))) e in
        (safe x h).throws err e';
  }

  Reach-listed :
      (R : String → String → Type 0) (P : String → Type 0)
      → ((x y : String) → R x y → Has names y)
      → ((x : String) → P x → Has names x)
      → {x : String} → Reach R P x
      → Has names x
  Reach-listed R P steps starts (given {x = y} p) = starts y p
  Reach-listed R P steps starts (next {x} {y} r s) = steps x y s

  expand_selection-IsSafe :
      (c : RunConfig) (selected : List String)
      → ((x : String) → Has selected x → Has names x)
      → IsSafe (expand_selection g c selected)
  unfolding expand_selection
  expand_selection-IsSafe c selected listed =
      IsSafe-bind
        (if c.include_dependencies
          then expand_from g (dependency_names g) selected
          else ok selected)
        _
        (IsSafe-if c.include_dependencies _ _
          (expand_from-IsSafe (dependency_names g) selected dependency_names-IsBounded
            (dependency_names-IsSafe g) listed)
          (IsSafe-ok selected))
        λ above e.
          IsSafe-if c.include_dependents _ _
            (expand_from-IsSafe (dependent_names g) above dependent_names-IsBounded
              (λ x _. dependent_names-IsSafe x)
              (λ x h.
                Reach-listed _ _ (λ a b s. Requires-listed a b s.1) listed
                  ((loop_iff g c.include_dependencies (dependency_names g) (Requires g) selected
                      above (dependency_names-Computes g) e x).0
                    h)))
            (IsSafe-ok above)

  select_actions-IsSafe : (c : RunConfig) → IsSafe (select_actions g c)
  unfolding select_actions
  select_actions-IsSafe c =
      IsSafe-bind (if has_action_selector c then match_patterns c.actions names else ok []) _
        (IsSafe-if (has_action_selector c) _ _ (match_patterns-IsSafe _ _) (IsSafe-ok []))
        λ named e. IsSafe-ok _

  IsSelected-listed : (c : RunConfig) (x : String) → IsSelected g c x → Has names x
  IsSelected-listed c x (inl (h, d)) = h
  IsSelected-listed c x (inr (a, e, named, t)) =
      subst (λ n. Has names n) named (map-Has (all_actions g) a e)

  compute-IsSafe : (c : RunConfig) → IsSafe (compute_included_action_names g c)
  unfolding compute_included_action_names
  compute-IsSafe c =
      IsSafe-if (not (has_action_selector c) && not (has_tag_selector c)) _ _ (IsSafe-ok _) (
        IsSafe-bind (select_actions g c) _ (select_actions-IsSafe c) λ selected e.
          IsSafe-bind (expand_selection g c selected) _
            (expand_selection-IsSafe c selected
              (λ x h. IsSelected-listed c x ((select_actions_iff g c selected e x).0 h)))
            λ expanded e'. IsSafe-ok _)

-- `prune` always returns a graph or throws the error on an ambiguous name: its loops end, and no
-- action that it looks up by name is missing.
pub prune-IsSafe : (g : CompiledGraph) (c : RunConfig) → IsSafe (prune g c)
unfolding prune
prune-IsSafe g c =
    IsSafe-bind (compute_included_action_names g c) _ (compute-IsSafe g c) λ included e. IsSafe-ok _
