-- ===== src/Prune/Selection.antt =====
-- api/commands/prune.ts: which names the selectors and the two loops include, as a relation.
use mathlib.Core.Logic.{◌⊎◌}
use mathlib.Core.Bool.{false≢true}
use dataform.Prelude.{
  reverse, includes-reverse, map-filter_iff, ◌+◌, String, Bool, true, false, ◌≡◌, refl, sym, ◌∙◌,
  subst, inl, inr, ◌↔◌, List, [], ◌∷◌, map, Bool-cases, if◌then◌else◌, ltb, length, filter, any,
  Elem, includes, Has, add_all, includes-add_all, Result, ok, bind-eq-ok, ok_injective, arith,
}
use dataform.Proto.{CompiledGraph, RunConfig}
use dataform.Names.{match_patterns}
use dataform.Names.Patterns.{DenotedBy}
use dataform.Prune.Worklist.Closure.{Reach, given, next, Reach-map, Computes, expand-Reach_iff}
use dataform.Prune.Edges.{
  dependency_matches, Requires, IsRequiredBy, dependency_names-Computes, dependent_names-Computes,
}
use dataform.Prune.{
  CompileAction, name_of, tags_of, all_actions, all_action_names, dependency_names, dependent_names,
  has_action_selector, has_tag_selector, is_tagged, select_actions, expand_from, expand_selection,
}

-- An action of that name carries a tag of the run configuration.
abbrev pub HasTag : CompiledGraph → RunConfig → String → Type 0
HasTag g c x =
    (a : CompileAction) × Elem a (all_actions g) × (name_of a ≡ x) × (is_tagged c a ≡ true)

-- What the selectors of a run configuration name.
abbrev pub IsSelected : CompiledGraph → RunConfig → String → Type 0
IsSelected g c x = Has (all_action_names g) x × DenotedBy c.actions x ⊎ HasTag g c x

-- The steps that a run configuration asks for.
abbrev pub DependencyStep : CompiledGraph → RunConfig → String → String → Type 0
DependencyStep g c x y = (c.include_dependencies ≡ true) × Requires g x y

abbrev pub DependentStep : CompiledGraph → RunConfig → String → String → Type 0
DependentStep g c x y = (c.include_dependents ≡ true) × IsRequiredBy g x y

reverse-Has : (xs : List String) (x : String) → Has (reverse xs) x ↔ Has xs x
reverse-Has xs x = ground (arith, includes-reverse xs x)

-- One of the loops, under its flag.
pub loop_iff :
    (g : CompiledGraph) (flag : Bool) (neighbours : String → Result (List String))
    (R : String → String → Type 0) (start out : List String)
    → Computes neighbours R
    → (if flag then expand_from g neighbours start else ok start) ≡ ok out
    → (x : String) → Has out x ↔ Reach (λ a b. (flag ≡ true) × R a b) (Has start) x
unfolding expand_from
loop_iff g true neighbours R start out steps e x =
    let r =
      expand-Reach_iff neighbours R steps (length (reverse start) + length (all_action_names g))
        (reverse start) start out (reverse-Has start) e x in
    (
      λ h. Reach-map (λ a b s. (refl, s)) (λ a k. k) (r.0 h),
      λ h. r.1 (Reach-map (λ a b s. s.1) (λ a k. k) h),
    )
loop_iff g false neighbours R start out steps e x =
    (λ h. given (subst (λ l. Has l x) (sym (ok_injective e)) h), stay)
  where
    stay : Reach (λ a b. (false ≡ true) × R a b) (Has start) x → Has out x
    stay (given h) = subst (λ l. Has l x) (ok_injective e) h
    stay (next r s) = absurd (false≢true s.0)

-- When the two loops return, they include exactly what dependency steps from the selected names lead
-- to, and then dependent steps from those, each kind of step only if the run configuration asks for it.
pub expand_selection_iff :
    (g : CompiledGraph) (c : RunConfig) (selected out : List String)
    → expand_selection g c selected ≡ ok out
    → (x : String)
    → Has out x ↔ Reach (DependentStep g c) (Reach (DependencyStep g c) (Has selected)) x
unfolding expand_selection
expand_selection_iff g c selected out e x =
    let (above, e1, e2) =
      bind-eq-ok
        (if c.include_dependencies
          then expand_from g (dependency_names g) selected
          else ok selected)
        _ e in
    let r =
      loop_iff g c.include_dependents (dependent_names g) (IsRequiredBy g) above out
        (dependent_names-Computes g) e2 x in
    let start =
      loop_iff g c.include_dependencies (dependency_names g) (Requires g) selected above
        (dependency_names-Computes g) e1 in
    (
      λ h. Reach-map (λ a b s. s) (λ a. (start a).0) (r.0 h),
      λ h. r.1 (Reach-map (λ a b s. s) (λ a. (start a).1) h),
    )

no_tags :
    (wanted tags : List String)
    → ltb 0 (length wanted) ≡ false
    → any (λ tag. includes wanted tag) tags ≡ false
unfolding includes
no_tags [] [] h = refl
no_tags [] (t ∷ tags) h = ground (arith, no_tags [] tags)
no_tags (w ∷ wanted) tags h = ground arith

named_iff :
    (g : CompiledGraph) (actions named : List String)
    → (if ltb 0 (length actions) then match_patterns actions (all_action_names g) else ok [])
      ≡ ok named
    → (x : String) → Has named x ↔ Has (all_action_names g) x × DenotedBy actions x
named_iff g actions named e x = dependency_matches actions (all_action_names g) named e x

tagged_iff :
    (g : CompiledGraph) (c : RunConfig) (x : String)
    → Has (if has_tag_selector c then map name_of (filter (is_tagged c) (all_actions g)) else []) x
      ↔ HasTag g c x
unfolding includes
tagged_iff g c x = elim (Bool-cases (has_tag_selector c)) [
  | inl some_tag ↦ rw some_tag (map-filter_iff name_of (is_tagged c) (all_actions g) x)
  | inr none_given ↦ rw none_given (
    λ h. cc,
    λ (a, e, named, tagged).
        absurd (false≢true (sym (no_tags c.tags (tags_of a) none_given) ∙ tagged)),
  )
]

-- The selectors include exactly the actions that a pattern of the run configuration denotes, and
-- those that carry one of its tags.
pub select_actions_iff :
    (g : CompiledGraph) (c : RunConfig) (selected : List String)
    → select_actions g c ≡ ok selected
    → (x : String) → Has selected x ↔ IsSelected g c x
unfolding select_actions includes
select_actions_iff g c selected e x =
    let (named, e1, e2) =
      bind-eq-ok
        (if has_action_selector c then match_patterns c.actions (all_action_names g) else ok []) _
        e in
    let tagged =
      (if has_tag_selector c then map name_of (filter (is_tagged c) (all_actions g)) else []) in
    let n = named_iff g c.actions named e1 x in
    let t = tagged_iff g c x in
    subst (λ l. Has l x ↔ IsSelected g c x) (ok_injective e2)
      (ground
        (arith, n, t, includes-add_all (add_all [] named) tagged x, includes-add_all [] named x))
