-- ===== src/Prune/Kept.antt =====
-- api/commands/prune.ts: what the pruned graph keeps.
use dataform.Prelude.{
  String, true, ◌||◌, ◌≡◌, refl, sym, ap, ◌∙◌, subst, ◌⊎◌, inl, inr, List, [], ◌∷◌, eq_self, some,
  Bool-cases, Option-cases, eq-cases, filter, Elem, here, there, includes, Has, includes-add, ok,
  ◌>>=◌, bind-eq-ok, ok_injective, arith,
}
use dataform.Proto.{Target, Assertion, CompiledGraph, RunConfig}
use dataform.Names.{target_to_name}
use dataform.Prune.Worklist.Closure.{Reach, Reach-map}
use dataform.Prune.Selection.{
  IsSelected, DependencyStep, DependentStep, select_actions_iff, expand_selection_iff,
}
use dataform.Prune.{
  has_action_selector, has_tag_selector, select_actions, expand_selection, add_auto_assertion,
  add_auto_assertions, compute_included_action_names, prune,
}

-- An assertion of that name checks an action whose name is in the set.
abbrev pub IsAutoAssertion : List Assertion → List String → String → Type 0
IsAutoAssertion assertions included x =
    (a : Assertion) × Elem a assertions
    × (target_to_name a.target ≡ x)
    × ((p : Target) × (a.parent_action ≡ some p) × Has included (target_to_name p))

IsAutoAssertion-cons :
    (a : Assertion) (assertions : List Assertion) (s : List String) (x : String)
    → IsAutoAssertion assertions s x
    → IsAutoAssertion (a ∷ assertions) s x
IsAutoAssertion-cons a assertions s x (b, e, named, parent) = (b, there e, named, parent)

includes-add_auto_assertion :
    (s : List String) (a : Assertion) (x : String) → Has s x → Has (add_auto_assertion s a) x
unfolding add_auto_assertion
includes-add_auto_assertion s a x h = elim (Option-cases a.parent_action) [
  | inl none_given ↦ rw (none_given, add_auto_assertion) h
  | inr (p, e) ↦
      rw (e, add_auto_assertion) (ground (arith, includes-add s (target_to_name a.target) x))
]

add_auto_assertion-new :
    (s : List String) (a : Assertion) (x : String)
    → Has (add_auto_assertion s a) x
    → Has s x ⊎ IsAutoAssertion (a ∷ []) s x
unfolding add_auto_assertion
add_auto_assertion-new s a x h = elim (Option-cases a.parent_action) [
  | inl none_given ↦ inl (rw (none_given, add_auto_assertion) at h)
  | inr (p, e) ↦ elim (Bool-cases (includes s (target_to_name p))) [
    | inl kept ↦ elim (eq-cases (target_to_name a.target) x) [
      | inl (_, same) ↦ inr (a, here refl, same, (p, e, kept))
      | inr (other, _) ↦
          let h' = (rw (e, add_auto_assertion) at h) in
          inl (ground (arith, includes-add s (target_to_name a.target) x))
    ]
    | inr dropped ↦ let h' = (rw (e, add_auto_assertion) at h) in inl (ground arith)
  ]
]

add_auto_assertion_kept :
    (s : List String) (a : Assertion) (p : Target)
    → a.parent_action ≡ some p
    → Has s (target_to_name p)
    → Has (add_auto_assertion s a) (target_to_name a.target)
unfolding add_auto_assertion
add_auto_assertion_kept s a p e h =
    rw (e, add_auto_assertion)
      (ground (
        arith,
        includes-add s (target_to_name a.target) (target_to_name a.target),
        eq_self (target_to_name a.target),
      ))

includes-add_auto_assertions :
    (assertions : List Assertion) (s : List String) (x : String)
    → Has s x
    → Has (add_auto_assertions s assertions) x
unfolding add_auto_assertions
includes-add_auto_assertions [] s x h = h
includes-add_auto_assertions (a ∷ assertions) s x h =
    includes-add_auto_assertions assertions (add_auto_assertion s a) x
      (includes-add_auto_assertion s a x h)

add_auto_assertions_kept :
    (assertions : List Assertion) (s : List String) (x : String)
    → IsAutoAssertion assertions s x
    → Has (add_auto_assertions s assertions) x
unfolding add_auto_assertions
add_auto_assertions_kept [] s x (a, e, named, parent) = elim e [ ]
add_auto_assertions_kept (a ∷ assertions) s x (b, here same, named, (p, parent, h)) =
    includes-add_auto_assertions assertions (add_auto_assertion s a) x (
      subst (λ n. Has (add_auto_assertion s a) n)
        (ap (λ c. target_to_name c.target) (sym same) ∙ named)
        (add_auto_assertion_kept s a p (ap (λ c. c.parent_action) (sym same) ∙ parent) h))
add_auto_assertions_kept (a ∷ assertions) s x (b, there e, named, (p, parent, h)) =
    add_auto_assertions_kept assertions (add_auto_assertion s a) x
      (b, e, named, (p, parent, includes-add_auto_assertion s a (target_to_name p) h))

add_auto_assertions-new :
    (assertions : List Assertion) (s : List String) (x : String)
    → Has (add_auto_assertions s assertions) x
    → Has s x ⊎ IsAutoAssertion assertions (add_auto_assertions s assertions) x
unfolding add_auto_assertions
add_auto_assertions-new [] s x h = inl h
add_auto_assertions-new (a ∷ assertions) s x h =
    let after = add_auto_assertion s a in
    elim (add_auto_assertions-new assertions after x h) [
      | inr later ↦ inr (IsAutoAssertion-cons a assertions _ x later)
      | inl now ↦ elim (add_auto_assertion-new s a x now) [
        | inl old ↦ inl old
        | inr (b, e, named, (p, parent, k)) ↦ inr (
          b,
          widen b e,
          named,
          (
            p,
            parent,
            includes-add_auto_assertions assertions after (target_to_name p)
                (includes-add_auto_assertion s a (target_to_name p) k),
          ),
        )
      ]
    ]
  where
    widen : (b : Assertion) → Elem b (a ∷ []) → Elem b (a ∷ assertions)
    widen b (here same) = here same
    widen b (there e) = elim e [ ]

-- The names that the selectors and the two loops lead to.
abbrev pub IsIncluded : CompiledGraph → RunConfig → String → Type 0
IsIncluded g c x = Reach (DependentStep g c) (Reach (DependencyStep g c) (IsSelected g c)) x

-- How the pruned graph comes from the names that are kept.
pub record IsPruning (g : CompiledGraph) (c : RunConfig) (pruned : CompiledGraph) : Type 0 where
  pub included : List String
  pub reached : (x : String) → IsIncluded g c x → Has included x
  pub checked :
      (a : Assertion) (p : Target)
      → Elem a g.assertions
      → a.parent_action ≡ some p
      → IsIncluded g c (target_to_name p)
      → Has included (target_to_name a.target)
  pub nothing_else :
      (x : String) → Has included x → IsIncluded g c x ⊎ IsAutoAssertion g.assertions included x
  pub tables : pruned.tables ≡ filter (λ t. includes included t.name) g.tables
  pub operations : pruned.operations ≡ filter (λ o. includes included o.name) g.operations
  pub assertions : pruned.assertions ≡ filter (λ a. includes included a.name) g.assertions

-- With a selector, pruning keeps the actions whose names the selectors and the asked-for dependency
-- and dependent steps lead to, the assertions on such actions, and beyond these only assertions on
-- kept actions.
pub prune-IsPruning :
    (g : CompiledGraph) (c : RunConfig) (pruned : CompiledGraph)
    → has_action_selector c || has_tag_selector c ≡ true
    → prune g c ≡ ok pruned
    → IsPruning g c pruned
unfolding prune compute_included_action_names
prune-IsPruning g c pruned selector e =
    let (included, e1, e2) = bind-eq-ok (compute_included_action_names g c) _ e in
    let (selected, e3, e4) = bind-eq-ok (select_actions g c) _ (skip included e1) in
    let (expanded, e5, e6) = bind-eq-ok (expand_selection g c selected) _ e4 in
    from included selected expanded e3 e5 (ok_injective e6) (ok_injective e2)
  where
    skip :
        (included : List String)
        → compute_included_action_names g c ≡ ok included
        → (select_actions g c >>= λ selected. expand_selection g c selected >>= λ expanded.
            ok (add_auto_assertions expanded g.assertions))
          ≡ ok included
    skip included h = ground arith

    from :
        (included selected expanded : List String)
        → select_actions g c ≡ ok selected
        → expand_selection g c selected ≡ ok expanded
        → add_auto_assertions expanded g.assertions ≡ included
        → record g {
          tables = filter (λ t. includes included t.name) g.tables;
          operations = filter (λ o. includes included o.name) g.operations;
          assertions = filter (λ a. includes included a.name) g.assertions;
        }
          ≡ pruned
        → IsPruning g c pruned
    from included selected expanded e3 e5 auto same =
        let start = select_actions_iff g c selected e3 in
        let reach = expand_selection_iff g c selected expanded e5 in
        let to = λ (x : String) (h : IsIncluded g c x).
          (reach x).1 (Reach-map (λ a b s. s) (λ a. Reach-map (λ a b s. s) (λ b. (start b).1)) h) in
        record {
          included = included;
          reached = λ x h.
              subst (λ l. Has l x) auto
                (includes-add_auto_assertions g.assertions expanded x (to x h));
          checked = λ a p m parent h.
              subst (λ l. Has l (target_to_name a.target)) auto
                (add_auto_assertions_kept g.assertions expanded (target_to_name a.target)
                  (a, m, refl, (p, parent, to (target_to_name p) h)));
          nothing_else = λ x h.
              elim (add_auto_assertions-new g.assertions expanded x
                (subst (λ l. Has l x) (sym auto) h)) [
                  | inl old ↦ inl (
                      Reach-map (λ a b s. s) (λ a. Reach-map (λ a b s. s) (λ b. (start b).0))
                        ((reach x).0 old))
                  | inr a ↦ inr (subst (λ l. IsAutoAssertion g.assertions l x) auto a)
                ];
          tables = sym (ap (λ p. p.tables) same);
          operations = sym (ap (λ p. p.operations) same);
          assertions = sym (ap (λ p. p.assertions) same);
        }
