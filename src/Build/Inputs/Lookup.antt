-- ===== src/Build/Inputs/Lookup.antt =====
-- api/utils/graphs.ts: what `actionsByTarget` finds.
use dataform.Prelude.{
  ◌≡◌, sym, ap, ◌∙◌, ◌⊎◌, inl, inr, String, eq-cases, List, [], ◌∷◌, map, some, some_cancel, Elem,
  here, there,
}
use dataform.Stringified.{Stringifier, get_entry, set_entry, set_entries, map_of, get}
use dataform.Stringified.Laws.{IsFaithful, get_entry-set_entry}
use dataform.Proto.{Target, CompiledGraph}
use dataform.Build.Inputs.{Action, target_of, actions_by_target, combine_all_actions}

set_entries-found {ℓ} :
    {V : Type ℓ} (given m : List (String × V)) (k : String) (v : V)
    → get_entry k (set_entries m given) ≡ some v
    → (get_entry k m ≡ some v) ⊎ Elem (k, v) given
unfolding set_entries
set_entries-found [] m k v e = inl e
set_entries-found ((j, w) ∷ given) m k v e =
    elim (set_entries-found given (set_entry j w m) k v e) [
      | inr later ↦ inr (there later)
      | inl now ↦
          let now' = sym (get_entry-set_entry j k w m) ∙ now in
          elim (eq-cases j k) [
            | inl (eq, same) ↦ let h = (rw eq at now') in inr (here (cc (same, some_cancel h)))
            | inr (ne, _) ↦ inl (rw ne at now')
          ]
    ]

keyed-target :
    (key : Stringifier Target) (actions : List Action) (k : String) (a : Action)
    → Elem {A = String × Action}
        (k, a)
        (map {A = Target × Action}
          (λ e. (key.stringify e.0, e.1))
          (map (λ b. (target_of b, b)) actions))
    → key.stringify (target_of a) ≡ k
keyed-target key [] k a e = elim e [ ]
keyed-target key (b ∷ actions) k a (here same) =
    ap (λ c. key.stringify (target_of c)) (ap (λ p. p.1) same) ∙ sym (ap (λ p. p.0) same)
keyed-target key (b ∷ actions) k a (there e) = keyed-target key actions k a e

-- An action is found under its own target.
pub actions_by_target_consistent :
    (key : Stringifier Target) (g : CompiledGraph)
    → IsFaithful key
    → (t : Target) (b : Action) → get key t (actions_by_target key g) ≡ some b
    → target_of b ≡ t
unfolding get actions_by_target map_of
actions_by_target_consistent key g faithful t b e =
    elim (set_entries-found
      (map (λ p. (key.stringify p.0, p.1)) (map (λ a. (target_of a, a)) (combine_all_actions g))) []
      (key.stringify t) b e) [
        | inl none_there ↦ cc
        | inr found ↦
            sym (faithful (target_of b))
            ∙ ap key.parse (keyed-target key (combine_all_actions g) (key.stringify t) b found)
            ∙ faithful t
      ]

keyed-Elem :
    (key : Stringifier Target) (actions : List Action) (k : String) (a : Action)
    → Elem {A = String × Action}
        (k, a)
        (map {A = Target × Action}
          (λ e. (key.stringify e.0, e.1))
          (map (λ b. (target_of b, b)) actions))
    → Elem a actions
keyed-Elem key [] k a e = elim e [ ]
keyed-Elem key (b ∷ actions) k a (here same) = here (ap (λ p. p.1) same)
keyed-Elem key (b ∷ actions) k a (there e) = there (keyed-Elem key actions k a e)

-- What is found is an action of the graph.
pub actions_by_target-Elem :
    (key : Stringifier Target) (g : CompiledGraph) (t : Target) (b : Action)
    → get key t (actions_by_target key g) ≡ some b
    → Elem b (combine_all_actions g)
unfolding get actions_by_target map_of
actions_by_target-Elem key g t b e =
    elim (set_entries-found
      (map (λ p. (key.stringify p.0, p.1)) (map (λ a. (target_of a, a)) (combine_all_actions g))) []
      (key.stringify t) b e) [
        | inl none_there ↦ cc
        | inr found ↦ keyed-Elem key (combine_all_actions g) (key.stringify t) b found
      ]
