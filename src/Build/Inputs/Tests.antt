-- ===== src/Build/Inputs/Tests.antt =====
-- Small inputs for the transitive inputs: a table that reads a view that reads a declaration.
use dataform.Prelude.{
  includes, ℕ, ◌<◌, ◌≡◌, refl, sym, if◌then◌else◌, String, Bool, true, false, ◌==◌, List, [], ◌∷◌,
  some, Elem, here, there, subst, ok, arith,
}
use dataform.Stringified.{StringifiedSet, get}
use dataform.Stringified.Written.{key, key-IsFaithful}
use mathlib.Core.Bool.{false≢true}
use dataform.Names.{is_dot}
use dataform.Proto.{Target, Table, CompiledGraph}
use dataform.Build.Inputs.{
  Action, table, declaration, dependency_targets_of, is_source, Inputs, actions_by_target,
  compute_all_transitive_inputs, executed_actions, combine_all_actions,
}
use dataform.Build.Inputs.Sets.{Holds}
use dataform.Build.Inputs.Relation.{IsInput}
use dataform.Build.Inputs.Laws.{IsIndexed}
use dataform.Build.Inputs.Whole.{compute_all_transitive_inputs-eq-ok}
use dataform.Build.Inputs.Ending.{Returns, compute_all_transitive_inputs-Returns}

abbrev target : String → Target
target name = record { database = ""; schema = ""; name = name }

abbrev table_of : String → String → List Target → Table
table_of name type inputs = record {
  target = target name;
  name = name;
  type = type;
  tags = [];
  dependencies = [];
  dependency_targets = inputs;
}

abbrev graph : CompiledGraph
graph = record {
  tables = table_of "b" "table" (target "a" ∷ []) ∷ table_of "a" "view" (target "d" ∷ []) ∷ [];
  operations = [];
  assertions = [];
  declarations = record { target = target "d" } ∷ [];
  dataform_core_version = "1.6.11";
}

abbrev rank : Action → ℕ
rank (table t) = if t.type == "view" then 1 else 2
rank a = 0

abbrev is_new : String → Bool
is_new version = true

graph_new : (graph.dataform_core_version == "") ≡ false
graph_new = refl

graph-IsIndexed :
    (a : Action) → Elem a (executed_actions graph) → IsIndexed key (actions_by_target key graph) a
unfolding executed_actions actions_by_target get is_dot
graph-IsIndexed a (here same) = subst (IsIndexed key (actions_by_target key graph)) (sym same) refl
graph-IsIndexed a (there (here same)) =
    subst (IsIndexed key (actions_by_target key graph)) (sym same) refl
graph-IsIndexed a (there (there e)) = elim e [ ]

graph_ranked : (a : Action) → Elem a (executed_actions graph) → rank a < 3
unfolding executed_actions
graph_ranked a (here same) = subst (λ b. rank b < 3) (sym same) (omega arith)
graph_ranked a (there (here same)) = subst (λ b. rank b < 3) (sym same) (omega arith)
graph_ranked a (there (there e)) = elim e [ ]

graph_present :
    (a : Action) (t : Target)
    → Elem a (combine_all_actions graph)
    → Elem t (dependency_targets_of a)
    → (b : Action) × (get key t (actions_by_target key graph) ≡ some b)
      × (is_source b ≡ false → rank b < rank a)
unfolding combine_all_actions actions_by_target get is_dot
graph_present a t (here same) e = from_b t (subst (λ c. Elem t (dependency_targets_of c)) same e)
  where
    from_b :
        (u : Target)
        → Elem u (target "a" ∷ [])
        → (b : Action) × (get key u (actions_by_target key graph) ≡ some b)
          × (is_source b ≡ false → rank b < rank a)
    from_b u (here is_a) = (
      table (table_of "a" "view" (target "d" ∷ [])),
      subst
          (λ v.
            get key v (actions_by_target key graph)
            ≡ some (table (table_of "a" "view" (target "d" ∷ []))))
          (sym is_a) refl,
      λ follow. subst (λ c. 1 < rank c) (sym same) (omega arith),
    )
    from_b u (there none_left) = elim none_left [ ]
graph_present a t (there (here same)) e =
    from_a t (subst (λ c. Elem t (dependency_targets_of c)) same e)
  where
    from_a :
        (u : Target)
        → Elem u (target "d" ∷ [])
        → (b : Action) × (get key u (actions_by_target key graph) ≡ some b)
          × (is_source b ≡ false → rank b < rank a)
    from_a u (here is_d) = (
      declaration (record { target = target "d" }),
      subst
          (λ v.
            get key v (actions_by_target key graph)
            ≡ some (declaration (record { target = target "d" })))
          (sym is_d) refl,
      λ follow. absurd (false≢true (sym follow)),
    )
    from_a u (there none_left) = elim none_left [ ]
graph_present a t (there (there (here same))) e =
    elim (subst (λ c. Elem t (dependency_targets_of c)) same e) [ ]
graph_present a t (there (there (there none_left))) e = elim none_left [ ]

b_listed : Elem (table (table_of "b" "table" (target "a" ∷ []))) (executed_actions graph)
unfolding executed_actions
b_listed = here refl

compute_all_transitive_inputs-Returns_example :
    Returns (compute_all_transitive_inputs key is_new 3 graph)
compute_all_transitive_inputs-Returns_example =
    compute_all_transitive_inputs-Returns key key-IsFaithful is_new 3 graph rank graph-IsIndexed
      graph_ranked graph_present

abbrev text : String → String
text name = key.stringify (target name)

abbrev returned : Inputs
returned = record {
  entries =
      (text "a", record { members = text "d" ∷ [] })
      ∷ (text "b", record { members = text "a" ∷ text "d" ∷ [] })
      ∷ [];
}

returns : compute_all_transitive_inputs key is_new 3 graph ≡ ok returned
unfolding compute_all_transitive_inputs is_dot includes
returns = refl

compute_all_transitive_inputs-eq-ok_example :
    (s : StringifiedSet) × (get key (target "b") returned ≡ some s)
    × Holds key s
        (IsInput key (actions_by_target key graph) (table (table_of "b" "table" (target "a" ∷ []))))
compute_all_transitive_inputs-eq-ok_example =
    compute_all_transitive_inputs-eq-ok key key-IsFaithful is_new 3 graph returned graph_new refl
      graph-IsIndexed returns (table (table_of "b" "table" (target "a" ∷ []))) b_listed
