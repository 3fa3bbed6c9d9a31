-- ===== src/Run/Schemas/Laws.antt =====
-- api/commands/run.ts: which schemas are created.
use dataform.Prelude.{
  ◌≡◌, refl, sym, ap, subst, ◌⊎◌, inl, inr, ◌↔◌, String, Bool, true, false, not, ◌||◌, ◌&&◌, ◌==◌,
  eq_iff, Bool-cases, List, [], ◌∷◌, ◌++◌, map, filter, includes, includes-add, includes-filter,
  Elem, here, there, Elem-append, Elem-append_left, Elem-append_right, Has, arith,
}
use dataform.Names.{truthy}
use dataform.Proto.{ExecutionAction, ExecutionGraph}
use dataform.Run.Schemas.{
  true_database, add_schema, note_schemas, missing_schemas, prepare_all_schemas,
}

-- The schema is noted for the database.
abbrev is_noted : String → String → List (String × List String) → Bool
is_noted database schema [] = false
is_noted database schema ((d, schemas) ∷ noted) =
    d == database && includes schemas schema || is_noted database schema noted

is_noted-add_schema :
    (database schema d s : String) (noted : List (String × List String))
    → is_noted d s (add_schema database schema noted)
      ≡ (is_noted d s noted || database == d && schema == s)
unfolding add_schema includes
is_noted-add_schema database schema d s [] = ground arith
is_noted-add_schema database schema d s ((e, schemas) ∷ noted) = ground (
  arith,
  is_noted-add_schema database schema d s noted,
  includes-add schemas schema s,
  eq_iff e database,
  eq_iff e d,
  eq_iff database d,
)

-- An action of the list stands in the schema of the database.
abbrev pub IsUsed : String → List ExecutionAction → String → String → Type 0
IsUsed default actions d s =
    (a : ExecutionAction) × Elem a actions
    × (truthy a.target.schema ≡ true)
    × (true_database default a.target ≡ d)
    × (a.target.schema ≡ s)

IsUsed-cons :
    (default : String) (a : ExecutionAction) (actions : List ExecutionAction) (d s : String)
    → IsUsed default actions d s
    → IsUsed default (a ∷ actions) d s
IsUsed-cons default a actions d s (b, e, set, at, named) = (b, there e, set, at, named)

note_schemas_iff :
    (default : String) (actions : List ExecutionAction) (noted : List (String × List String))
    (d s : String)
    → (is_noted d s (note_schemas default actions noted) ≡ true)
      ↔ ((is_noted d s noted ≡ true) ⊎ IsUsed default actions d s)
unfolding note_schemas
note_schemas_iff default [] noted d s = (inl, only)
  where
    only : (is_noted d s noted ≡ true) ⊎ IsUsed default [] d s → is_noted d s noted ≡ true
    only (inl h) = h
    only (inr (a, e, set, at, named)) = elim e [ ]
note_schemas_iff default (a ∷ actions) noted d s = elim (Bool-cases (truthy a.target.schema)) [
  | inr unset ↦
      let rest = note_schemas_iff default actions noted d s in
      rw unset (λ h. later (rest.0 h), λ h. rest.1 (without unset h))
  | inl set ↦
      let database = true_database default a.target in
      let rest = note_schemas_iff default actions (add_schema database a.target.schema noted) d s in
      rw set (λ h. first set (rest.0 h), λ h. rest.1 (split set h))
]
  where
    later :
        (is_noted d s noted ≡ true) ⊎ IsUsed default actions d s
        → (is_noted d s noted ≡ true) ⊎ IsUsed default (a ∷ actions) d s
    later (inl h) = inl h
    later (inr u) = inr (IsUsed-cons default a actions d s u)

    without :
        truthy a.target.schema ≡ false
        → (is_noted d s noted ≡ true) ⊎ IsUsed default (a ∷ actions) d s
        → (is_noted d s noted ≡ true) ⊎ IsUsed default actions d s
    without unset (inl h) = inl h
    without unset (inr (b, here same, set, at, named)) =
        let t = subst (λ c. truthy c.target.schema ≡ true) same set in cc
    without unset (inr (b, there e, set, at, named)) = inr (b, e, set, at, named)

    first :
        truthy a.target.schema ≡ true
        → (is_noted d s (add_schema (true_database default a.target) a.target.schema noted) ≡ true)
          ⊎ IsUsed default actions d s
        → (is_noted d s noted ≡ true) ⊎ IsUsed default (a ∷ actions) d s
    first set (inr u) = inr (IsUsed-cons default a actions d s u)
    first set (inl h) = elim (Bool-cases (is_noted d s noted)) [
      | inl old ↦ inl old
      | inr new ↦
          let added =
            is_noted-add_schema (true_database default a.target) a.target.schema d s noted in
          inr (
            a,
            here refl,
            set,
            ground (arith, eq_iff (true_database default a.target) d),
            ground (arith, eq_iff a.target.schema s),
          )
    ]

    split :
        truthy a.target.schema ≡ true
        → (is_noted d s noted ≡ true) ⊎ IsUsed default (a ∷ actions) d s
        → (is_noted d s (add_schema (true_database default a.target) a.target.schema noted) ≡ true)
          ⊎ IsUsed default actions d s
    split set (inl h) =
        let added =
          is_noted-add_schema (true_database default a.target) a.target.schema d s noted in
        inl (ground arith)
    split set (inr (b, there e, k, at, named)) = inr (b, e, k, at, named)
    split set (inr (b, here same, k, at, named)) =
        let added =
          is_noted-add_schema (true_database default a.target) a.target.schema d s noted in
        let at' = subst (λ c. true_database default c.target ≡ d) same at in
        let named' = subst (λ c. c.target.schema ≡ s) same named in
        inl (ground (arith, eq_iff (true_database default a.target) d, eq_iff a.target.schema s))

paired_iff :
    (e d s : String) (schemas : List String)
    → Elem {A = String × String} (d, s) (map (λ x. (e, x)) schemas) ↔ ((e ≡ d) × Has schemas s)
unfolding includes
paired_iff e d s [] = (λ m. elim m [ ], λ h. cc)
paired_iff e d s (x ∷ schemas) = let rest = paired_iff e d s schemas in (to rest, from rest)
  where
    to :
        (Elem {A = String × String} (d, s) (map (λ y. (e, y)) schemas) ↔ ((e ≡ d) × Has schemas s))
        → Elem {A = String × String} (d, s) ((e, x) ∷ map (λ y. (e, y)) schemas)
        → (e ≡ d) × ((x == s || includes schemas s) ≡ true)
    to rest (here same) =
        let named = ap (λ (p : String × String). p.1) same in
        (ap (λ (p : String × String). p.0) (sym same), ground (arith, eq_iff x s))
    to rest (there m) = let h = rest.0 m in (h.0, ground arith)

    from :
        (Elem {A = String × String} (d, s) (map (λ y. (e, y)) schemas) ↔ ((e ≡ d) × Has schemas s))
        → (e ≡ d) × ((x == s || includes schemas s) ≡ true)
        → Elem {A = String × String} (d, s) ((e, x) ∷ map (λ y. (e, y)) schemas)
    from rest (same, h) = elim (Bool-cases (x == s)) [
      | inl now ↦ let named = (eq_iff x s).0 now in here (cc)
      | inr other ↦ there (rest.1 (same, ground arith))
    ]

missing_schemas_iff :
    (existing : String → List String) (noted : List (String × List String)) (d s : String)
    → Elem {A = String × String} (d, s) (missing_schemas existing noted)
      ↔ ((is_noted d s noted ≡ true) × (includes (existing d) s ≡ false))
unfolding missing_schemas
missing_schemas_iff existing [] d s = (λ m. elim m [ ], λ h. cc)
missing_schemas_iff existing ((e, schemas) ∷ noted) d s =
    let rest = missing_schemas_iff existing noted d s in (to rest, from rest)
  where
    to :
        (Elem {A = String × String} (d, s) (missing_schemas existing noted)
          ↔ ((is_noted d s noted ≡ true) × (includes (existing d) s ≡ false)))
        → Elem {A = String × String}
            (d, s)
            (map (λ x. (e, x)) (filter (λ x. not (includes (existing e) x)) schemas)
              ++ missing_schemas existing noted)
        → ((e == d && includes schemas s || is_noted d s noted) ≡ true)
          × (includes (existing d) s ≡ false)
    to others m =
        elim (Elem-append (map (λ x. (e, x)) (filter (λ x. not (includes (existing e) x)) schemas))
          (missing_schemas existing noted) m) [
            | inl here_now ↦
                let (same, h) =
                  (paired_iff e d s (filter (λ x. not (includes (existing e) x)) schemas)).0
                    here_now in
                let both = includes-filter (λ x. not (includes (existing e) x)) schemas s in
                let f = ap (λ x. includes (existing x) s) same in
                (ground (arith, eq_iff e d), ground arith)
            | inr rest ↦ let h = others.0 rest in (ground arith, h.1)
          ]

    from :
        (Elem {A = String × String} (d, s) (missing_schemas existing noted)
          ↔ ((is_noted d s noted ≡ true) × (includes (existing d) s ≡ false)))
        → ((e == d && includes schemas s || is_noted d s noted) ≡ true)
          × (includes (existing d) s ≡ false)
        → Elem {A = String × String}
            (d, s)
            (map (λ x. (e, x)) (filter (λ x. not (includes (existing e) x)) schemas)
              ++ missing_schemas existing noted)
    from others (h, new) = elim (Bool-cases (is_noted d s noted)) [
      | inl later ↦
          Elem-append_right
            (map (λ x. (e, x)) (filter (λ x. not (includes (existing e) x)) schemas))
            (others.1 (later, new))
      | inr never ↦
          let both = includes-filter (λ x. not (includes (existing e) x)) schemas s in
          let same : e ≡ d = ground (arith, eq_iff e d) in
          let f = ap (λ x. includes (existing x) s) same in
          Elem-append_left (missing_schemas existing noted) (
            (paired_iff e d s (filter (λ x. not (includes (existing e) x)) schemas)).1
              (same, ground arith))
    ]

-- A schema is created in a database exactly when an action of the graph stands in it (in the default
-- database, if its target names none) and the database does not have it.
pub prepare_all_schemas_iff :
    (existing : String → List String) (graph : ExecutionGraph) (d s : String)
    → Elem {A = String × String} (d, s) (prepare_all_schemas existing graph) ↔ (
        IsUsed graph.project_config.default_database graph.actions d s
        × (includes (existing d) s ≡ false))
unfolding prepare_all_schemas
prepare_all_schemas_iff existing graph d s = (to, from)
  where
    to :
        Elem {A = String × String}
          (d, s)
          (missing_schemas existing
            (note_schemas graph.project_config.default_database graph.actions []))
        → IsUsed graph.project_config.default_database graph.actions d s
          × (includes (existing d) s ≡ false)
    to m =
        let (h, new) =
          (missing_schemas_iff existing
              (note_schemas graph.project_config.default_database graph.actions []) d s).0
            m in
        (
          elim ((note_schemas_iff graph.project_config.default_database graph.actions [] d s).0 h) [
            | inl never ↦ cc
            | inr used ↦ used
          ],
          new,
        )

    from :
        IsUsed graph.project_config.default_database graph.actions d s
          × (includes (existing d) s ≡ false)
        → Elem {A = String × String}
            (d, s)
            (missing_schemas existing
              (note_schemas graph.project_config.default_database graph.actions []))
    from (used, new) =
        (missing_schemas_iff existing
            (note_schemas graph.project_config.default_database graph.actions []) d s).1
          (
            (note_schemas_iff graph.project_config.default_database graph.actions [] d s).1
                (inr used),
            new,
          )
