-- ===== src/Session/Compile/Consistent.antt =====
-- core/session.ts: what holds of a session that compiles without errors.
use dataform.Prelude.{
  ℕ, ◌≡◌, refl, ap, ◌∙◌, String, true, false, List, [], ◌∷◌, ◌++◌, map, All, ok, bind-eq-ok, subst,
  ok_injective, cons_ne_nil, if◌then◌else◌,
}
use dataform.Proto.Core.{SessionConfig}
use dataform.Session.{
  SessionAction, CompilationError, is_table, is_operation, is_assertion, is_declaration, error_at,
}
use dataform.Session.Checks.{
  check_action_name_uniqueness, check_test_name_uniqueness, check_canonical_target_uniqueness,
  check_run_caching_correctness, check_circularity, cycle_error, cycle_errors, vertex_of,
  SessionTest,
}
use dataform.Session.Checks.Unique.{
  AreDistinct, IsCacheable, uniqueness_iff, check_run_caching_correctness_iff,
}
use dataform.Session.Linking.{fully_qualify_dependencies}
use dataform.Session.Altering.{alter_action_name}
use dataform.Session.Sqlx.{reports}
use dataform.Session.Sqlx.Rules.{reports_iff}
use dataform.Session.Tables.{table_checks, check_table_config_validity}
use dataform.Session.Compile.{
  SessionState, CompiledSession, Engine, of_class, with_output, check_all, compile_linked, compile,
  compile_errors, chunk, compile_tests,
}

-- No check on the options of the table holds.
abbrev pub IsValidTable : (String → String) → SessionAction → Type 0
IsValidTable upper t = All (λ c. c.0 ≡ false) (table_checks upper t)

module _ (engine : Engine) (config : SessionConfig) where
  -- `altered` has the tables, assertions and operations with their final names.
  pub record IsConsistent (out : CompiledSession) : Type 0 where
    pub altered : List SessionAction
    pub tables_of : out.tables ≡ of_class is_table altered
    pub operations_of : out.operations ≡ of_class is_operation altered
    pub assertions_of : out.assertions ≡ of_class is_assertion altered
    pub names_differ : AreDistinct (map (λ a. a.name) (altered ++ out.declarations))
    pub test_names_differ : AreDistinct (map (λ t. t.name) out.tests)
    pub tables_valid : All (IsValidTable engine.upper) out.tables
    pub no_cycles : engine.get_cycles (map (vertex_of altered) altered) ≡ []
    pub cacheable :
        config.use_run_cache ≡ true → All IsCacheable (with_output engine config altered)

  append_nil {ℓ} : {A : Type ℓ} (xs ys : List A) → xs ++ ys ≡ [] → (xs ≡ []) × (ys ≡ [])
  append_nil [] ys h = (refl, h)
  append_nil (x ∷ xs) ys h = absurd (cons_ne_nil h)

  cycle_errors-eq-nil :
      (actions : List SessionAction) (cycles : List (List String))
      → cycle_errors actions cycles ≡ ok []
      → cycles ≡ []
  unfolding cycle_errors
  cycle_errors-eq-nil actions [] h = refl
  cycle_errors-eq-nil actions (cycle ∷ cycles) h =
      let (e, p, q) = bind-eq-ok (cycle_error actions cycle) _ h in
      let (es, p', q') = bind-eq-ok (cycle_errors actions cycles) _ q in
      absurd (cons_ne_nil (ok_injective q'))

  map_nil : (a : SessionAction) (ms : List String) → map (error_at a) ms ≡ [] → ms ≡ []
  map_nil a [] h = refl
  map_nil a (m ∷ ms) h = absurd (cons_ne_nil h)

  tables-IsValidTable :
      (upper : String → String) (tables : List SessionAction)
      → check_table_config_validity upper tables ≡ []
      → All (IsValidTable upper) tables
  unfolding check_table_config_validity
  tables-IsValidTable upper [] h = tt
  tables-IsValidTable upper (t ∷ tables) h =
      let (first, rest) = append_nil (map (error_at t) (reports (table_checks upper t))) _ h in
      (
        (reports_iff (table_checks upper t)).0 (map_nil t (reports (table_checks upper t)) first),
        tables-IsValidTable upper tables rest,
      )

  parts_nil :
      (errors names tests canonical tables cycles caching : List CompilationError)
      → errors ++ names ++ tests ++ canonical ++ tables ++ cycles ++ caching ≡ []
      → (names ≡ []) × (tests ≡ []) × (tables ≡ []) × (cycles ≡ []) × (caching ≡ [])
  parts_nil errors names tests canonical tables cycles caching h =
      let (h1, g) =
        append_nil (errors ++ names ++ tests ++ canonical ++ tables ++ cycles) caching h in
      let (h2, y) = append_nil (errors ++ names ++ tests ++ canonical ++ tables) cycles h1 in
      let (h3, v) = append_nil (errors ++ names ++ tests ++ canonical) tables h2 in
      let (h4, c) = append_nil (errors ++ names ++ tests) canonical h3 in
      let (h5, t) = append_nil (errors ++ names) tests h4 in
      let (e, n) = append_nil errors names h5 in (n, t, v, y, g)

  caching_nil :
      (actions : List SessionAction)
      → (if config.use_run_cache then check_run_caching_correctness actions else []) ≡ []
      → config.use_run_cache ≡ true
      → All IsCacheable actions
  caching_nil actions h e = (check_run_caching_correctness_iff actions).0 (rw e at h)

  -- What an empty list of errors says of the checks.
  record IsChecked (altered declarations : List SessionAction) (tests : List SessionTest)
      : Type 0 where
    names : AreDistinct (map (λ a. a.name) (altered ++ declarations))
    test_names : AreDistinct (map (λ t. t.name) tests)
    tables : All (IsValidTable engine.upper) (of_class is_table altered)
    acyclic : engine.get_cycles (map (vertex_of altered) altered) ≡ []
    cached : config.use_run_cache ≡ true → All IsCacheable (with_output engine config altered)

  check_all-IsChecked :
      (altered declarations : List SessionAction) (tests : List SessionTest)
      (errors all : List CompilationError)
      → check_all engine config altered declarations tests errors ≡ ok all
      → all ≡ []
      → IsChecked altered declarations tests
  unfolding check_all check_circularity
  check_all-IsChecked altered declarations tests errors all h none_left =
      let (circular, p, q) = bind-eq-ok (check_circularity engine.get_cycles altered) _ h in
      let whole = ok_injective q ∙ none_left in
      let caching : List CompilationError =
        if config.use_run_cache
        then check_run_caching_correctness (with_output engine config altered)
        else [] in
      let (e2, e3, e5, e6, e7) =
        parts_nil errors (check_action_name_uniqueness (altered ++ declarations))
          (check_test_name_uniqueness tests)
          (check_canonical_target_uniqueness engine.key engine.json (altered ++ declarations))
          (check_table_config_validity engine.upper (of_class is_table altered)) circular caching
          whole in
      let unique = uniqueness_iff (altered ++ declarations) tests in
      record {
        names = unique.0.0 e2;
        test_names = unique.1.0 e3;
        tables = tables-IsValidTable engine.upper (of_class is_table altered) e5;
        acyclic =
            cycle_errors-eq-nil altered (engine.get_cycles (map (vertex_of altered) altered))
              (p ∙ ap ok e6);
        cached = caching_nil (with_output engine config altered) e7;
      }

  -- If `compile` returns a graph without errors, its actions have different names, and so have its
  -- tests; the options of its tables pass all checks; the graph of the dependencies, tarjan-graph says,
  -- has no cycle; and with the run cache turned on, every action with output has a dependency or says
  -- whether it is hermetic.
  pub compile-IsConsistent :
      (fuel : ℕ) (s : SessionState) (out : CompiledSession)
      → compile engine config fuel s ≡ ok out
      → out.errors ≡ []
      → IsConsistent out
  unfolding compile compile_linked
  compile-IsConsistent fuel s out h none_left =
      let (linked, p, q) =
        bind-eq-ok
          (fully_qualify_dependencies engine.normalize engine.json fuel s.actions
            (compile_errors s))
          _ h in
      let declarations : List SessionAction = (chunk is_declaration linked.0).0 in
      let tests : List SessionTest = (compile_tests s.tests).0 in
      let compiled : List SessionAction =
        (chunk is_table linked.0).0
        ++ (chunk is_assertion linked.0).0
        ++ (chunk is_operation linked.0).0 in
      let (altered, p', q') =
        bind-eq-ok
          (alter_action_name engine.key engine.normalize config compiled
            (map (λ a. a.target) declarations))
          _ q in
      let (all, p'', q'') =
        bind-eq-ok (check_all engine config altered declarations tests linked.1) _ q' in
      let shape = ok_injective q'' in
      let checked =
        check_all-IsChecked altered declarations tests linked.1 all p''
          (ap (λ o. o.errors) shape ∙ none_left) in
      subst IsConsistent shape (record {
        altered = altered;
        tables_of = refl;
        operations_of = refl;
        assertions_of = refl;
        names_differ = checked.names;
        test_names_differ = checked.test_names;
        tables_valid = checked.tables;
        no_cycles = checked.acyclic;
        cacheable = checked.cached;
      })
