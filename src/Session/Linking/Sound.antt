-- ===== src/Session/Linking/Sound.antt =====
-- core/session.ts: what `fullyQualifyDependencies` makes of the dependencies of an action.
use dataform.Prelude.{
  ℕ, zero, suc, ◌≤◌, ◌≡◌, refl, sym, ap, subst, ◌⊎◌, inl, inr, String, true, eq_self, Bool-cases,
  List, [], ◌∷◌, ◌++◌, map, length, length-append, All, Result, ok, ok_injective, some, bind-eq-ok,
  ◌+◌, ◌∙◌, nat_eq, some_cancel, Elem, here, there, Elem-append, Elem-append_left,
  Elem-append_right, arith,
}
use dataform.Stringified.{set_entry, has_entry}
use dataform.Stringified.Laws.{has_entry-set_entry}
use dataform.Proto.{Target}
use dataform.Session.{SessionAction, CompilationError, is_inline, is_found, find_actions}
use dataform.Session.Linking.{
  Meaning, missing, ambiguous, inlined, qualified, Found, Qualified, find_from, meaning_of, after,
  missing_error, ambiguous_error, qualify_from, Linked, with_dependencies, get_elem?, set_elem,
  qualify_one,
}
use dataform.Session.Linking.Reached.{
  cons_head, find_from-find_actions, Denotes, IsReached, direct, through, IsLinked, meaning-Denotes,
  set_entry-All, IsResolved, named, expanded, reached-IsResolved,
}

module _ (normalize : String → String) (actions : List SessionAction) where
  find_from-place :
      (k i : ℕ) (d : Target) (l : List SessionAction) (b : SessionAction)
      → find_from normalize k d l ≡ (i, b) ∷ []
      → (j : ℕ) × (i ≡ k + j) × (get_elem? l j ≡ some b)
  unfolding find_from get_elem?
  find_from-place k i d [] b h = cc
  find_from-place k i d (a ∷ l) b h = elim (Bool-cases (is_found normalize d a)) [
    | inl e ↦
        let first : (k, a) ≡ (i, b) = cons_head (rw e at h) in
        (0, sym (ap (λ p. p.0) first) ∙ plus_zero k, ap (λ p. some p.1) first)
    | inr e ↦
        let (j, sum, place) = find_from-place (suc k) i d l b (rw e at h) in
        (suc j, sum ∙ plus_suc k j, place)
  ]
    where
      plus_zero : (n : ℕ) → n ≡ n + 0
      plus_zero n = omega arith

      plus_suc : (n j : ℕ) → suc n + j ≡ n + suc j
      plus_suc n j = omega arith

  -- From the state of the loop to its end: nothing found is lost, errors are only added, and without
  -- a new one every dependency left is resolved.
  pub record IsSettled (queue : List Target) (found : Qualified) (errors : List CompilationError)
      (out : Qualified × List CompilationError) : Type 0 where
    pub kept : (k : String) → has_entry k found ≡ true → has_entry k out.0 ≡ true
    pub more : length errors ≤ length out.1
    pub resolved :
        length out.1 ≡ length errors
        → (t : Target) → Elem t queue
        → IsResolved normalize actions out.0 t

  with_error :
      (d : Target) (queue : List Target) (found : Qualified) (errors : List CompilationError)
      (new : CompilationError) (out : Qualified × List CompilationError)
      → IsSettled queue found (errors ++ new ∷ []) out
      → IsSettled (d ∷ queue) found errors out
  with_error d queue found errors new out s =
      let grown = length-append {0} errors (new ∷ []) in
      let more = s.more in
      record { kept = s.kept; more = omega arith; resolved = λ same. absurd (omega arith) }

  module _ (json : Target → String) (self : ℕ) (own : SessionAction)
      (placed : get_elem? actions self ≡ some own) where
    -- The only action that a dependency denotes is an inline table, and these are its dependencies.
    record IsInlined (whole : List Target) (d : Target) (more : List Target) : Type 0 where
      action : SessionAction
      only : find_actions normalize d actions ≡ action ∷ []
      inline : is_inline action ≡ true
      covers : (t : Target) → Elem t action.dependency_targets → Elem t more
      from : (t : Target) → Elem t more → Elem t whole ⊎ Elem t action.dependency_targets

    abbrev Covers : List Target → Type 0
    Covers whole = (t : Target) → Elem t own.dependency_targets → Elem t whole

    meaning-inlined :
        (whole : List Target) (d : Target) (more : List Target) (f : Found)
        → Covers whole
        → find_from normalize 0 d actions ≡ f
        → meaning_of self whole f ≡ inlined more
        → IsInlined whole d more
    unfolding meaning_of
    meaning-inlined whole d more [] covers e h = cc
    meaning-inlined whole d more ((i, a) ∷ []) covers e h = elim (Bool-cases (is_inline a)) [
      | inr real ↦ let k = rw real at h in cc
      | inl inline ↦ elim (Bool-cases (nat_eq i self)) [
        | inr other ↦
            let same : a.dependency_targets ≡ more = inlined_injective (rw (inline, other) at h) in
            record {
              action = a;
              only =
                  sym (find_from-find_actions normalize actions 0 d actions)
                  ∙ ap (map (λ p. p.1)) e;
              inline = inline;
              covers = λ t m. subst (Elem t) same m;
              from = λ t m. inr (subst (Elem t) (sym same) m);
            }
        | inl here' ↦
            let same : whole ≡ more = inlined_injective (rw (inline, here') at h) in
            let (j, sum, place) = find_from-place 0 i d actions a e in
            let at_self : get_elem? actions self ≡ some a =
              subst (λ n. get_elem? actions n ≡ some a) (same_place i j self sum here') place in
            let mine : own ≡ a = some_cancel (sym placed ∙ at_self) in
            record {
              action = a;
              only =
                  sym (find_from-find_actions normalize actions 0 d actions)
                  ∙ ap (map (λ p. p.1)) e;
              inline = inline;
              covers = λ t m.
                  subst (Elem t) same
                    (covers t (subst (λ x. Elem t x.dependency_targets) (sym mine) m));
              from = λ t m. inl (subst (Elem t) (sym same) m);
            }
      ]
    ]
      where
        same_place : (i j n : ℕ) → i ≡ 0 + j → nat_eq i n ≡ true → j ≡ n
        same_place i j n e h = ground arith

        inlined_injective : {xs ys : List Target} → inlined xs ≡ inlined ys → xs ≡ ys
        inlined_injective p = cc
    meaning-inlined whole d more ((i, a) ∷ (j, b) ∷ others) covers e h = cc

    abbrev Loop : Type 0
    Loop =
        List Target
        → List Target
        → Qualified
        → List CompilationError
        → Result (Qualified × List CompilationError)

    abbrev AllReached : List Target → Type 0
    AllReached ts = (t : Target) → Elem t ts → IsReached normalize actions own t

    AllReached-append :
        (xs ys : List Target) → AllReached xs → AllReached ys → AllReached (xs ++ ys)
    AllReached-append xs ys h k t m = elim (Elem-append xs ys m) [ inl l ↦ h t l | inr r ↦ k t r ]

    -- What the loop has come from and what it is to give.
    record IsReady (queue whole : List Target) (found : Qualified) : Type 0 where
      queued : AllReached queue
      known : AllReached whole
      covers : Covers whole
      linked : All (IsLinked normalize actions own) found

    record IsSound (queue : List Target) (found : Qualified) (errors : List CompilationError)
        (out : Qualified × List CompilationError) : Type 0 where
      linked : All (IsLinked normalize actions own) out.0
      settled : IsSettled queue found errors out

    module _ (go_on : Loop) (d : Target) (queue whole : List Target) (found : Qualified)
        (errors : List CompilationError) (out : Qualified × List CompilationError) where
      rest : IsReady (d ∷ queue) whole found → IsReady queue whole found
      rest r = record {
        queued = λ t m. r.queued t (there m);
        known = r.known;
        covers = r.covers;
        linked = r.linked;
      }

      after-IsSound :
          ((q w : List Target) (f : Qualified) (es : List CompilationError)
            → IsReady q w f
            → go_on q w f es ≡ ok out
            → IsSound q f es out)
          → (m : Meaning)
          → ((n : String) (t : Target) → m ≡ qualified n t → Denotes normalize actions d n t)
          → ((l : List Target) → m ≡ inlined l → IsInlined whole d l)
          → IsReady (d ∷ queue) whole found
          → after normalize json actions self own go_on d queue whole found errors m ≡ ok out
          → IsSound (d ∷ queue) found errors out
      unfolding after
      after-IsSound ih missing e l r h =
          let s = ih _ _ _ _ (rest r) h in
          record {
            linked = s.linked;
            settled =
                with_error d queue found errors (missing_error normalize json actions self own d)
                  out s.settled;
          }
      after-IsSound ih (ambiguous several) e l r h =
          let s = ih _ _ _ _ (rest r) h in
          record {
            linked = s.linked;
            settled =
                with_error d queue found errors
                  (ambiguous_error normalize json actions self own d several) out s.settled;
          }
      after-IsSound ih (inlined more) e l r h =
          let i = l more refl in
          let reached : AllReached more = λ t m. elim (i.from t m) [
            | inl k ↦ r.known t k
            | inr k ↦ through d i.action (r.queued d (here refl)) i.only i.inline k
          ] in
          let s =
            ih (queue ++ more) (whole ++ more) found errors
              (record {
                queued = AllReached-append queue more (λ t m. r.queued t (there m)) reached;
                known = AllReached-append whole more r.known reached;
                covers = λ t m. Elem-append_left more (r.covers t m);
                linked = r.linked;
              })
              h in
          record {
            linked = s.linked;
            settled = record {
              kept = s.settled.kept;
              more = s.settled.more;
              resolved = λ same t m. elim m [
                | there k ↦ s.settled.resolved same t (Elem-append_left more k)
                | here p ↦ subst (IsResolved normalize actions out.0) (sym p) (
                    expanded i.action i.only i.inline
                      λ c k. s.settled.resolved same c (Elem-append_right queue (i.covers c k)))
              ];
            };
          }
      after-IsSound ih (qualified n t) e l r h =
          let q = e n t refl in
          let s =
            ih queue whole (set_entry n t found) errors
              (record {
                queued = λ c m. r.queued c (there m);
                known = r.known;
                covers = r.covers;
                linked =
                    set_entry-All normalize actions own n t found (d, r.queued d (here refl), q)
                      r.linked;
              })
              h in
          record {
            linked = s.linked;
            settled = record {
              kept = λ k has. s.settled.kept k (ground (arith, has_entry-set_entry n k t found));
              more = s.settled.more;
              resolved = λ same c m. elim m [
                | there k ↦ s.settled.resolved same c k
                | here p ↦ subst (IsResolved normalize actions out.0) (sym p) (
                    named q.action q.only q.real (
                      rw q.named (
                        s.settled.kept n
                          (ground (arith, has_entry-set_entry n n t found, eq_self n)))))
              ];
            };
          }

    abbrev run : ℕ → Loop
    run = qualify_from normalize json actions self own

    run-IsSound :
        (fuel : ℕ) (queue whole : List Target) (found : Qualified) (errors : List CompilationError)
        (out : Qualified × List CompilationError)
        → IsReady queue whole found
        → run fuel queue whole found errors ≡ ok out
        → IsSound queue found errors out
    unfolding qualify_from
    run-IsSound zero queue whole found errors out r h = cc
    run-IsSound (suc fuel) [] whole found errors out r h =
        subst (IsSound [] found errors) (ok_injective h) (record {
          linked = r.linked;
          settled = record {
            kept = λ k has. has;
            more = omega arith;
            resolved = λ same t m. elim m [ ];
          };
        })
    run-IsSound (suc fuel) (d ∷ queue) whole found errors out r h =
        after-IsSound (run fuel) d queue whole found errors out
          (λ q w f es. run-IsSound fuel q w f es out)
          (meaning_of self whole (find_from normalize 0 d actions))
          (λ n t.
            meaning-Denotes normalize actions self whole d n t (find_from normalize 0 d actions)
              (find_from-find_actions normalize actions 0 d actions))
          (λ l. meaning-inlined whole d l (find_from normalize 0 d actions) r.covers refl) r h

-- The action after its dependencies were linked.
pub record IsQualified (normalize : String → String) (actions : List SessionAction) (i : ℕ)
    (a : SessionAction) (errors : List CompilationError) (out : Linked) : Type 0 where
  pub found : Qualified
  pub replaced : out.0 ≡ set_elem actions i (with_dependencies found a)
  pub linked : All (IsLinked normalize actions a) found
  pub more : length errors ≤ length out.1
  pub resolved :
      length out.1 ≡ length errors
      → (d : Target) → IsReached normalize actions a d
      → IsResolved normalize actions found d

-- If the linking of an action returns, its dependencies are replaced by names and targets of actions
-- that are no inline tables, and no other action is changed. Each of these actions is the only one that
-- some dependency denotes which the action has itself or through inline tables. Unless an error was
-- added, each dependency that it has itself or through inline tables denotes exactly one action, which
-- stands among the new dependencies or is an inline table.
pub qualify_one-IsQualified :
    (normalize : String → String) (json : Target → String) (fuel i : ℕ)
    (actions : List SessionAction) (errors : List CompilationError) (a : SessionAction)
    (out : Linked)
    → get_elem? actions i ≡ some a
    → qualify_one normalize json fuel i actions errors ≡ ok out
    → IsQualified normalize actions i a errors out
unfolding qualify_one
qualify_one-IsQualified normalize json fuel i actions errors a out found_at h =
    let (r, e, g) =
      bind-eq-ok
        (qualify_from normalize json actions i a fuel a.dependency_targets a.dependency_targets []
          errors)
        (λ r. ok (set_elem actions i (with_dependencies r.0 a), r.1))
        (rw (found_at, qualify_one) at h) in
    let s =
      run-IsSound normalize actions json i a found_at fuel a.dependency_targets a.dependency_targets
        [] errors r
        (record {
          queued = λ t m. direct m;
          known = λ t m. direct m;
          covers = λ t m. m;
          linked = tt;
        })
        e in
    subst (IsQualified normalize actions i a errors) (ok_injective g) (record {
      found = r.0;
      replaced = refl;
      linked = s.linked;
      more = s.settled.more;
      resolved =
          λ same d k. reached-IsResolved normalize actions a r.0 d (s.settled.resolved same) k;
    })
