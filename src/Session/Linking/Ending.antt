-- ===== src/Session/Linking/Ending.antt =====
-- core/session.ts: when the loops of `fullyQualifyDependencies` end.
use dataform.Prelude.{
  ℕ, zero, suc, ◌+◌, ◌≤◌, ◌<◌, ◌≡◌, refl, ap, subst, ◌∙◌, inl, inr, String, true, false, Bool-cases,
  Option-cases, List, [], ◌∷◌, ◌++◌, map, length, All, nat_eq, Result, ok, out_of_fuel, some,
  some_cancel, cons_ne_nil, ◌≢◌, arith,
}
use dataform.Stringified.{set_entry}
use dataform.Proto.{Target}
use dataform.Session.{SessionAction, CompilationError, is_inline, is_found}
use dataform.Session.Linking.{
  Meaning, inlined, Found, Qualified, find_from, meaning_of, after, qualify_from, Linked,
  with_dependencies, get_elem?, set_elem, qualify_one, qualify_all, fully_qualify_dependencies,
}

length-set_entry :
    (k : String) (t : Target) (f : Qualified) → length (set_entry k t f) ≤ suc (length f)
unfolding set_entry
length-set_entry k t [] = omega arith
length-set_entry k t ((j, u) ∷ f) = ground (arith, length-set_entry k t f)

length-map : (f : Qualified) → length (map (λ e. e.1) f) ≡ length f
length-map [] = refl
length-map (e ∷ f) = omega (arith, length-map f)

nat_eq_self : (n : ℕ) → nat_eq n n ≡ true
nat_eq_self n = ground arith

append_ne_nil : (xs ys : List Target) → ys ≢ [] → (xs ++ ys) ≢ []
append_ne_nil [] ys h = h
append_ne_nil (x ∷ xs) ys h = cons_ne_nil

All-append :
    (d : Target) (xs ys : List Target)
    → All (λ t. t ≡ d) xs
    → All (λ t. t ≡ d) ys
    → All (λ t. t ≡ d) (xs ++ ys)
All-append d [] ys h k = k
All-append d (x ∷ xs) ys (h, hs) k = (h, All-append d xs ys hs k)

-- No inline table, and few dependencies.
abbrev pub IsPlain : ℕ → SessionAction → Type 0
IsPlain fuel a = (is_inline a ≡ false) × (length a.dependency_targets < fuel)

abbrev pub Ends : ℕ → Result (Qualified × List CompilationError) → Type 0
Ends n r = (out : Qualified × List CompilationError) × (r ≡ ok out) × (length out.0 ≤ n)

find_from-All :
    (normalize : String → String) (fuel i : ℕ) (d : Target) (actions : List SessionAction)
    → All (IsPlain fuel) actions
    → All (λ p. IsPlain fuel p.1) (find_from normalize i d actions)
unfolding find_from
find_from-All normalize fuel i d [] h = tt
find_from-All normalize fuel i d (a ∷ actions) (h, hs) =
    elim (Bool-cases (is_found normalize d a)) [
      | inl e ↦ rw e (h, find_from-All normalize fuel (suc i) d actions hs)
      | inr e ↦ rw e (find_from-All normalize fuel (suc i) d actions hs)
    ]

module _ (normalize : String → String) (json : Target → String) (actions : List SessionAction)
    (self : ℕ) (own : SessionAction) where
  abbrev Loop : Type 0
  Loop =
      List Target
      → List Target
      → Qualified
      → List CompilationError
      → Result (Qualified × List CompilationError)

  abbrev run : ℕ → Loop
  run = qualify_from normalize json actions self own

  abbrev step :
      Loop
      → Target
      → List Target
      → List Target
      → Qualified
      → List CompilationError
      → Meaning
      → Result (Qualified × List CompilationError)
  step = after normalize json actions self own

  after-Ends :
      (go_on : Loop) (d : Target) (queue whole : List Target) (found : Qualified)
      (errors : List CompilationError) (bound : ℕ) (m : Found)
      → ((w : List Target) (f : Qualified) (es : List CompilationError)
          → Ends (length f + length queue) (go_on queue w f es))
      → All (λ p. IsPlain bound p.1) m
      → Ends
          (suc (length found + length queue))
          (step go_on d queue whole found errors (meaning_of self whole m))
  unfolding after meaning_of
  after-Ends go_on d queue whole found errors bound [] ih h =
      let (out, e, le) = ih whole found _ in (out, e, omega arith)
  after-Ends go_on d queue whole found errors bound ((i, a) ∷ []) ih (h, hs) =
      let (out, e, le) = ih whole (set_entry a.name a.target found) errors in
      rw (h.0) (out, e, omega (arith, length-set_entry a.name a.target found))
  after-Ends go_on d queue whole found errors bound ((i, a) ∷ (j, b) ∷ m) ih h =
      let (out, e, le) = ih whole found _ in (out, e, omega arith)

  run-Ends :
      (bound : ℕ)
      → All (IsPlain bound) actions
      → (fuel : ℕ) (queue whole : List Target) (found : Qualified) (errors : List CompilationError)
      → length queue < fuel
      → Ends (length found + length queue) (run fuel queue whole found errors)
  unfolding qualify_from
  run-Ends bound plain zero queue whole found errors h = absurd (omega arith)
  run-Ends bound plain (suc fuel) [] whole found errors h = ((found, errors), refl, omega arith)
  run-Ends bound plain (suc fuel) (d ∷ queue) whole found errors h =
      let (out, e, le) =
        after-Ends (run fuel) d queue whole found errors bound (find_from normalize 0 d actions)
          (λ w f es. run-Ends bound plain fuel queue w f es (omega arith))
          (find_from-All normalize bound 0 d actions plain) in
      (out, e, omega arith)

  meaning_self :
      (d x : Target) (whole : List Target)
      → find_from normalize 0 d actions ≡ (self, own) ∷ []
      → is_inline own ≡ true
      → x ≡ d
      → meaning_of self whole (find_from normalize 0 x actions) ≡ inlined whole
  unfolding meaning_of
  meaning_self d x whole only inline e = rw (e, only, inline, nat_eq_self self) refl

  -- The dependency on itself of an inline table is pushed for ever.
  loop_hangs :
      (d : Target)
      → find_from normalize 0 d actions ≡ (self, own) ∷ []
      → is_inline own ≡ true
      → (fuel : ℕ) (queue whole : List Target) (found : Qualified) (errors : List CompilationError)
      → queue ≢ []
      → whole ≢ []
      → All (λ t. t ≡ d) queue
      → All (λ t. t ≡ d) whole
      → run fuel queue whole found errors ≡ out_of_fuel
  unfolding qualify_from after
  loop_hangs d only inline zero queue whole found errors q w h k = refl
  loop_hangs d only inline (suc fuel) [] whole found errors q w h k = absurd (q refl)
  loop_hangs d only inline (suc fuel) (x ∷ queue) whole found errors q w (h, hs) k =
      ap (step (run fuel) x queue whole found errors) (meaning_self d x whole only inline h)
      ∙ loop_hangs d only inline fuel (queue ++ whole) (whole ++ whole) found errors
          (append_ne_nil queue whole w) (append_ne_nil whole whole w)
          (All-append d queue whole hs k) (All-append d whole whole k k)

module _ (normalize : String → String) (json : Target → String) where
  -- An inline table whose one dependency denotes that table alone is linked for ever: whatever the
  -- fuel is, the loop does not end.
  pub qualify_one_hangs :
      (fuel i : ℕ) (actions : List SessionAction) (errors : List CompilationError)
      (a : SessionAction) (d : Target)
      → get_elem? actions i ≡ some a
      → is_inline a ≡ true
      → a.dependency_targets ≡ d ∷ []
      → find_from normalize 0 d actions ≡ (i, a) ∷ []
      → qualify_one normalize json fuel i actions errors ≡ out_of_fuel
  unfolding qualify_one
  qualify_one_hangs fuel i actions errors a d found_at inline deps only =
      let ends =
        loop_hangs normalize json actions i a d only inline fuel (d ∷ []) (d ∷ []) [] errors
          (λ e. cons_ne_nil e) (λ e. cons_ne_nil e) (refl, tt) (refl, tt) in
      rw (found_at, qualify_one) (rw deps (rw ends refl))

  set_elem-All :
      (bound i : ℕ) (actions : List SessionAction) (b : SessionAction)
      → IsPlain bound b
      → All (IsPlain bound) actions
      → All (IsPlain bound) (set_elem actions i b)
  unfolding set_elem
  set_elem-All bound i [] b k h = tt
  set_elem-All bound zero (a ∷ actions) b k (h, hs) = (k, hs)
  set_elem-All bound (suc i) (a ∷ actions) b k (h, hs) = (h, set_elem-All bound i actions b k hs)

  get_elem-All :
      (bound i : ℕ) (actions : List SessionAction) (a : SessionAction)
      → get_elem? actions i ≡ some a
      → All (IsPlain bound) actions
      → IsPlain bound a
  unfolding get_elem?
  get_elem-All bound i [] a e h = cc
  get_elem-All bound zero (b ∷ actions) a e (h, hs) = subst (IsPlain bound) (some_cancel e) h
  get_elem-All bound (suc i) (b ∷ actions) a e (h, hs) = get_elem-All bound i actions a e hs

  qualify_one_ends :
      (fuel i : ℕ) (actions : List SessionAction) (errors : List CompilationError)
      → All (IsPlain fuel) actions
      → (out : Linked) × (qualify_one normalize json fuel i actions errors ≡ ok out)
        × All (IsPlain fuel) out.0
  unfolding qualify_one
  qualify_one_ends fuel i actions errors plain = elim (Option-cases (get_elem? actions i)) [
    | inl gone ↦ ((actions, errors), rw (gone, qualify_one) refl, plain)
    | inr (a, found_at) ↦
        let (inline, few) = get_elem-All fuel i actions a found_at plain in
        let (out, e, le) =
          run-Ends normalize json actions i a fuel plain fuel a.dependency_targets
            a.dependency_targets [] errors few in
        (
          (set_elem actions i (with_dependencies out.0 a), out.1),
          rw (found_at, qualify_one) (rw e refl),
          set_elem-All fuel i actions (with_dependencies out.0 a)
              (inline, omega (arith, length-map out.0)) plain,
        )
  ]

  qualify_all_ends :
      (fuel : ℕ) (places : List ℕ) (actions : List SessionAction) (errors : List CompilationError)
      → All (IsPlain fuel) actions
      → (out : Linked) × (qualify_all normalize json fuel places actions errors ≡ ok out)
  unfolding qualify_all
  qualify_all_ends fuel [] actions errors plain = ((actions, errors), refl)
  qualify_all_ends fuel (i ∷ places) actions errors plain =
      let (between, e, plain') = qualify_one_ends fuel i actions errors plain in
      let (out, f) = qualify_all_ends fuel places between.0 between.1 plain' in (out, rw e f)

  -- In a session without inline tables, fuel above the number of dependencies of every action is
  -- enough: the linking of all actions returns.
  pub fully_qualify_dependencies_ends :
      (fuel : ℕ) (actions : List SessionAction) (errors : List CompilationError)
      → All (IsPlain fuel) actions
      → (out : Linked) × (fully_qualify_dependencies normalize json fuel actions errors ≡ ok out)
  unfolding fully_qualify_dependencies
  fully_qualify_dependencies_ends fuel actions errors plain =
      qualify_all_ends fuel _ actions errors plain
