-- ===== src/Session/Checks/Unique.antt =====
-- core/session.ts: what it means that the checks of `compile` report nothing.
use dataform.Prelude.{
  ◌≡◌, ◌≢◌, refl, ◌↔◌, ◌⊎◌, inl, inr, String, true, false, eq_iff, Bool-cases, List, [], ◌∷◌, ◌++◌,
  map, All, includes, includes-append, cons_ne_nil, arith,
}
use dataform.Proto.{ActionHermeticity}
use dataform.Session.{SessionAction, CompilationError}
use dataform.Session.Checks.{
  SessionTest, repeated_errors, check_action_name_uniqueness, check_test_name_uniqueness,
  is_explicit, has_dependencies, check_run_caching_correctness,
}

-- No string stands twice.
abbrev pub AreDistinct : List String → Type 0
AreDistinct [] = Unit
AreDistinct (x ∷ xs) = (includes xs x ≡ false) × AreDistinct xs

abbrev AreNew : List String → List String → Type 0
AreNew seen xs = All (λ x. includes seen x ≡ false) xs

AreNew-append :
    (seen : List String) (n : String) (xs : List String)
    → AreNew (seen ++ n ∷ []) xs
    → AreNew seen xs × (includes xs n ≡ false)
unfolding includes
AreNew-append seen n [] h = (tt, refl)
AreNew-append seen n (x ∷ xs) (h, hs) =
    let (new, out) = AreNew-append seen n xs hs in
    let split = includes-append seen (n ∷ []) x in
    ((ground arith, new), ground (arith, eq_iff x n, eq_iff n x))

append-AreNew :
    (seen : List String) (n : String) (xs : List String)
    → AreNew seen xs
    → includes xs n ≡ false
    → AreNew (seen ++ n ∷ []) xs
unfolding includes
append-AreNew seen n [] h k = tt
append-AreNew seen n (x ∷ xs) (h, hs) k =
    let split = includes-append seen (n ∷ []) x in
    (ground (arith, eq_iff x n, eq_iff n x), append-AreNew seen n xs hs (ground arith))

none-AreNew : (xs : List String) → AreNew [] xs
unfolding includes
none-AreNew [] = tt
none-AreNew (x ∷ xs) = (refl, none-AreNew xs)

module _ {ℓ} {A : Type ℓ} (name : A → String) (error : A → CompilationError) where
  errors-AreDistinct :
      (seen : List String) (xs : List A)
      → repeated_errors name error seen xs ≡ []
      → AreNew seen (map name xs) × AreDistinct (map name xs)
  unfolding repeated_errors
  errors-AreDistinct seen [] h = (tt, tt)
  errors-AreDistinct seen (x ∷ xs) h = elim (Bool-cases (includes seen (name x))) [
    | inl old ↦ let k = rw old at h in absurd (cons_ne_nil k)
    | inr new ↦
        let (later, distinct) = errors-AreDistinct (seen ++ name x ∷ []) xs (rw new at h) in
        let (new', out) = AreNew-append seen (name x) (map name xs) later in
        ((new, new'), (out, distinct))
  ]

  AreDistinct-errors :
      (seen : List String) (xs : List A)
      → AreNew seen (map name xs)
      → AreDistinct (map name xs)
      → repeated_errors name error seen xs ≡ []
  unfolding repeated_errors
  AreDistinct-errors seen [] h k = refl
  AreDistinct-errors seen (x ∷ xs) (new, h) (out, k) = rw new (
      AreDistinct-errors (seen ++ name x ∷ []) xs (append-AreNew seen (name x) (map name xs) h out)
        k)

  repeated_errors_iff :
      (xs : List A) → (repeated_errors name error [] xs ≡ []) ↔ AreDistinct (map name xs)
  repeated_errors_iff xs = (
    λ h. (errors-AreDistinct [] xs h).1,
    λ k. AreDistinct-errors [] xs (none-AreNew (map name xs)) k,
  )

-- The checks of names report nothing exactly if no two actions, and no two tests, have one name.
pub uniqueness_iff :
    (actions : List SessionAction) (tests : List SessionTest)
    → ((check_action_name_uniqueness actions ≡ []) ↔ AreDistinct (map (λ a. a.name) actions))
      × ((check_test_name_uniqueness tests ≡ []) ↔ AreDistinct (map (λ t. t.name) tests))
unfolding check_action_name_uniqueness check_test_name_uniqueness
uniqueness_iff actions tests =
    (repeated_errors_iff (λ a. a.name) _ actions, repeated_errors_iff (λ t. t.name) _ tests)

-- An action that depends on something, or says whether it is hermetic.
abbrev pub IsCacheable : SessionAction → Type 0
IsCacheable a = (a.dependencies ≢ []) ⊎ (a.hermeticity ≢ ActionHermeticity.unknown)

caching-IsCacheable :
    (actions : List SessionAction)
    → check_run_caching_correctness actions ≡ []
    → All IsCacheable actions
unfolding check_run_caching_correctness
caching-IsCacheable [] h = tt
caching-IsCacheable (a ∷ actions) h = elim (Bool-cases (has_dependencies a)) [
  | inl some ↦ (inl (λ e. let k = rw e at some in cc), caching-IsCacheable actions (rw some at h))
  | inr no_dependency ↦ elim (Bool-cases (is_explicit a.hermeticity)) [
    | inl said ↦ (
      inr (λ e. let k = rw e at said in cc),
      caching-IsCacheable actions (rw (no_dependency, said) at h),
    )
    | inr unsaid ↦ let k = rw (no_dependency, unsaid) at h in absurd (cons_ne_nil k)
  ]
]

explicit : (h : ActionHermeticity) → h ≢ ActionHermeticity.unknown → is_explicit h ≡ true
explicit ActionHermeticity.unknown n = absurd (n refl)
explicit ActionHermeticity.hermetic n = refl
explicit ActionHermeticity.non_hermetic n = refl

nonempty {ℓ} : {A : Type ℓ} (l : List A) → l ≢ [] → elim l [ [] ↦ false | d ∷ ds ↦ true ] ≡ true
nonempty [] n = absurd (n refl)
nonempty (d ∷ l) n = refl

IsCacheable-caching :
    (actions : List SessionAction)
    → All IsCacheable actions
    → check_run_caching_correctness actions ≡ []
unfolding check_run_caching_correctness
IsCacheable-caching [] h = refl
IsCacheable-caching (a ∷ actions) (inl some, hs) =
    rw (nonempty a.dependencies some) (IsCacheable-caching actions hs)
IsCacheable-caching (a ∷ actions) (inr said, hs) = elim (Bool-cases (has_dependencies a)) [
  | inl some ↦ rw some (IsCacheable-caching actions hs)
  | inr none ↦ rw (none, explicit a.hermeticity said) (IsCacheable-caching actions hs)
]

-- The check for run caching reports nothing exactly if every action has a dependency or says whether
-- it is hermetic.
pub check_run_caching_correctness_iff :
    (actions : List SessionAction)
    → (check_run_caching_correctness actions ≡ []) ↔ All IsCacheable actions
check_run_caching_correctness_iff actions =
    (caching-IsCacheable actions, IsCacheable-caching actions)
