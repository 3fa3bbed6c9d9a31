-- ===== src/Session/Altering/Renaming.antt =====
-- core/session.ts: what `alterActionName` does to actions whose dependencies are known.
use dataform.Prelude.{
  ◌≡◌, refl, ap, ◌∙◌, inl, inr, String, Bool, true, false, Bool-cases, ◌||◌, ◌==◌, eq_iff, List, [],
  ◌∷◌, map, Option, Option-cases, none, some, if◌then◌else◌, All, Elem, here, there, includes, ok,
  throw, undefined_access, ◌⊎◌, subst, arith,
}
use dataform.Stringified.{Stringifier, StringifiedMap, get, set}
use dataform.Stringified.Laws.{IsFaithful, get_entry-set_entry, stringify_injective}
use dataform.Names.{target_to_name}
use dataform.Proto.{Target}
use dataform.Proto.Core.{SessionConfig}
use dataform.Session.{SessionAction, altered_target}
use dataform.Session.Altering.{
  has_affixes, set_declarations, get_all, fix_dependencies, set_targets, alter_action_name,
}

module _ (key : Stringifier Target) (faithful : IsFaithful key) where
  -- Among the targets.
  abbrev pub is_among : List Target → Target → Bool
  is_among ts d = includes (map key.stringify ts) (key.stringify d)

  -- `set` with a function of the key.
  abbrev set_all : (Target → Target) → StringifiedMap Target → List Target → StringifiedMap Target
  set_all f m [] = m
  set_all f m (t ∷ ts) = set_all f (set key t (f t) m) ts

  set_declarations-eq :
      (m : StringifiedMap Target) (ts : List Target)
      → set_declarations key m ts ≡ set_all (λ t. t) m ts
  unfolding set_declarations
  set_declarations-eq m [] = refl
  set_declarations-eq m (t ∷ ts) = set_declarations-eq (set key t t m) ts

  get-set :
      (f : Target → Target) (t d : Target) (m : StringifiedMap Target)
      → get key d (set key t (f t) m)
        ≡ (if key.stringify t == key.stringify d then some (f d) else get key d m)
  unfolding get set
  get-set f t d m = elim (Bool-cases (key.stringify t == key.stringify d)) [
    | inl e ↦
        get_entry-set_entry (key.stringify t) (key.stringify d) (f t) m.entries
        ∙ rw e (ap (λ x. some (f x)) (stringify_injective key faithful t d e))
    | inr e ↦ get_entry-set_entry (key.stringify t) (key.stringify d) (f t) m.entries ∙ rw e refl
  ]

  get-set_all :
      (f : Target → Target) (ts : List Target) (d : Target) (m : StringifiedMap Target)
      → get key d (set_all f m ts) ≡ (if is_among ts d then some (f d) else get key d m)
  unfolding includes
  get-set_all f [] d m = refl
  get-set_all f (t ∷ ts) d m =
      ground (arith, get-set_all f ts d (set key t (f t) m), get-set f t d m)

  module _ (normalize : String → String) (config : SessionConfig) where
    abbrev altered : Target → Target
    altered t = altered_target normalize config t

    abbrev with_altered_target : SessionAction → SessionAction
    with_altered_target a = record a {
      target = altered a.target;
      name = target_to_name (altered a.target);
    }

    -- What a target becomes when the actions of these targets are altered.
    abbrev pub renamed : List Target → Target → Target
    renamed ts d = if is_among ts d then altered d else d

    -- An action with its own target altered, and those it refers to renamed.
    abbrev pub renamed_action : List Target → SessionAction → SessionAction
    renamed_action ts a = record a {
      target = altered a.target;
      name = target_to_name (altered a.target);
      dependency_targets = map (renamed ts) a.dependency_targets;
      dependencies = map target_to_name (map (renamed ts) a.dependency_targets);
      parent_action = elim a.parent_action [ none ↦ none | some p ↦ some (renamed ts p) ];
    }

    abbrev pub IsKnown : List Target → List Target → Target → Type 0
    IsKnown ts declarations d = (is_among ts d || is_among declarations d) ≡ true

    abbrev pub IsParentKnown : List Target → List Target → Option Target → Type 0
    IsParentKnown ts declarations none = Unit
    IsParentKnown ts declarations (some p) = IsKnown ts declarations p

    -- Every target that an action refers to is that of an action or a declaration.
    pub record RefersToKnown (ts declarations : List Target) (a : SessionAction) : Type 0 where
      pub dependencies_known : All (λ d. IsKnown ts declarations d) a.dependency_targets
      pub parent_known : IsParentKnown ts declarations a.parent_action

    abbrev final : List Target → List Target → StringifiedMap Target
    final ts declarations =
        set_all altered (set_declarations key (record { entries = [] }) declarations) ts

    get-final :
        (ts declarations : List Target) (d : Target)
        → IsKnown ts declarations d
        → get key d (final ts declarations) ≡ some (renamed ts d)
    get-final ts declarations d h =
        rw (set_declarations-eq (record { entries = [] }) declarations) (
          ground (
            arith,
            get-set_all altered ts d (set_all (λ t. t) (record { entries = [] }) declarations),
            get-set_all (λ t. t) declarations d (record { entries = [] }),
          ))

    set_targets-eq :
        (m : StringifiedMap Target) (actions : List SessionAction)
        → set_targets key normalize config m actions
          ≡ ok (set_all altered m (map (λ a. a.target) actions), map with_altered_target actions)
    unfolding set_targets
    set_targets-eq m [] = refl
    set_targets-eq m (a ∷ actions) = rw (get-set altered a.target a.target m) (
        rw ((eq_iff (key.stringify a.target) (key.stringify a.target)).1 refl)
          (rw (set_targets-eq (set key a.target (altered a.target) m) actions) refl))

    get_all-eq :
        (ts declarations ds : List Target)
        → All (λ d. IsKnown ts declarations d) ds
        → get_all key (final ts declarations) ds ≡ ok (map (renamed ts) ds)
    unfolding get_all
    get_all-eq ts declarations [] h = refl
    get_all-eq ts declarations (d ∷ ds) (h, hs) =
        rw (get_all-eq ts declarations ds hs) (rw (get-final ts declarations d h) refl)

    parent-eq :
        (ts declarations : List Target) (p : Option Target)
        → IsParentKnown ts declarations p
        → (elim p as (λ _. Option Target) [
          | none ↦ none
          | some q ↦ get key q (final ts declarations)
        ])
          ≡ (elim p as (λ _. Option Target) [ none ↦ none | some q ↦ some (renamed ts q) ])
    parent-eq ts declarations none h = refl
    parent-eq ts declarations (some p) h = get-final ts declarations p h

    fix_dependencies-eq :
        (ts declarations : List Target) (actions : List SessionAction)
        → All (RefersToKnown ts declarations) actions
        → fix_dependencies key (final ts declarations) (map with_altered_target actions)
          ≡ ok (map (renamed_action ts) actions)
    unfolding fix_dependencies
    fix_dependencies-eq ts declarations [] h = refl
    fix_dependencies-eq ts declarations (a ∷ actions) (h, hs) =
        rw (get_all-eq ts declarations a.dependency_targets h.dependencies_known) (
          rw (fix_dependencies-eq ts declarations actions hs)
            (rw (parent-eq ts declarations a.parent_action h.parent_known) refl))

    -- In a project with a prefix or a suffix, and with a stringifier whose parser gives back what was
    -- stringified: if every dependency and parent of the actions is the target of one of them or of a
    -- declaration, each action gets its target altered and the name of that target, and every
    -- dependency and parent that is an action is altered alike, while declarations keep theirs.
    pub alter_action_name-renames :
        (actions : List SessionAction) (declarations : List Target)
        → has_affixes config ≡ true
        → All (RefersToKnown (map (λ a. a.target) actions) declarations) actions
        → alter_action_name key normalize config actions declarations
          ≡ ok (map (renamed_action (map (λ a. a.target) actions)) actions)
    unfolding alter_action_name
    alter_action_name-renames actions declarations h k = rw h (
        rw (set_targets-eq (set_declarations key (record { entries = [] }) declarations) actions)
          (fix_dependencies-eq (map (λ a. a.target) actions) declarations actions k))

    get-unknown :
        (ts declarations : List Target) (d : Target)
        → (is_among ts d || is_among declarations d) ≡ false
        → get key d (final ts declarations) ≡ none
    unfolding get
    get-unknown ts declarations d h =
        rw (set_declarations-eq (record { entries = [] }) declarations) (
          ground (
            arith,
            get-set_all altered ts d (set_all (λ t. t) (record { entries = [] }) declarations),
            get-set_all (λ t. t) declarations d (record { entries = [] }),
          ))

    get_all-cases :
        (m : StringifiedMap Target) (ds : List Target)
        → ((ts : List Target) × (get_all key m ds ≡ ok ts))
          ⊎ (get_all key m ds ≡ throw undefined_access)
    unfolding get_all
    get_all-cases m [] = inl ([], refl)
    get_all-cases m (d ∷ ds) = elim (get_all-cases m ds) [
      | inr e ↦ inr (rw e refl)
      | inl (ts, e) ↦ elim (Option-cases (get key d m)) [
        | inl n ↦ inr (rw e (rw n refl))
        | inr (t, n) ↦ inl (t ∷ ts, rw e (rw n refl))
      ]
    ]

    get_all-throws :
        (m : StringifiedMap Target) (d : Target) (ds : List Target)
        → Elem d ds
        → get key d m ≡ none
        → get_all key m ds ≡ throw undefined_access
    unfolding get_all
    get_all-throws m d [] i h = elim i [ ]
    get_all-throws m d (c ∷ ds) (there i) h = rw (get_all-throws m d ds i h) refl
    get_all-throws m d (c ∷ ds) (here e) h = elim (get_all-cases m ds) [
      | inr n ↦ rw n refl
      | inl (ts, n) ↦ rw n (rw (subst (λ t. get key t m ≡ none) e h) refl)
    ]

    fix_dependencies-throws :
        (m : StringifiedMap Target) (d : Target) (a : SessionAction) (actions : List SessionAction)
        → Elem a actions
        → Elem d a.dependency_targets
        → get key d m ≡ none
        → fix_dependencies key m (map with_altered_target actions) ≡ throw undefined_access
    unfolding fix_dependencies
    fix_dependencies-throws m d a [] i j h = elim i [ ]
    fix_dependencies-throws m d a (b ∷ actions) (here e) j h =
        rw
          (get_all-throws m d b.dependency_targets (subst (λ c. Elem d c.dependency_targets) e j) h)
          refl
    fix_dependencies-throws m d a (b ∷ actions) (there i) j h =
        elim (get_all-cases m b.dependency_targets) [
          | inr e ↦ rw e refl
          | inl (ts, e) ↦ rw e (rw (fix_dependencies-throws m d a actions i j h) refl)
        ]

    -- In a project with a prefix or a suffix, and with a stringifier whose parser gives back what was
    -- stringified: if some action depends on a target that is neither that of one of the actions nor
    -- that of a declaration, `alterActionName` throws the engine's TypeError.
    pub alter_action_name-throws :
        (actions : List SessionAction) (declarations : List Target) (a : SessionAction) (d : Target)
        → has_affixes config ≡ true
        → Elem a actions
        → Elem d a.dependency_targets
        → (is_among (map (λ b. b.target) actions) d || is_among declarations d) ≡ false
        → alter_action_name key normalize config actions declarations ≡ throw undefined_access
    unfolding alter_action_name
    alter_action_name-throws actions declarations a d h i j k = rw h (
        rw (set_targets-eq (set_declarations key (record { entries = [] }) declarations) actions) (
          fix_dependencies-throws (final (map (λ b. b.target) actions) declarations) d a actions i j
            (get-unknown (map (λ b. b.target) actions) declarations d k)))
