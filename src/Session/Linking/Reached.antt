-- ===== src/Session/Linking/Reached.antt =====
-- core/session.ts: the dependencies that an action has itself or through inline tables, and what it
-- means that they are linked.
use mathlib.Core.Bool.{false≢true}
use dataform.Prelude.{
  ℕ, suc, ◌≡◌, refl, sym, ap, subst, inl, inr, String, true, false, eq-cases, Bool-cases, List, [],
  ◌∷◌, map, All, ◌∙◌, false, Elem,
}
use dataform.Stringified.{set_entry, has_entry}
use dataform.Proto.{Target}
use dataform.Session.{SessionAction, is_inline, is_found, find_actions}
use dataform.Session.Linking.{qualified, Found, Qualified, find_from, meaning_of}

pub cons_head {ℓ} : {A : Type ℓ} {x y : A} {xs ys : List A} → x ∷ xs ≡ y ∷ ys → x ≡ y
cons_head e = cc

module _ (normalize : String → String) (actions : List SessionAction) where
  pub find_from-find_actions :
      (i : ℕ) (d : Target) (l : List SessionAction)
      → map (λ p. p.1) (find_from normalize i d l) ≡ find_actions normalize d l
  unfolding find_from find_actions
  find_from-find_actions i d [] = refl
  find_from-find_actions i d (a ∷ l) = elim (Bool-cases (is_found normalize d a)) [
    | inl e ↦ rw e (ap (λ r. a ∷ r) (find_from-find_actions (suc i) d l))
    | inr e ↦ rw e (find_from-find_actions (suc i) d l)
  ]

  -- The only action that the dependency denotes, which is no inline table, has this name and target.
  pub record Denotes (d : Target) (name : String) (target : Target) : Type 0 where
    pub action : SessionAction
    pub only : find_actions normalize d actions ≡ action ∷ []
    pub real : is_inline action ≡ false
    pub named : action.name ≡ name
    pub targeted : action.target ≡ target

  -- A dependency of the action, or one that it has through inline tables.
  pub data IsReached (own : SessionAction) : Target → Type 0 where
    direct : {d : Target} → Elem d own.dependency_targets → IsReached own d
    through :
        {d : Target} (e : Target) (b : SessionAction)
        → IsReached own e
        → find_actions normalize e actions ≡ b ∷ []
        → is_inline b ≡ true
        → Elem d b.dependency_targets
        → IsReached own d

  -- Some dependency that is reached denotes the entry.
  abbrev pub IsLinked : SessionAction → String × Target → Type 0
  IsLinked own e = (d : Target) × IsReached own d × Denotes d e.0 e.1

  pub meaning-Denotes :
      (self : ℕ) (whole : List Target) (d : Target) (name : String) (target : Target) (f : Found)
      → map (λ p. p.1) f ≡ find_actions normalize d actions
      → meaning_of self whole f ≡ qualified name target
      → Denotes d name target
  unfolding meaning_of
  meaning-Denotes self whole d name target [] e h = cc
  meaning-Denotes self whole d name target ((i, a) ∷ []) e h = elim (Bool-cases (is_inline a)) [
    | inl inline ↦ let k = rw inline at h in cc
    | inr real ↦
        let k = rw real at h in
        record { action = a; only = sym e; real = real; named = cc; targeted = cc }
  ]
  meaning-Denotes self whole d name target ((i, a) ∷ (j, b) ∷ more) e h = cc

  pub set_entry-All :
      (own : SessionAction) (name : String) (target : Target) (found : Qualified)
      → IsLinked own (name, target)
      → All (IsLinked own) found
      → All (IsLinked own) (set_entry name target found)
  unfolding set_entry
  set_entry-All own name target [] k h = (k, tt)
  set_entry-All own name target ((j, t) ∷ found) k (h, hs) = elim (eq-cases j name) [
    | inl (e, same) ↦ rw e (subst (λ n. IsLinked own (n, target)) (sym same) k, hs)
    | inr (e, other) ↦ rw e (h, set_entry-All own name target found k hs)
  ]

  -- What a dependency has come to: it denotes one action, which is among those found, or is an inline
  -- table all of whose dependencies have come to something.
  pub data IsResolved (found : Qualified) : Target → Type 0 where
    named :
        {d : Target} (b : SessionAction)
        → find_actions normalize d actions ≡ b ∷ []
        → is_inline b ≡ false
        → has_entry b.name found ≡ true
        → IsResolved found d
    expanded :
        {d : Target} (b : SessionAction)
        → find_actions normalize d actions ≡ b ∷ []
        → is_inline b ≡ true
        → ((t : Target) → Elem t b.dependency_targets → IsResolved found t)
        → IsResolved found d

  -- What is reached from resolved dependencies is resolved.
  pub reached-IsResolved :
      (own : SessionAction) (found : Qualified) (d : Target)
      → ((t : Target) → Elem t own.dependency_targets → IsResolved found t)
      → IsReached own d
      → IsResolved found d
  reached-IsResolved own found d h (direct m) = h d m
  reached-IsResolved own found d h (through e b r only inline m) =
      children (reached-IsResolved own found e h r)
    where
      children : IsResolved found e → IsResolved found d
      children (named c only' real k) =
          let same : is_inline c ≡ is_inline b = ap is_inline (cons_head (sym only' ∙ only)) in
          absurd (false≢true (sym real ∙ same ∙ inline))
      children (expanded c only' inline' k) =
          k d (subst (λ x. Elem d x.dependency_targets) (sym (cons_head (sym only' ∙ only))) m)
