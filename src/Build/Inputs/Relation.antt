-- ===== src/Build/Inputs/Relation.antt =====
-- api/commands/build.ts: the transitive inputs of an action, as a relation.
use mathlib.Core.Bool.{false≢true}
use dataform.Prelude.{
  ◌≡◌, refl, sym, ap, ◌∙◌, subst, ◌⊎◌, inl, inr, ◌↔◌, true, false, List, ◌∷◌, some, some_cancel,
  Elem, here, there,
}
use dataform.Stringified.{Stringifier, StringifiedMap, get}
use dataform.Proto.{Target}
use dataform.Build.Inputs.{Action, dependency_targets_of, is_source}

module _ (key : Stringifier Target) (by_target : StringifiedMap Action) where
  -- A dependency of the action, or an input of a dependency that is neither a table nor a declaration.
  pub data IsInput : Action → Target → Type 0 where
    direct : {a : Action} {u : Target} → Elem u (dependency_targets_of a) → IsInput a u
    through :
        {a : Action} {u : Target} (t : Target) (b : Action)
        → Elem t (dependency_targets_of a)
        → get key t by_target ≡ some b
        → is_source b ≡ false
        → IsInput b u
        → IsInput a u

  -- The same, for a list of dependencies.
  pub data Among (targets : List Target) (u : Target) : Type 0 where
    listed : Elem u targets → Among targets u
    behind :
        (t : Target) (b : Action)
        → Elem t targets
        → get key t by_target ≡ some b
        → is_source b ≡ false
        → IsInput b u
        → Among targets u

  pub Among-IsInput : (a : Action) (u : Target) → Among (dependency_targets_of a) u ↔ IsInput a u
  Among-IsInput a u = (to, from)
    where
      to : Among (dependency_targets_of a) u → IsInput a u
      to (listed e) = direct e
      to (behind t b e found follow i) = through t b e found follow i

      from : IsInput a u → Among (dependency_targets_of a) u
      from (direct e) = listed e
      from (through t b e found follow i) = behind t b e found follow i

  Among-there :
      (t : Target) (targets : List Target) (u : Target) → Among targets u → Among (t ∷ targets) u
  Among-there t targets u (listed e) = listed (there e)
  Among-there t targets u (behind v b e found follow i) = behind v b (there e) found follow i

  Among-uncons :
      (t : Target) (targets : List Target) (u : Target)
      → Among (t ∷ targets) u
      → (t ≡ u)
        ⊎ ((b : Action) × (get key t by_target ≡ some b) × (is_source b ≡ false) × IsInput b u)
        ⊎ Among targets u
  Among-uncons t targets u (listed (here e)) = inl (sym e)
  Among-uncons t targets u (listed (there e)) = inr (inr (listed e))
  Among-uncons t targets u (behind v b (here e) found follow i) =
      inr (inl (b, subst (λ w. get key w by_target ≡ some b) e found, follow, i))
  Among-uncons t targets u (behind v b (there e) found follow i) =
      inr (inr (behind v b e found follow i))

  pub Among-source :
      (t : Target) (targets : List Target) (b : Action) (P : Target → Type 0)
      → get key t by_target ≡ some b
      → is_source b ≡ true
      → (u : Target) → ((P u ⊎ (t ≡ u)) ⊎ Among targets u) ↔ (P u ⊎ Among (t ∷ targets) u)
  Among-source t targets b P found source u = (to, from)
    where
      to : (P u ⊎ (t ≡ u)) ⊎ Among targets u → P u ⊎ Among (t ∷ targets) u
      to (inl (inl p)) = inl p
      to (inl (inr e)) = inr (listed (here (sym e)))
      to (inr m) = inr (Among-there t targets u m)

      from : P u ⊎ Among (t ∷ targets) u → (P u ⊎ (t ≡ u)) ⊎ Among targets u
      from (inl p) = inl (inl p)
      from (inr m) = elim (Among-uncons t targets u m) [
        | inl e ↦ inl (inr e)
        | inr (inl (c, found', follow, i)) ↦
            absurd
              (false≢true (sym follow ∙ ap is_source (some_cancel (sym found' ∙ found)) ∙ source))
        | inr (inr rest) ↦ inr rest
      ]

  pub Among-follow :
      (t : Target) (targets values : List Target) (b : Action) (P : Target → Type 0)
      → get key t by_target ≡ some b
      → is_source b ≡ false
      → ((u : Target) → Elem u values ↔ IsInput b u)
      → (u : Target)
      → (((P u ⊎ (t ≡ u)) ⊎ Elem u values) ⊎ Among targets u) ↔ (P u ⊎ Among (t ∷ targets) u)
  Among-follow t targets values b P found follow inputs u = (to, from)
    where
      to : ((P u ⊎ (t ≡ u)) ⊎ Elem u values) ⊎ Among targets u → P u ⊎ Among (t ∷ targets) u
      to (inl (inl (inl p))) = inl p
      to (inl (inl (inr e))) = inr (listed (here (sym e)))
      to (inl (inr e)) = inr (behind t b (here refl) found follow ((inputs u).0 e))
      to (inr m) = inr (Among-there t targets u m)

      from : P u ⊎ Among (t ∷ targets) u → ((P u ⊎ (t ≡ u)) ⊎ Elem u values) ⊎ Among targets u
      from (inl p) = inl (inl (inl p))
      from (inr m) = elim (Among-uncons t targets u m) [
        | inl e ↦ inl (inl (inr e))
        | inr (inl (c, found', follow', i)) ↦
            inl (inr ((inputs u).1 (subst (λ d. IsInput d u) (some_cancel (sym found' ∙ found)) i)))
        | inr (inr rest) ↦ inr rest
      ]
