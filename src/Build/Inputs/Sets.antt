-- ===== src/Build/Inputs/Sets.antt =====
-- common/strings/stringifier.ts: what the members of a set are, for the sets of targets of a build.
use dataform.Prelude.{
  ◌≡◌, refl, sym, ap, ◌∙◌, subst, ◌⊎◌, inl, inr, ◌↔◌, String, ◌==◌, eq_iff, Bool-cases, List, [],
  ◌∷◌, map, Elem, here, there, Has, includes, add, includes-add, arith,
}
use dataform.Stringified.{Stringifier, StringifiedSet, add_value, values_of}
use dataform.Stringified.Laws.{IsFaithful}
use dataform.Proto.{Target}
use dataform.Build.Inputs.{add_values}

module _ (key : Stringifier Target) where
  -- The members are the texts of the targets that have the property.
  pub record Holds (s : StringifiedSet) (P : Target → Type 0) : Type 0 where
    pub only : (m : String) → Has s.members m → (u : Target) × (key.stringify u ≡ m) × P u
    pub every : (u : Target) → P u → Has s.members (key.stringify u)

  pub Holds-map :
      (s : StringifiedSet) (P Q : Target → Type 0)
      → ((u : Target) → P u ↔ Q u)
      → Holds s P
      → Holds s Q
  Holds-map s P Q same h = record {
    only = λ m k. let (u, e, p) = h.only m k in (u, e, (same u).0 p);
    every = λ u q. h.every u ((same u).1 q);
  }

  pub Holds-none :
      (P : Target → Type 0) → ((u : Target) → ¬ P u) → Holds (record { members = [] }) P
  unfolding includes
  Holds-none P never = record { only = λ m k. cc; every = λ u p. absurd (never u p) }

  pub add_value-Holds :
      (t : Target) (s : StringifiedSet) (P : Target → Type 0)
      → Holds s P
      → Holds (add_value key t s) (λ u. P u ⊎ (t ≡ u))
  unfolding add_value
  add_value-Holds t s P h = record { only = only_of; every = every_of }
    where
      only_of :
          (m : String)
          → Has (add s.members (key.stringify t)) m
          → (u : Target) × (key.stringify u ≡ m) × (P u ⊎ (t ≡ u))
      only_of m k = elim (Bool-cases (includes s.members m)) [
        | inl old ↦ let (u, e, p) = h.only m old in (u, e, inl p)
        | inr new ↦ (
          t,
          ground (arith, includes-add s.members (key.stringify t) m, eq_iff (key.stringify t) m),
          inr refl,
        )
      ]

      every_of :
          (u : Target) → P u ⊎ (t ≡ u) → Has (add s.members (key.stringify t)) (key.stringify u)
      every_of u (inl p) =
          let old = h.every u p in
          ground (arith, includes-add s.members (key.stringify t) (key.stringify u))
      every_of u (inr e) =
          let same = (eq_iff (key.stringify t) (key.stringify u)).1 (ap key.stringify e) in
          ground (arith, includes-add s.members (key.stringify t) (key.stringify u))

  pub add_values-Holds :
      (targets : List Target) (s : StringifiedSet) (P : Target → Type 0)
      → Holds s P
      → Holds (add_values key targets s) (λ u. P u ⊎ Elem u targets)
  unfolding add_values
  add_values-Holds [] s P h = Holds-map s P (λ u. P u ⊎ Elem u []) (λ u. (inl, only_left u)) h
    where
      only_left : (u : Target) → P u ⊎ Elem u [] → P u
      only_left u (inl p) = p
      only_left u (inr e) = elim e [ ]
  add_values-Holds (t ∷ targets) s P h =
      Holds-map (add_values key targets (add_value key t s)) (λ u. (P u ⊎ (t ≡ u)) ⊎ Elem u targets)
        (λ u. P u ⊎ Elem u (t ∷ targets)) (λ u. (to u, from u))
        (add_values-Holds targets (add_value key t s) (λ u. P u ⊎ (t ≡ u))
          (add_value-Holds t s P h))
    where
      to : (u : Target) → (P u ⊎ (t ≡ u)) ⊎ Elem u targets → P u ⊎ Elem u (t ∷ targets)
      to u (inl (inl p)) = inl p
      to u (inl (inr e)) = inr (here (sym e))
      to u (inr e) = inr (there e)

      from : (u : Target) → P u ⊎ Elem u (t ∷ targets) → (P u ⊎ (t ≡ u)) ⊎ Elem u targets
      from u (inl p) = inl (inl p)
      from u (inr (here e)) = inl (inr (sym e))
      from u (inr (there e)) = inr e

  parsed-Elem :
      (members : List String) (m : String)
      → Has members m
      → Elem (key.parse m) (map key.parse members)
  unfolding includes
  parsed-Elem [] m h = cc
  parsed-Elem (n ∷ members) m h = elim (Bool-cases (n == m)) [
    | inl same ↦ here (ap key.parse (sym ((eq_iff n m).0 same)))
    | inr other ↦ there (parsed-Elem members m (ground arith))
  ]

  Elem-parsed :
      (members : List String) (u : Target)
      → Elem u (map key.parse members)
      → (m : String) × Has members m × (key.parse m ≡ u)
  unfolding includes
  Elem-parsed [] u e = elim e [ ]
  Elem-parsed (n ∷ members) u (here same) = (n, ground (arith, eq_iff n n), sym same)
  Elem-parsed (n ∷ members) u (there e) =
      let (m, h, same) = Elem-parsed members u e in (m, ground arith, same)

  pub values_of_iff :
      (s : StringifiedSet) (P : Target → Type 0)
      → IsFaithful key
      → Holds s P
      → (u : Target) → Elem u (values_of key s) ↔ P u
  unfolding values_of
  values_of_iff s P faithful h u = (to, from)
    where
      to : Elem u (map key.parse s.members) → P u
      to e =
          let (m, k, same) = Elem-parsed s.members u e in
          let (v, text, p) = h.only m k in subst P (sym (faithful v) ∙ ap key.parse text ∙ same) p

      from : P u → Elem u (map key.parse s.members)
      from p =
          subst (λ v. Elem v (map key.parse s.members)) (faithful u)
            (parsed-Elem s.members (key.stringify u) (h.every u p))
