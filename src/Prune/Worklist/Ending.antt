-- ===== src/Prune/Worklist/Ending.antt =====
-- api/commands/prune.ts: a work list loop ends, since no name is pushed twice.
use dataform.Prelude.{
  ℕ, zero, suc, ◌+◌, ◌≤◌, ◌<◌, String, false, not, ◌≡◌, ◌≢◌, ◌∙◌, inl, inr, List, [], ◌∷◌, eq_iff,
  Bool-cases, eq-cases, length, filter, includes, Has, add, includes-add, Error, Result,
  Result-cases, ok, throw, out_of_fuel, arith,
}
use dataform.Prune.Worklist.{Work, push, push_new, expand}
use dataform.Prune.Worklist.Closure.{queue-push_new}

-- How many of the names are not included yet.
pub missing : List String → List String → ℕ
missing names included = length (filter (λ name. not (includes included name)) names)

missing-add_le : (names s : List String) (a : String) → missing names (add s a) ≤ missing names s
unfolding missing
missing-add_le [] s a = omega arith
missing-add_le (n ∷ names) s a = ground (arith, missing-add_le names s a, includes-add s a n)

missing-add_lt :
    (names s : List String) (a : String)
    → Has names a
    → includes s a ≡ false
    → missing names (add s a) < missing names s
unfolding missing includes
missing-add_lt [] s a h new = cc
missing-add_lt (n ∷ names) s a h new = elim (eq-cases n a) [
  | inl (_, same) ↦ ground (arith, missing-add_le names s a, includes-add s a n, eq_iff a n)
  | inr (other, _) ↦ ground (arith, missing-add_lt names s a, includes-add s a n)
]

pub missing-le-length : (names s : List String) → missing names s ≤ length names
unfolding missing
missing-le-length [] s = omega arith
missing-le-length (n ∷ names) s = ground (arith, missing-le-length names s)

module _ (names : List String) where
  -- The work that is left: each round pops a name, and a push takes one from the missing.
  abbrev left : Work → ℕ
  left w = length w.queue + missing names w.included

  left-push : (w : Work) (a : String) → Has names a → left (push w a) ≤ left w
  unfolding push
  left-push w a h = elim (Bool-cases (includes w.included a)) [
    | inl old ↦ rw old (omega arith)
    | inr new ↦ rw new (omega (arith, missing-add_lt names w.included a h new))
  ]

  left-push_new :
      (found : List String) (w : Work)
      → ((a : String) → Has found a → Has names a)
      → left (push_new w found) ≤ left w
  unfolding push_new includes
  left-push_new [] w h = omega arith
  left-push_new (a ∷ found) w h = omega (
    arith,
    left-push w a (h a (ground (arith, eq_iff a a))),
    left-push_new found (push w a) (λ b m. h b (ground arith)),
  )

  module _ (neighbours : String → Result (List String)) where
    -- The neighbours are computed, and stand among the names.
    pub record IsBounded : Type 0 where
      pub within :
          (name : String) (found : List String)
          → neighbours name ≡ ok found
          → (a : String) → Has found a
          → Has names a
      pub computed : (name : String) → neighbours name ≢ out_of_fuel

    pub expand-ne-out_of_fuel :
        IsBounded
        → (fuel : ℕ) (queue included : List String) → length queue + missing names included ≤ fuel
        → expand neighbours fuel queue included ≢ out_of_fuel
    unfolding expand
    expand-ne-out_of_fuel b fuel [] included enough = cc
    expand-ne-out_of_fuel b zero (name ∷ queue) included enough = absurd (omega arith)
    expand-ne-out_of_fuel b (suc fuel) (name ∷ queue) included enough =
        elim (Result-cases (neighbours name)) [
          | inl (found, e) ↦
              let w : Work = record { queue = queue; included = included } in
              let less = left-push_new found w (b.within name found e) in
              rw (e, expand)
                (expand-ne-out_of_fuel b fuel (push_new w found).queue (push_new w found).included
                  (omega arith))
          | inr (inl (err, e)) ↦ rw (e, expand) (cc)
          | inr (inr e) ↦ absurd (b.computed name e)
        ]

    -- The loop throws only what `neighbours` throws at one of the names.
    pub expand-eq-throw :
        IsBounded
        → (fuel : ℕ) (queue included : List String) (err : Error)
        → ((a : String) → Has queue a → Has names a)
        → expand neighbours fuel queue included ≡ throw err
        → (name : String) × Has names name × (neighbours name ≡ throw err)
    unfolding expand includes
    expand-eq-throw b fuel [] included err listed e = cc
    expand-eq-throw b zero (name ∷ queue) included err listed e = cc
    expand-eq-throw b (suc fuel) (name ∷ queue) included err listed e =
        elim (Result-cases (neighbours name)) [
          | inl (found, e') ↦
              let w : Work = record { queue = queue; included = included } in
              expand-eq-throw b fuel (push_new w found).queue (push_new w found).included err
                (λ a m. elim (Bool-cases (includes queue a)) [
                  | inl old ↦ listed a (ground arith)
                  | inr new ↦ b.within name found e' a (ground (arith, queue-push_new found w a))
                ])
                (rw (e', expand) at e)
          | inr (inl (err', e')) ↦
              (name, listed name (ground (arith, eq_iff name name)), e' ∙ (rw (e', expand) at e))
          | inr (inr e') ↦ absurd (b.computed name e')
        ]
