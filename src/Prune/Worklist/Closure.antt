-- ===== src/Prune/Worklist/Closure.antt =====
-- api/commands/prune.ts: what a work list loop returns is a reflexive transitive closure.
use dataform.Prelude.{
  ℕ, zero, suc, String, false, not, ◌||◌, ◌&&◌, ◌≡◌, ◌⊎◌, inl, inr, ◌↔◌, List, [], ◌∷◌, ◌==◌,
  eq_iff, Bool-cases, eq-cases, subst, includes, Has, includes-add, Result, ok, bind-eq-ok,
  ok_injective, arith,
}
use dataform.Prune.Worklist.{Work, push, push_new, expand}

included-push :
    (w : Work) (name a : String)
    → includes (push w name).included a ≡ (includes w.included a || name == a)
unfolding push
included-push w name a = ground (arith, includes-add w.included name a, eq_iff name a)

pub included-push_new :
    (names : List String) (w : Work) (a : String)
    → includes (push_new w names).included a ≡ (includes w.included a || includes names a)
unfolding push_new includes
included-push_new [] w a = ground arith
included-push_new (name ∷ names) w a =
    ground (arith, included-push_new names (push w name) a, included-push w name a)

-- What is included and not in the queue was so before.
queue-push :
    (w : Work) (name a : String)
    → includes (push w name).queue a
      ≡ (includes w.queue a || (name == a && not (includes w.included a)))
unfolding push includes
queue-push w name a = ground (arith, eq_iff name a)

pub queue-push_new :
    (names : List String) (w : Work) (a : String)
    → includes (push_new w names).queue a
      ≡ (includes w.queue a || (includes names a && not (includes w.included a)))
unfolding push_new includes
queue-push_new [] w a = ground arith
queue-push_new (name ∷ names) w a =
    ground
      (arith, queue-push_new names (push w name) a, included-push w name a, queue-push w name a)

-- What a chain of steps of `R` leads to from what `P` holds of.
pub data Reach (R : String → String → Type 0) (P : String → Type 0) : String → Type 0 where
  given : {x : String} → P x → Reach R P x
  next : {x y : String} → Reach R P x → R x y → Reach R P y

-- `neighbours` computes the steps of `R`.
abbrev pub Computes : (String → Result (List String)) → (String → String → Type 0) → Type 0
Computes neighbours R =
    (x : String) (names : List String)
    → neighbours x ≡ ok names
    → (y : String) → Has names y ↔ R x y

module _ (neighbours : String → Result (List String)) (R : String → String → Type 0)
    (steps : Computes neighbours R) where
  -- Every neighbour of `x` is in the list.
  abbrev IsClosedAt : List String → String → Type 0
  IsClosedAt included x =
      (names : List String) × (neighbours x ≡ ok names)
      × ((y : String) → Has names y → Has included y)

  record Invariant (start : List String) (w : Work) : Type 0 where
    sound : (x : String) → Has w.included x → Reach R (Has start) x
    queued : (x : String) → Has w.queue x → Has w.included x
    kept : (x : String) → Has start x → Has w.included x
    closed : (x : String) → Has w.included x → Has w.queue x ⊎ IsClosedAt w.included x

  module _ (start queue included : List String) (name : String) (found : List String)
      (e : neighbours name ≡ ok found)
      (inv : Invariant start (record { queue = name ∷ queue; included = included })) where
    abbrev before : Work
    before = record { queue = queue; included = included }

    abbrev after : Work
    after = push_new before found

    popped-included : Has included name
    unfolding includes
    popped-included = inv.queued name (ground (arith, eq_iff name name))

    grown : (x : String) → Has included x → Has after.included x
    grown x h = ground (arith, included-push_new found before x)

    IsClosedAt-grown : (x : String) → IsClosedAt included x → IsClosedAt after.included x
    IsClosedAt-grown x (names, e', all) = (names, e', λ y h. grown y (all y h))

    -- The popped name is closed now, and so is what was closed before.
    closed_after :
        (x : String) → Has after.included x → Has after.queue x ⊎ IsClosedAt after.included x
    unfolding includes
    closed_after x h = elim (eq-cases name x) [
      | inl (_, same) ↦ inr (
          subst (λ y. IsClosedAt after.included y) same
            (found, e, λ y k. ground (arith, included-push_new found before y)))
      | inr (other, _) ↦ elim (Bool-cases (includes included x)) [
        | inl old ↦ elim (inv.closed x old) [
          | inl waiting ↦ inl (still_queued waiting other)
          | inr c ↦ inr (IsClosedAt-grown x c)
        ]
        | inr new ↦
            inl (ground (arith, included-push_new found before x, queue-push_new found before x))
      ]
    ]
      where
        still_queued : Has (name ∷ queue) x → (name == x) ≡ false → Has after.queue x
        still_queued waiting other = ground (arith, queue-push_new found before x)

    Invariant-push_new : Invariant start after
    unfolding includes
    Invariant-push_new = record {
      sound = λ x h. elim (Bool-cases (includes included x)) [
        | inl old ↦ inv.sound x old
        | inr new ↦
            next (inv.sound name popped-included)
              ((steps name found e x).0 (ground (arith, included-push_new found before x)))
      ];
      queued = λ x h. elim (Bool-cases (includes queue x)) [
        | inl waiting ↦ grown x (inv.queued x (ground arith))
        | inr new ↦ ground (arith, included-push_new found before x, queue-push_new found before x)
      ];
      kept = λ x h. grown x (inv.kept x h);
      closed = closed_after;
    }

  -- What the loop returns, when it is started on the given names, holds exactly the names that a
  -- chain of `neighbours` leads to from them.
  expand-Invariant :
      (fuel : ℕ) (start queue included out : List String)
      → Invariant start (record { queue = queue; included = included })
      → expand neighbours fuel queue included ≡ ok out
      → Invariant start (record { queue = []; included = out })
  unfolding expand
  expand-Invariant fuel start [] included out inv e =
      subst (λ s. Invariant start (record { queue = []; included = s })) (ok_injective e) inv
  expand-Invariant zero start (name ∷ queue) included out inv e = cc
  expand-Invariant (suc fuel) start (name ∷ queue) included out inv e =
      let (found, one, rest) = bind-eq-ok (neighbours name) _ e in
      let w = push_new (record { queue = queue; included = included }) found in
      expand-Invariant fuel start w.queue w.included out
        (Invariant-push_new start queue included name found one inv) rest

  Reach-included :
      (start out : List String)
      → Invariant start (record { queue = []; included = out })
      → {x : String} → Reach R (Has start) x
      → Has out x
  unfolding includes
  Reach-included start out inv (given {x = y} h) = inv.kept y h
  Reach-included start out inv (next {x} {y} r m) =
      let h : Has out x = Reach-included start out inv r in
      elim (inv.closed x h) [
        | inl waiting ↦ cc
        | inr (names', e', all) ↦ all y ((steps x names' e' y).1 m)
      ]

  pub expand-Reach_iff :
      (fuel : ℕ) (queue start out : List String)
      → ((x : String) → Has queue x ↔ Has start x)
      → expand neighbours fuel queue start ≡ ok out
      → (x : String) → Has out x ↔ Reach R (Has start) x
  expand-Reach_iff fuel queue start out same e x =
      let inv =
        expand-Invariant fuel start queue start out
          (record {
            sound = λ y h. given h;
            queued = λ y. (same y).0;
            kept = λ y h. h;
            closed = λ y h. inl ((same y).1 h);
          })
          e in
      (inv.sound x, Reach-included start out inv)

pub Reach-map :
    {R S : String → String → Type 0} {P Q : String → Type 0}
    (steps : (x y : String) → R x y → S x y) (starts : (x : String) → P x → Q x) {x : String}
    → Reach R P x
    → Reach S Q x
Reach-map steps starts (given {x = y} p) = given (starts y p)
Reach-map steps starts (next {x} {y} r s) = next (Reach-map steps starts r) (steps x y s)
