-- ===== src/Promises/Laws.antt =====
-- common/promises/index.ts: what `retry` calls, and how it ends.
use dataform.Prelude.{
  ℕ, zero, suc, ◌+◌, ◌<◌, ◌≡◌, refl, Bool, true, false, Option, none, some, inl, inr, ◌⊎◌,
  Bool-cases, arith,
}
use native.Mathlib.Decide.{ℕ_discrete}
use dataform.Promises.{Attempt, resolves, rejects, Settled, resolved, rejected, retry_from, retry}

module _ {A E : Type 0} (fn : ℕ → Attempt A E) (retriable : E → Bool) where
  -- The call of that number fails with an error after which the function is called again.
  abbrev pub IsRetried : ℕ → Type 0
  IsRetried i = (e : E) × (fn i ≡ rejects e) × (retriable e ≡ true)

  -- How the loop ends after `calls` calls, when it may make `limit` of them.
  pub data Ends (limit : ℕ) : ℕ → Settled A E → Type 0 where
    succeeds :
        (k : ℕ) (a : A)
        → k < limit
        → ((i : ℕ) → i < k → IsRetried i)
        → fn k ≡ resolves a
        → Ends limit (suc k) (resolved a)
    gives_up :
        (k : ℕ) (e : E)
        → k < limit
        → ((i : ℕ) → i < k → IsRetried i)
        → fn k ≡ rejects e
        → retriable e ≡ false
        → Ends limit (suc k) (rejected (some e))
    exhausts :
        (k : ℕ) (e : E)
        → suc k ≡ limit
        → ((i : ℕ) → i < suc k → IsRetried i)
        → fn k ≡ rejects e
        → Ends limit (suc k) (rejected (some e))
    has_no_attempt : limit ≡ 0 → Ends limit 0 (rejected none)

  -- The error of the call before.
  abbrev IsLast : ℕ → Option E → Type 0
  IsLast zero last = last ≡ none
  IsLast (suc k) last = (e : E) × (last ≡ some e) × (fn k ≡ rejects e)

  one_more :
      (made : ℕ) (e : E)
      → ((i : ℕ) → i < made → IsRetried i)
      → fn made ≡ rejects e
      → retriable e ≡ true
      → (i : ℕ) → i < suc made
      → IsRetried i
  one_more made e before now again i h = elim (ℕ_discrete i made) [
    | yes same ↦ (e, rw same now, again)
    | no other ↦ before i (omega arith)
  ]

  no_attempt_left :
      (limit made : ℕ) (last : Option E)
      → made + 0 ≡ limit
      → ((i : ℕ) → i < made → IsRetried i)
      → IsLast made last
      → Ends limit made (rejected last)
  no_attempt_left limit zero last sum before l = rw l (has_no_attempt (omega arith))
  no_attempt_left limit (suc k) last sum before (e, same, now) =
      rw same (exhausts k e (omega arith) before now)

  attempt_cases : (i : ℕ) → ((a : A) × (fn i ≡ resolves a)) ⊎ ((e : E) × (fn i ≡ rejects e))
  attempt_cases i = go (fn i)
    where
      go : (x : Attempt A E) → ((a : A) × (x ≡ resolves a)) ⊎ ((e : E) × (x ≡ rejects e))
      go (resolves a) = inl (a, refl)
      go (rejects e) = inr (e, refl)

  retry_from-Ends :
      (limit left made : ℕ) (last : Option E)
      → made + left ≡ limit
      → ((i : ℕ) → i < made → IsRetried i)
      → IsLast made last
      → Ends limit
          (retry_from fn retriable left made last).1
          (retry_from fn retriable left made last).0
  unfolding retry_from
  retry_from-Ends limit zero made last sum before l = no_attempt_left limit made last sum before l
  retry_from-Ends limit (suc left) made last sum before l = elim (attempt_cases made) [
    | inl (a, e) ↦ rw (e, retry_from) (succeeds made a (omega arith) before e)
    | inr (err, e) ↦ elim (Bool-cases (retriable err)) [
      | inl again ↦
          rw (e, again, retry_from)
            (retry_from-Ends limit left (suc made) (some err) (omega arith)
              (one_more made err before e again) (err, refl, e))
      | inr done ↦ rw (e, done, retry_from) (gives_up made err (omega arith) before e done)
    ]
  ]

-- `retry` calls the function until a call succeeds, or fails with an error that is not retriable, or
-- the attempts are used up, and ends as its last call did; with no attempts it throws `undefined`.
pub retry-Ends :
    {A E : Type 0} (fn : ℕ → Attempt A E) (retriable : E → Bool) (limit : ℕ)
    → Ends fn retriable limit (retry fn retriable limit).1 (retry fn retriable limit).0
unfolding retry
retry-Ends fn retriable limit =
    retry_from-Ends fn retriable limit limit 0 none (omega arith) (λ i h. elim h [ ]) refl
