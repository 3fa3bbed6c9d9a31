-- ===== src/Promises.antt =====
-- common/promises/index.ts: `retry`.
pub mod Laws
mod Tests
use dataform.Prelude.{ℕ, zero, suc, Bool, true, false, Option, none, some, if◌then◌else◌}

-- How one call of the function ends.
pub data Attempt (A E : Type 0) : Type 0 where
  resolves : A → Attempt A E
  rejects : E → Attempt A E

-- How `retry` ends. With no attempts at all it throws `undefined`.
pub data Settled (A E : Type 0) : Type 0 where
  resolved : A → Settled A E
  rejected : Option E → Settled A E

module _ {A E : Type 0} (fn : ℕ → Attempt A E) (matches_retriable_error : E → Bool) where
  -- The loop: the attempts left, the attempts made, and the last error. The second result is the number
  -- of calls made in the end.
  unfoldable pub retry_from : ℕ → ℕ → Option E → Settled A E × ℕ
  retry_from zero made last_err = (rejected last_err, made)
  retry_from (suc left) made last_err = elim (fn made) [
    | resolves a ↦ (resolved a, suc made)
    | rejects e ↦
        let again = retry_from left (suc made) (some e) in
        if matches_retriable_error e then again else (rejected (some e), suc made)
  ]

  unfoldable pub retry : ℕ → Settled A E × ℕ
  unfolding retry_from
  retry max_attempts = retry_from max_attempts 0 none
