-- ===== src/Promises/Tests.antt =====
-- Small inputs for `retry`.
use dataform.Prelude.{ℕ, zero, suc, Bool, String, ◌≡◌, ◌==◌, refl}
use dataform.Promises.{Attempt, resolves, rejects, resolved, retry}
use dataform.Promises.Laws.{Ends, retry-Ends}

-- The first call fails, the second succeeds.
abbrev fn : ℕ → Attempt ℕ String
fn zero = rejects "busy"
fn (suc n) = resolves n

abbrev is_busy : String → Bool
is_busy error = error == "busy"

retries : retry fn is_busy 3 ≡ (resolved 0, 2)
unfolding retry
retries = refl

retry-Ends_example : Ends fn is_busy 3 (retry fn is_busy 3).1 (retry fn is_busy 3).0
retry-Ends_example = retry-Ends fn is_busy 3
