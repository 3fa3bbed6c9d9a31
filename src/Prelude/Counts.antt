-- ===== src/Prelude/Counts.antt =====
-- How often a string stands in a list.
use Prim.Native.Nat.{ℕ, suc, ◌+◌}
use Prim.Native.String.{String}
use mathlib.Core.Path.{◌≡◌}
use mathlib.Core.Bool.{Bool, true, false, not, ◌&&◌}
use mathlib.Core.List.{List, [], ◌∷◌, ◌++◌, map}
use native.Mathlib.Omega.{arith}
use text.Mathlib.Text.{◌==◌}
use dataform.Prelude.Tests.{if◌then◌else◌}
use dataform.Prelude.Lists.{filter}

unfoldable pub count : String → List String → ℕ
count a [] = 0
count a (x ∷ xs) = if x == a then suc (count a xs) else count a xs

pub count-append : (a : String) (xs ys : List String) → count a (xs ++ ys) ≡ count a xs + count a ys
unfolding count
count-append a [] ys = omega arith
count-append a (x ∷ xs) ys = ground (arith, count-append a xs ys)

-- A list parted by three tests of which each item passes exactly one.
pub count-parts {ℓ} :
    {A : Type ℓ} (f : A → String) (p q r : A → Bool)
    → ((x : A) → q x ≡ true → p x ≡ false)
    → ((x : A) → r x ≡ (not (p x) && not (q x)))
    → (a : String) (xs : List A)
    → count a (map f xs)
      ≡ count a (map f (filter p xs))
        + count a (map f (filter q xs))
        + count a (map f (filter r xs))
unfolding count
count-parts f p q r apart rest a [] = omega arith
count-parts f p q r apart rest a (x ∷ xs) =
    ground (arith, apart x, rest x, count-parts f p q r apart rest a xs)
