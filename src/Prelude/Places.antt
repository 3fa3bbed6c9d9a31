-- ===== src/Prelude/Places.antt =====
-- Places in lists that are joined and filtered.
use mathlib.Core.Path.{◌≡◌, sym, ap, ◌∙◌, subst}
use mathlib.Core.Logic.{◌⊎◌, inl, inr}
use mathlib.Core.Bool.{Bool, true}
use mathlib.Core.List.{List, [], ◌∷◌, ◌++◌}
use dataform.Prelude.Tests.{if◌then◌else◌, Bool-cases}
use dataform.Prelude.Lists.{filter, Elem, here, there}

pub Elem-append {ℓ} :
    {A : Type ℓ} {x : A} (xs ys : List A) → Elem x (xs ++ ys) → Elem x xs ⊎ Elem x ys
Elem-append [] ys e = inr e
Elem-append (y ∷ xs) ys (here same) = inl (here same)
Elem-append (y ∷ xs) ys (there e) = elim (Elem-append xs ys e) [
  | inl l ↦ inl (there l)
  | inr r ↦ inr r
]

pub Elem-append_left {ℓ} :
    {A : Type ℓ} {x : A} {xs : List A} (ys : List A) → Elem x xs → Elem x (xs ++ ys)
Elem-append_left ys (here same) = here same
Elem-append_left ys (there e) = there (Elem-append_left ys e)

pub Elem-append_right {ℓ} :
    {A : Type ℓ} {x : A} (xs : List A) {ys : List A} → Elem x ys → Elem x (xs ++ ys)
Elem-append_right [] e = e
Elem-append_right (y ∷ xs) e = there (Elem-append_right xs e)

pub Elem-filter {ℓ} :
    {A : Type ℓ} {x : A} (p : A → Bool) (xs : List A)
    → Elem x (filter p xs)
    → Elem x xs × (p x ≡ true)
Elem-filter p [] e = elim e [ ]
Elem-filter {x} p (y ∷ xs) e = elim (Bool-cases (p y)) [
  | inl kept ↦
      first kept (λ m. Elem-filter p xs m)
        (subst (λ b. Elem x (if b then y ∷ filter p xs else filter p xs)) kept e)
  | inr dropped ↦
      let (m, q) =
        Elem-filter p xs
          (subst (λ b. Elem x (if b then y ∷ filter p xs else filter p xs)) dropped e) in
      (there m, q)
]
  where
    first :
        p y ≡ true
        → (Elem x (filter p xs) → Elem x xs × (p x ≡ true))
        → Elem x (y ∷ filter p xs)
        → Elem x (y ∷ xs) × (p x ≡ true)
    first kept ih (here same) = (here same, ap p same ∙ kept)
    first kept ih (there m) = let (m', q) = ih m in (there m', q)

pub filter-Elem {ℓ} :
    {A : Type ℓ} {x : A} (p : A → Bool) (xs : List A)
    → Elem x xs
    → p x ≡ true
    → Elem x (filter p xs)
filter-Elem p [] e q = elim e [ ]
filter-Elem {x} p (y ∷ xs) (here same) q = rw (ap p (sym same) ∙ q) (here same)
filter-Elem {x} p (y ∷ xs) (there e) q = elim (Bool-cases (p y)) [
  | inl kept ↦ rw kept (there (filter-Elem p xs e q))
  | inr dropped ↦ rw dropped (filter-Elem p xs e q)
]
