-- ===== src/Prelude/Sets.antt =====
-- Sets of strings as JavaScript keeps them: in order of insertion, with no repetition.
use Prim.Native.String.{String}
use mathlib.Core.Path.{◌≡◌, refl, subst}
use mathlib.Core.Logic.{◌↔◌, inl, inr}
use mathlib.Core.Bool.{Bool, true, false, ◌||◌, ◌&&◌}
use mathlib.Core.List.{List, [], ◌∷◌, ◌++◌, map, reverse, reverse_aux}
use native.Mathlib.Omega.{arith}
use text.Mathlib.Text.{◌==◌}
use text.Mathlib.TextEquality.{eq_iff}
use dataform.Prelude.Tests.{if◌then◌else◌, Bool-cases, eq-cases}
use dataform.Prelude.Lists.{filter, Elem, here, there}

-- `Array.prototype.includes`, and `Set.prototype.has`
unfoldable pub includes : List String → String → Bool
includes [] x = false
includes (v ∷ vs) x = v == x || includes vs x

abbrev pub Has : List String → String → Type 0
Has vs x = includes vs x ≡ true

-- `Set.prototype.add`
unfoldable pub add : List String → String → List String
add s x = if includes s x then s else s ++ x ∷ []

-- `set.add` for every string of a list
unfoldable pub add_all : List String → List String → List String
add_all s [] = s
add_all s (x ∷ xs) = add_all (add s x) xs

pub includes-append :
    (xs ys : List String) (a : String) → includes (xs ++ ys) a ≡ (includes xs a || includes ys a)
unfolding includes
includes-append [] ys a = refl
includes-append (x ∷ xs) ys a = ground (arith, includes-append xs ys a)

pub includes-add :
    (s : List String) (x a : String) → includes (add s x) a ≡ (includes s a || x == a)
unfolding add includes
includes-add s x a = ground (arith, includes-append s (x ∷ []) a, eq_iff x a)

pub includes-add_all :
    (s xs : List String) (a : String) → includes (add_all s xs) a ≡ (includes s a || includes xs a)
unfolding add_all includes
includes-add_all s [] a = ground arith
includes-add_all s (x ∷ xs) a = ground (arith, includes-add_all (add s x) xs a, includes-add s x a)

includes-reverse_aux :
    (xs ys : List String) (a : String)
    → includes (reverse_aux xs ys) a ≡ (includes xs a || includes ys a)
unfolding includes
includes-reverse_aux [] ys a = refl
includes-reverse_aux (x ∷ xs) ys a = ground (arith, includes-reverse_aux xs (x ∷ ys) a)

pub includes-reverse : (xs : List String) (a : String) → includes (reverse xs) a ≡ includes xs a
unfolding includes
includes-reverse xs a = ground (arith, includes-reverse_aux xs [] a)

pub includes-filter :
    (p : String → Bool) (xs : List String) (a : String)
    → includes (filter p xs) a ≡ (includes xs a && p a)
unfolding includes
includes-filter p [] a = refl
includes-filter p (x ∷ xs) a = ground (arith, eq_iff x a, includes-filter p xs a)

module _ {ℓ} {A : Type ℓ} (f : A → String) (p : A → Bool) where
  pub Has-map-filter :
      (xs : List A) (x : String)
      → Has (map f (filter p xs)) x
      → (a : A) × Elem a xs × (f a ≡ x) × (p a ≡ true)
  unfolding includes
  Has-map-filter [] x h = cc
  Has-map-filter (a ∷ xs) x h = elim (Bool-cases (p a)) [
    | inl kept ↦ elim (eq-cases (f a) x) [
      | inl (_, same) ↦ (a, here refl, same, kept)
      | inr (other, _) ↦
          let (b, e, named, q) = Has-map-filter xs x (ground arith) in (b, there e, named, q)
    ]
    | inr dropped ↦
        let (b, e, named, q) = Has-map-filter xs x (rw dropped at h) in (b, there e, named, q)
  ]

  pub map-filter-Has :
      {a : A} (xs : List A) → Elem a xs → p a ≡ true → Has (map f (filter p xs)) (f a)
  unfolding includes
  map-filter-Has {a} [] e q = elim e [ ]
  map-filter-Has {a} (b ∷ xs) (here same) q = ground (arith, eq_iff (f b) (f a))
  map-filter-Has {a} (b ∷ xs) (there e) q = ground (arith, map-filter-Has xs e q)

  pub map-filter_iff :
      (xs : List A) (x : String)
      → Has (map f (filter p xs)) x ↔ ((a : A) × Elem a xs × (f a ≡ x) × (p a ≡ true))
  map-filter_iff xs x = (
    Has-map-filter xs x,
    λ (a, e, named, q). subst (λ y. Has (map f (filter p xs)) y) named (map-filter-Has xs e q),
  )
