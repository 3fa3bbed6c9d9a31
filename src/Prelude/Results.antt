-- ===== src/Prelude/Results.antt =====
-- Results of code that may throw.
use Prim.Native.Nat.{ℕ}
use Prim.Native.String.{String}
use mathlib.Core.Path.{◌≡◌, refl}
use mathlib.Core.List.{List}
use mathlib.Core.Logic.{◌⊎◌, inl, inr, ◌≢◌}
use mathlib.Core.Option.{some}

pub data Error : Type 0 where
  -- `ambiguousActionNameMsg`: the name and the actions that it may mean
  ambiguous_action_name : String → List String → Error
  -- the engine's TypeError on a property of `undefined`
  undefined_access : Error
  -- an `Error` with its message
  error : String → Error
  -- the errors of protoc-gen-ts/runtime/serialize.ts
  varint_not_ended no_more_data incomplete_map_entry : Error
  unrecognized_wire_type expected_one_value : ℕ → Error

-- `out_of_fuel` is no outcome of the program: a loop of the model met its bound.
pub data Result {ℓ} (A : Type ℓ) : Type ℓ where
  ok : A → Result A
  throw : Error → Result A
  out_of_fuel : Result A

infixl 5 ◌>>=◌
abbrev pub ◌>>=◌ {ℓ κ} : {A : Type ℓ} {B : Type κ} → Result A → (A → Result B) → Result B
out_of_fuel >>= next = out_of_fuel
throw thrown >>= next = throw thrown
ok value >>= next = next value

-- What a bind that returned went through.
pub bind-eq-ok {ℓ κ} :
    {A : Type ℓ} {B : Type κ} (first : Result A) (next : A → Result B) {out : B}
    → first >>= next ≡ ok out
    → (between : A) × (first ≡ ok between) × (next between ≡ ok out)
bind-eq-ok out_of_fuel next h = cc
bind-eq-ok (throw thrown) next h = cc
bind-eq-ok (ok value) next h = (value, refl, h)

pub bind_ok {ℓ} : {A : Type ℓ} (m : Result A) → (m >>= λ a. ok a) ≡ m
bind_ok (ok a) = refl
bind_ok (throw e) = refl
bind_ok out_of_fuel = refl

pub ok_injective {ℓ} : {A : Type ℓ} {a b : A} → ok a ≡ ok b → a ≡ b
ok_injective e = cc

pub Result-cases {ℓ} :
    {A : Type ℓ} (r : Result A)
    → ((a : A) × (r ≡ ok a)) ⊎ ((e : Error) × (r ≡ throw e)) ⊎ (r ≡ out_of_fuel)
Result-cases (ok a) = inl (a, refl)
Result-cases (throw e) = inr (inl (e, refl))
Result-cases out_of_fuel = inr (inr refl)

pub some_cancel {ℓ} : {A : Type ℓ} {a b : A} → some a ≡ some b → a ≡ b
some_cancel e = cc

pub throw_ne_ok {ℓ} : {A : Type ℓ} {err : Error} {a : A} → throw err ≢ ok a
throw_ne_ok e = cc

pub ok_ne_out_of_fuel {ℓ} : {A : Type ℓ} {a : A} → ok a ≢ out_of_fuel
ok_ne_out_of_fuel e = cc
