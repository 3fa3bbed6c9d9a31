-- ===== src/Names/Qualified.antt =====
-- core/utils.ts: the name of a target can be read back, so it denotes only that target.
use Prim.Native.String
use text.Mathlib.TextLemmas.{nil-append, cons-append}
use dataform.Prelude.{
  String, true, false, ◌≡◌, refl, sym, ap, ◌∙◌, ◌↔◌, inl, inr, Bool-cases, List, [], ◌∷◌, eq_iff,
  All, if◌then◌else◌, arith,
}
use dataform.Proto.{Target}
use dataform.Names.Patterns.{Denotes}
use dataform.Names.{truthy, has_dot, split_dots, last_segment, join_dots, target_to_name}

abbrev pub NoDot : String → Type 0
NoDot s = has_dot s ≡ false

split_dots_dot : (s : String) → split_dots (String.◌++◌ "." s) ≡ "" ∷ split_dots s
unfolding split_dots
split_dots_dot s = rw (cons-append, nil-append) refl

split_dots-NoDot : (s : String) → NoDot s → split_dots s ≡ s ∷ []
unfolding split_dots has_dot
split_dots-NoDot String.[] h = refl
split_dots-NoDot (String.◌∷◌ c s) h = ground (arith, split_dots-NoDot s)

split_dots-append :
    (part rest : String)
    → NoDot part
    → split_dots (String.◌++◌ part (String.◌++◌ "." rest)) ≡ part ∷ split_dots rest
unfolding split_dots has_dot
split_dots-append String.[] rest h = rw nil-append (split_dots_dot rest)
split_dots-append (String.◌∷◌ c s) rest h =
    rw cons-append (ground (arith, split_dots-append s rest))

-- Joining parts with dots and splitting the text at its dots gives the parts back.
split_dots-join_dots :
    (part : String) (parts : List String)
    → All NoDot (part ∷ parts)
    → split_dots (join_dots (part ∷ parts)) ≡ part ∷ parts
unfolding join_dots
split_dots-join_dots part [] h = split_dots-NoDot part h.0
split_dots-join_dots part (next ∷ parts) h =
    split_dots-append part (join_dots (next ∷ parts)) h.0
    ∙ ap (λ l. part ∷ l) (split_dots-join_dots next parts h.1)

-- No part of the target has a dot in it. (BigQuery allows none in datasets and tables.)
pub record IsPlain (t : Target) : Type 0 where
  pub database_plain : NoDot t.database
  pub schema_plain : NoDot t.schema
  pub name_plain : NoDot t.name

abbrev parts : Target → List String
parts t = if truthy t.database then t.database ∷ t.schema ∷ t.name ∷ [] else t.schema ∷ t.name ∷ []

target_to_name-parts : (t : Target) → target_to_name t ≡ join_dots (parts t)
unfolding target_to_name
target_to_name-parts t = elim (Bool-cases (truthy t.database)) [
  | inl e ↦ rw e refl
  | inr e ↦ rw e refl
]

split_dots-target_to_name : (t : Target) → IsPlain t → split_dots (target_to_name t) ≡ parts t
split_dots-target_to_name t h = rw (target_to_name-parts t) (elim (Bool-cases (truthy t.database)) [
  | inl e ↦ rw e (
      split_dots-join_dots t.database (t.schema ∷ t.name ∷ [])
        (h.database_plain, (h.schema_plain, (h.name_plain, tt))))
  | inr e ↦ rw e (split_dots-join_dots t.schema (t.name ∷ []) (h.schema_plain, (h.name_plain, tt)))
])

parts_injective : (t u : Target) → parts t ≡ parts u → t ≡ u
parts_injective t u e = ground (arith, eq_iff t.database "", eq_iff u.database "")

-- Two targets with no dot in their parts have the same name only if they are the same.
pub target_to_name_injective :
    (t u : Target) → IsPlain t → IsPlain u → target_to_name t ≡ target_to_name u → t ≡ u
target_to_name_injective t u p q e =
    parts_injective t u
      (sym (split_dots-target_to_name t p) ∙ ap split_dots e ∙ split_dots-target_to_name u q)

last_segment-target_to_name : (t : Target) → IsPlain t → last_segment (target_to_name t) ≡ t.name
unfolding last_segment
last_segment-target_to_name t p =
    rw (split_dots-target_to_name t p)
      (elim (Bool-cases (truthy t.database)) [ inl e ↦ rw e refl | inr e ↦ rw e refl ])

has_dot-append : (s rest : String) → has_dot (String.◌++◌ s (String.◌++◌ "." rest)) ≡ true
unfolding has_dot
has_dot-append String.[] rest = rw nil-append (rw cons-append refl)
has_dot-append (String.◌∷◌ c s) rest = simp cons-append (ground (arith, has_dot-append s rest))

has_dot-target_to_name : (t : Target) → has_dot (target_to_name t) ≡ true
unfolding join_dots
has_dot-target_to_name t = rw (target_to_name-parts t) (elim (Bool-cases (truthy t.database)) [
  | inl e ↦ rw e (has_dot-append t.database _)
  | inr e ↦ rw e (has_dot-append t.schema t.name)
])

-- The name of a target is a pattern that denotes this target alone, among targets with no dot in
-- their parts; and the bare name of a target denotes exactly the targets of that name.
pub Denotes-target_to_name_iff :
    (t u : Target)
    → IsPlain t
    → IsPlain u
    → (Denotes (target_to_name t) (target_to_name u) ↔ (t ≡ u))
      × (Denotes t.name (target_to_name u) ↔ (t.name ≡ u.name))
Denotes-target_to_name_iff t u p q = (
  (
    λ d. target_to_name_injective t u p q (full d),
    λ e. inl (has_dot-target_to_name t, ap target_to_name e),
  ),
  ground (arith, p.name_plain, last_segment-target_to_name u q),
)
  where
    full : Denotes (target_to_name t) (target_to_name u) → target_to_name t ≡ target_to_name u
    full d = ground (arith, has_dot-target_to_name t)
