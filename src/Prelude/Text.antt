-- ===== src/Prelude/Text.antt =====
-- The engine's operations on strings that the modelled code calls, and template literals.
use Prim.Native.Char.{Char, code}
use Prim.Native.String
use Prim.Native.String.{String}
use Prim.Native.Nat.{ℕ}
use mathlib.Core.Bool.{Bool, false, ◌&&◌, ◌||◌}
use mathlib.Core.List.{List, [], ◌∷◌}
use text.Mathlib.Text.{◌==◌}
use dataform.Prelude.Tests.{if◌then◌else◌, ltb, nat_eq}

-- A template literal is the list of its pieces.
unfoldable pub template : List String → String
template [] = ""
template (piece ∷ pieces) = String.◌++◌ piece (template pieces)

-- `parts.join(separator)`
unfoldable pub join : String → List String → String
join separator [] = ""
join separator (part ∷ []) = part
join separator (part ∷ next ∷ parts) =
    String.◌++◌ part (String.◌++◌ separator (join separator (next ∷ parts)))

abbrev pub between : ℕ → ℕ → ℕ → Bool
between low high n = ltb low n && ltb n high || nat_eq n low || nat_eq n high

-- White space and line ends, as the language defines them.
unfoldable pub is_space : Char → Bool
is_space c =
    between 9 13 (code c)
    || nat_eq (code c) 32
    || nat_eq (code c) 160
    || nat_eq (code c) 0x1680
    || between 0x2000 0x200a (code c)
    || between 0x2028 0x2029 (code c)
    || nat_eq (code c) 0x202f
    || nat_eq (code c) 0x205f
    || nat_eq (code c) 0x3000
    || nat_eq (code c) 0xfeff

unfoldable pub trim_start : String → String
unfolding is_space
trim_start String.[] = ""
trim_start (String.◌∷◌ c s) = if is_space c then trim_start s else String.◌∷◌ c s

unfoldable pub trim_end : String → String
unfolding is_space
trim_end String.[] = ""
trim_end (String.◌∷◌ c s) =
    let rest = trim_end s in if is_space c && rest == "" then "" else String.◌∷◌ c rest

-- `s.trim()`
unfoldable pub trim : String → String
unfolding trim_start trim_end
trim s = trim_end (trim_start s)

-- Whether the last character has the code, as `charAt(length - 1)` and `slice(-1)` give it.
unfoldable pub ends_with_code : ℕ → String → Bool
ends_with_code n String.[] = false
ends_with_code n (String.◌∷◌ c String.[]) = nat_eq (code c) n
ends_with_code n (String.◌∷◌ c (String.◌∷◌ d s)) = ends_with_code n (String.◌∷◌ d s)

-- `s.substring(0, s.length - 1)`
unfoldable pub without_last : String → String
without_last String.[] = ""
without_last (String.◌∷◌ c String.[]) = ""
without_last (String.◌∷◌ c (String.◌∷◌ d s)) = String.◌∷◌ c (without_last (String.◌∷◌ d s))

-- `a || b`, on strings
abbrev pub or_else : String → String → String
or_else a b = if a == "" then b else a
