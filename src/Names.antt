-- ===== src/Names.antt =====
-- core/utils.ts: names of actions, and the patterns that select them.
pub mod Patterns
pub mod Qualified
mod Tests
use Prim.Native.Char.{Char, code}
use Prim.Native.String
use dataform.Prelude.{
  reverse, ℕ, String, Bool, true, false, not, ◌||◌, ◌&&◌, ◌==◌, List, [], ◌∷◌, ◌++◌, if◌then◌else◌,
  nat_eq, ltb, length, filter, includes, Result, ok, throw, ambiguous_action_name, ◌>>=◌,
}
use dataform.Proto.{Target}

-- `!!s`
abbrev pub truthy : String → Bool
truthy s = not (s == "")

unfoldable pub is_dot : Char → Bool
is_dot c = nat_eq (code c) b'.'

-- `s.includes(".")`
unfoldable pub has_dot : String → Bool
unfolding is_dot
has_dot String.[] = false
has_dot (String.◌∷◌ c s) = is_dot c || has_dot s

-- A character put before the first of the parts.
unfoldable pub push_front : Char → List String → List String
push_front c [] = String.◌∷◌ c String.[] ∷ []
push_front c (part ∷ parts) = String.◌∷◌ c part ∷ parts

-- `s.split(".")`
unfoldable pub split_dots : String → List String
unfolding is_dot push_front
split_dots String.[] = "" ∷ []
split_dots (String.◌∷◌ c s) =
    let parts = split_dots s in if is_dot c then "" ∷ parts else push_front c parts

-- `parts.slice(-1)[0]`, of a list that is never empty here
unfoldable pub last_part : List String → String
last_part [] = ""
last_part (part ∷ []) = part
last_part (_ ∷ part ∷ parts) = last_part (part ∷ parts)

unfoldable pub last_segment : String → String
unfolding last_part split_dots
last_segment value = last_part (split_dots value)

-- `parts.join(".")`
unfoldable pub join_dots : List String → String
join_dots [] = ""
join_dots (part ∷ []) = part
join_dots (part ∷ next ∷ parts) = String.◌++◌ part (String.◌++◌ "." (join_dots (next ∷ parts)))

-- `targetToName`
unfoldable pub target_to_name : Target → String
unfolding join_dots
target_to_name t = join_dots (
    reverse
      (if truthy t.database then t.name ∷ t.schema ∷ t.database ∷ [] else t.name ∷ t.schema ∷ []))

-- What `matchPatterns` does with the actions that an unqualified pattern matches.
unfoldable pub single_match : String → List String → Result (List String)
single_match pattern [] = ok []
single_match pattern (found ∷ []) = ok (found ∷ [])
single_match pattern (found ∷ other ∷ more) =
    throw (ambiguous_action_name pattern (found ∷ other ∷ more))

unfoldable pub matches : String → List String → List String
matches pattern values = filter (λ value. pattern == last_segment value) values

-- The body of the loop of `matchPatterns`.
unfoldable pub match_pattern : List String → String → Result (List String)
unfolding has_dot includes single_match matches last_segment
match_pattern values pattern =
    if has_dot pattern
    then ok (if includes values pattern then pattern ∷ [] else [])
    else single_match pattern (matches pattern values)

-- `matchPatterns`
unfoldable pub match_patterns : List String → List String → Result (List String)
unfolding match_pattern
match_patterns [] values = ok []
match_patterns (pattern ∷ patterns) values = do
  found ← match_pattern values pattern
  rest ← match_patterns patterns values
  ok (found ++ rest)
