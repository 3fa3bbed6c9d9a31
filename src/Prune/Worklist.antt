-- ===== src/Prune/Worklist.antt =====
-- api/commands/prune.ts: the shape of its two `while (queue.length > 0)` loops.
-- The array that a loop pops from has its last element at the head.
pub mod Closure
pub mod Ending
use dataform.Prelude.{
  ℕ, zero, suc, String, List, [], ◌∷◌, if◌then◌else◌, includes, add, Result, ok, out_of_fuel, ◌>>=◌,
}

pub record Work : Type 0 where
  pub queue : List String
  pub included : List String

-- The body of `forEach`: a name that is new is pushed and included.
unfoldable pub push : Work → String → Work
push w name =
    if includes w.included name
    then w
    else record { queue = name ∷ w.queue; included = add w.included name }

unfoldable pub push_new : Work → List String → Work
unfolding push
push_new w [] = w
push_new w (name ∷ names) = push_new (push w name) names

-- The loop. `neighbours` gives the names that the popped name leads to.
unfoldable pub expand :
    (String → Result (List String)) → ℕ → List String → List String → Result (List String)
unfolding push_new includes add
expand neighbours fuel [] included = ok included
expand neighbours zero (name ∷ queue) included = out_of_fuel
expand neighbours (suc fuel) (name ∷ queue) included = do
  found ← neighbours name
  let w = push_new (record { queue = queue; included = included }) found
  expand neighbours fuel w.queue w.included
