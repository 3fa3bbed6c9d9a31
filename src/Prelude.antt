-- ===== src/Prelude.antt =====
-- Shared vocabulary: names of the libraries passed on, tests, lists, sets of strings, results.
-- Models no file of the repository by itself.
mod Tests
mod Lists
mod Sets
mod Results
mod Counts
mod Places
pub mod Text
pub mod Bits
pub mod Int
pub use Tests.*
pub use Lists.*
unfoldable pub use Sets.*
pub use Results.*
unfoldable pub use Counts.*
pub use Places.*
pub use Prim.Native.Nat.{ℕ, zero, suc, ◌+◌, ◌-◌, ◌*◌, ◌/◌, ◌%◌, ◌^◌, ◌≤◌, ◌<◌}
pub use Prim.Native.String.{String}
pub use mathlib.Core.Path.{◌≡◌, refl, sym, ap, ◌∙◌, subst}
pub use mathlib.Core.Logic.{◌≢◌, ◌↔◌, ◌⊎◌, inl, inr}
pub use mathlib.Core.Bool.{Bool, true, false, not, ◌&&◌, ◌||◌}
pub use mathlib.Core.Option.{Option, none, some}
pub use mathlib.Core.List.{List, [], ◌∷◌, ◌++◌, map, reverse, append-nil, append_assoc}
pub use native.Mathlib.Omega.{arith}
pub use text.Mathlib.Text.{◌==◌}
pub use text.Mathlib.TextEquality.{eq_iff}
