-- ===== src/Base.antt =====
-- What the other modules share: the libraries' names, passed on, with the equality tests, lists
-- and signed integers of the children.
mod Tests
mod Lists
mod Int
mod Results
mod AllPairs
pub use Tests.*
unfoldable pub use Tests.{list_beq}
pub use Lists.*
pub use Int.*
pub use Results.*
pub use AllPairs.*
pub use Prim.Native.Nat.{ℕ, zero, suc, ◌+◌, ◌-◌, ◌*◌, ◌%◌, ◌^◌, ◌≤◌, ◌<◌, min, max}
pub use mathlib.Core.Path.{◌≡◌, refl, sym, ap, subst, ◌∙◌}
pub use mathlib.Core.Logic.{◌≢◌, ◌↔◌, ◌⊎◌, inl, inr}
pub use mathlib.Core.Bool.{Bool, true, false, false≢true, not, ◌&&◌, ◌||◌}
pub use mathlib.Core.Option.{Option, none, some}
pub use mathlib.Core.List.{List, [], ◌∷◌, ◌++◌, map, reverse, Memᴰ, Permᴰ}
pub use native.Mathlib.Nat.{le_antisymm, le_trans, le_refl}
pub use native.Mathlib.Omega.{arith}
