-- ===== src/Base.antt =====
-- The names that the other modules share: the libraries', passed on, and those of the children.
mod Tests
mod Lists
mod Maps
mod Texts
mod Tables
mod Ints
mod Runs
mod Slices
pub use Tests.*
pub use Lists.*
unfoldable pub use Maps.{lookup, erase, insert, retain}
pub use Maps.*
unfoldable pub use Texts.{Text-discrete, itoa, be16, put_be16}
pub use Texts.*
unfoldable pub use Slices.{slice_to, read_le32}
pub use Ints.{ℤ, pos, negsuc, below, above, is_zero}
pub use Runs.*
pub use Slices.{slice_to-front, drop-drop, slice_to-le, read_le32-lt}
unfoldable pub use Tables.{holds_to}
pub use Tables.{holds_to-at}
pub use Prim.Native.Nat.{ℕ, zero, suc, ◌+◌, ◌-◌, ◌*◌, ◌/◌, ◌%◌, ◌≤◌, ◌<◌, bit_and, bit_or}
pub use mathlib.Core.Path.{◌≡◌, refl, sym, ap, ap₂, ◌∙◌}
pub use mathlib.Core.Logic.{◌≢◌, ◌↔◌, ◌⊎◌, inl, inr, ite}
pub use mathlib.Core.Bool.{Bool, true, false, not, ◌&&◌, ◌||◌}
pub use mathlib.Core.Option.{Option, none, some}
pub use mathlib.Core.List.{List, [], ◌∷◌, ◌++◌, map, append-nil, append_assoc}
pub use native.Mathlib.Omega.{arith}
unfoldable pub use native.Mathlib.Decide.{dec_lt, ℕ_discrete}
