-- ===== src/Prelude.antt =====
-- The names that every module shares: the libraries', passed on, and those of the children,
-- which hold Boolean tests, lists, Go strings and maps, integers and strconv.
mod Tests
mod Lists
mod Strs
mod Maps
mod Effects
mod Int
mod Decimal
pub use Tests.*
pub use Lists.*
pub use Strs.*
pub use Maps.*
pub use Effects.*
pub use Int.*
pub use Decimal.*
unfoldable pub use Maps.{lookup, insert, delete}
unfoldable pub use Int.{succ_int, pred_int, ◌+ℤ◌, floor_div}
unfoldable pub use Decimal.{itoa, atoi}
unfoldable pub use Strs.{str_eq, has_prefix}
pub use Prim.Native.Nat.{ℕ, zero, suc, ◌+◌, ◌-◌, ◌*◌, ◌/◌, ◌%◌, ◌^◌, ◌≤◌, ◌<◌}
pub use Prim.Native.String.{String}
pub use mathlib.Core.Path.{◌≡◌, refl, sym, ap, ap₂, subst, ◌∙◌, ◌≡⟨◌⟩◌, ◌∎}
pub use mathlib.Core.Logic.{◌≢◌, ◌↔◌, ◌⊎◌, inl, inr}
pub use mathlib.Core.Bool.{Bool, true, false, not, ◌&&◌, ◌||◌}
pub use mathlib.Core.Option.{Option, none, some}
pub use mathlib.Core.List.{List, [], ◌∷◌, ◌++◌, append-nil, append_assoc}
pub use native.Mathlib.Omega.{arith}
