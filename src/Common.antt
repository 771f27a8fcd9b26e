-- ===== src/Common.antt =====
-- Names that every other module shares: those of the libraries, passed on, and the tests, lists,
-- outcomes and words of the children.
mod Tests
mod Lists
mod Results
mod Slices
pub mod Bytes
pub mod Words
pub use Tests.*
pub use Lists.*
pub use Results.*
unfoldable pub use Slices.{slice_to, slice_from, slice}
pub use Slices.{slice_to-append, slice_from-append, slice-append}
pub use Prim.Native.Nat.{ℕ, zero, suc, ◌+◌, ◌-◌, ◌*◌, ◌/◌, ◌%◌, ◌^◌, ◌≤◌, ◌<◌, min, max}
pub use mathlib.Core.Path.{◌≡◌, refl, sym, ap, ◌∙◌, subst, fun_ext}
pub use mathlib.Core.Logic.{◌≢◌, ◌↔◌, ◌⊎◌, inl, inr}
pub use mathlib.Core.Bool.{Bool, true, false, not, ◌&&◌, ◌||◌}
pub use mathlib.Core.Option.{Option, none, some}
pub use mathlib.Core.List.{List, [], ◌∷◌, ◌++◌, map, append_assoc, append-nil}
pub use native.Mathlib.Omega.{arith}
