-- ===== src/Base.antt =====
-- The names that the other modules share: the libraries', passed on, and those of the children.
mod Tests
mod Lists
mod Run
pub use Tests.*
pub use Lists.*
unfoldable pub use Run.{◌>>=◌, ◌>>◌, pure, halt, get, modify, when, branch, maybe, run_ops}
pub use Run.{
  M, bind-some, bind-value, then-value, branch-true, branch-false, pure-some, maybe-some,
  maybe-none, then-some, Keeps, Keeps-bind, Keeps-then, Keeps-pure, Keeps-halt, Keeps-get,
  Keeps-modify, Keeps-when, Keeps-branch, Keeps-maybe, keeps_rules, get-bind, Gives,
  Gives-bind_with, Gives-bind, Gives-then, Gives-pure, Gives-halt, Gives-branch, Gives-maybe,
}
pub use Prim.Native.Nat.{ℕ, zero, suc, ◌+◌, ◌-◌, ◌*◌, ◌/◌, ◌%◌, ◌^◌, ◌≤◌, ◌<◌, min}
pub use Prim.Native.String.{String}
pub use mathlib.Core.Path.{◌≡◌, refl, sym, ap, ap₂, subst, subst₂, ◌∙◌}
pub use mathlib.Core.Logic.{◌≢◌, ◌↔◌, ◌⊎◌, inl, inr}
pub use mathlib.Core.Bool.{Bool, true, false, not, ◌&&◌, ◌||◌}
pub use mathlib.Core.Option.{Option, none, some}
pub use mathlib.Core.List.{List, [], ◌∷◌, ◌++◌, map, append-nil, append_assoc}
pub use native.Mathlib.Omega.{arith}
pub use text.Mathlib.Text.{◌==◌ as str_eq}
pub use native.Mathlib.Nat.{add-zero}
