-- ===== src/Base.antt =====
-- The names that the other modules share: those of the libraries, passed on, the Boolean tests and
-- the conditional (`Tests`), lists over native numbers (`Lists`), and the arithmetic of machine
-- words (`Words`) and of quotients (`Division`).
mod Tests
mod Lists
mod Words
mod Order
mod Division
pub use Tests.*
pub use Lists.*
pub use Division.{quotient_lem, remainder_lem, div_mono}
unfoldable pub use Words.*
unfoldable pub use Order.{lt_wf}
pub use Prim.Native.Nat.{ℕ, zero, suc, ◌+◌, ◌-◌, ◌*◌, ◌/◌, ◌%◌, ◌^◌, ◌≤◌, ◌<◌, min, max}
pub use Prim.Native.Nat.{bit_and, bit_or, bit_xor}
pub use mathlib.Core.Path.{◌≡◌, refl, sym, ap, ◌∙◌}
pub use mathlib.Core.Logic.{◌≢◌, ◌↔◌, ◌⊎◌, inl, inr}
pub use mathlib.Core.Bool.{Bool, true, false, not, ◌&&◌, ◌||◌}
pub use mathlib.Core.Option.{Option, none, some}
pub use mathlib.Core.List.{List, [], ◌∷◌, ◌++◌, map}
pub use native.Mathlib.Omega.{arith}
