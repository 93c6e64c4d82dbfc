-- ===== src/Prelude.antt =====
-- The names that all the other modules share: library names passed on, Boolean tests on native
-- numbers, dictionaries keyed by texts, and the parts of a formatted message.
mod Booleans
mod Dicts
mod Messages
mod Lists
mod Sorted
pub use Booleans.*
pub use Messages.{Message, Part, text_or}
pub use Dicts.{Dict}
unfoldable pub use Lists.{take, drop, take_last}
pub use Lists.{length, get_elem?, get_last?, length-append, length-take, take_last-append}
unfoldable pub use Sorted.{sorted_set}
pub use Sorted.{contains-sorted_set, contains-keys, contains-append}
unfoldable pub use Dicts.{contains, lookup, insert, erase, keys}
pub use Dicts.{lookup-insert, lookup-erase}
pub use Prim.Native.Nat.{ℕ, zero, suc, ◌≤◌, ◌<◌}
pub use Prim.Native.String.{String}
pub use mathlib.Core.Path.{◌≡◌, refl, sym, ◌∙◌, ap}
pub use mathlib.Core.Logic.{◌≢◌, ◌↔◌, ◌⊎◌, inl, inr}
pub use mathlib.Core.Bool.{Bool, true, false, not, ◌&&◌, ◌||◌}
pub use mathlib.Core.Option.{Option, none, some}
pub use mathlib.Core.List.{List, [], ◌∷◌, ◌++◌, map}
pub use native.Mathlib.Omega.{arith}
pub use text.Mathlib.Text.{◌==◌ as ◌==◌}
pub use text.Mathlib.TextEquality.{eq_iff}
