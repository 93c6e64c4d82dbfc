-- ===== src/Numeric.antt =====
-- The arithmetic of Python's `Decimal` and `float`, which the program takes from the language:
-- an interface of operations, with the laws of correctly rounded arithmetic on finite values.
-- Rounding is left open, so no law says that a sum or a product is exact.
mod Ops
mod Laws
unfoldable pub use Ops.*
pub use Laws.*
