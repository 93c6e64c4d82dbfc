-- ===== src/Prelude/Messages.antt =====
-- A formatted message (an f-string): the literal pieces, and the values that it prints with their
-- format. How a value is rendered is left to the printer, so the parts are kept apart.
use Prim.Native.Nat.{ℕ}
use Prim.Native.String.{String}
use mathlib.Core.List.{List, [], ◌∷◌}

pub data Part (D : Type 0) : Type 0 where
  lit : String → Part D
  num : D → Part D
  fmt : String → D → Part D
  nat : ℕ → Part D
  time : ℕ → Part D

abbrev pub Message : Type 0 → Type 0
Message D = List (Part D)

-- `a or b` on texts: the empty text is falsy.
abbrev pub text_or : {D : Type 0} → Message D → Message D → Message D
text_or [] b = b
text_or (p ∷ ps) b = p ∷ ps
