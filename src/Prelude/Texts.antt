-- ===== src/Prelude/Texts.antt =====
-- The equality of two texts, as a test.
use Prim.Native.String.{String}
use text.Mathlib.Text.{◌==◌}
use text.Mathlib.TextEquality.{eq_iff}
use mathlib.Core.Path.{◌≡◌}
use mathlib.Core.Logic.{◌↔◌}
use mathlib.Core.Bool.{Bool, true}

infix 50 ◌is◌
abbrev pub ◌is◌ : String → String → Bool
s is t = s == t

pub is_iff : (s t : String) → ((s is t) ≡ true) ↔ (s ≡ t)
is_iff s t = eq_iff s t
