-- ===== src/Foreign.antt =====
-- What the program takes from Qt and from the hardware, as parameters of the model: the QString
-- functions whose result it shows, and the type double with the functions of <cmath>.
pub mod Samples
use Prim.Native.String.{String}
use vsm_field_workstation.Prelude.{ℕ, Bool}
use vsm_field_workstation.Prelude.Int.{ℤ}

-- QString: `arg(text)`, `arg(number)`, `arg(number, width, 16, '0')`, `arg(number, width, 10, '0')`,
-- `+`, `toUpper`, `toLower`, `trimmed`.
pub record Qt : Type 0 where
  pub arg : String → String → String
  pub arg_number : String → ℕ → String
  pub arg_hex : String → ℕ → ℕ → String
  pub arg_padded : String → ℕ → ℕ → String
  pub join : String → String → String
  pub to_upper : String → String
  pub to_lower : String → String
  pub trimmed : String → String

-- `milli n` is the literal n / 1000, `lt` is `<`, `lround` is std::lround.
pub record Doubles : Type 1 where
  pub Double : Type 0
  pub milli : ℤ → Double
  pub lt : Double → Double → Bool
  pub plus : Double → Double → Double
  pub minus : Double → Double → Double
  pub times : Double → Double → Double
  pub fabs : Double → Double
  pub lround : Double → ℤ
