-- ===== src/Foreign/Samples.antt =====
-- A QString and a double with concrete functions, for examples: texts keep their first argument, and a
-- double is a number of thousandths.
use vsm_field_workstation.Prelude.{suc, ◌/◌, ◌*◌}
use vsm_field_workstation.Prelude.Int.{ℤ, pos, negsuc, ◌+ℤ◌, ◌-ℤ◌, ltb_ℤ, abs}
use vsm_field_workstation.Foreign.{Qt, Doubles}

abbrev pub plain_text : Qt
plain_text = record {
  arg = λ s. λ a. s;
  arg_number = λ s. λ n. s;
  arg_hex = λ s. λ n. λ w. s;
  arg_padded = λ s. λ n. λ w. s;
  join = λ s. λ a. s;
  to_upper = λ s. s;
  to_lower = λ s. s;
  trimmed = λ s. s;
}

abbrev div_thousand : ℤ → ℤ
div_thousand (pos n) = pos (n / 1000)
div_thousand (negsuc n) = pos 0 -ℤ pos (suc n / 1000)

abbrev product : ℤ → ℤ → ℤ
product (pos a) (pos b) = pos (a * b)
product (pos a) (negsuc b) = pos 0 -ℤ pos (a * suc b)
product (negsuc a) (pos b) = pos 0 -ℤ pos (suc a * b)
product (negsuc a) (negsuc b) = pos (suc a * suc b)

abbrev pub fixed : Doubles
fixed = record {
  Double = ℤ;
  milli = λ n. n;
  lt = λ a. λ b. ltb_ℤ a b;
  plus = λ a. λ b. a +ℤ b;
  minus = λ a. λ b. a -ℤ b;
  times = λ a. λ b. div_thousand (product a b);
  fabs = λ a. abs a;
  lround = λ a. div_thousand a;
}
