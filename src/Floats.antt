-- ===== src/Floats.antt =====
-- Go's float64 with the operations of the language, `math` and `strconv` that the program uses.
-- The type and its operations are a parameter of the model: nothing is assumed of them here.
pub mod Sample
use triplet.Common.{Bool, Option}
use triplet.Common.Int.{ℤ}
use triplet.Text.{Bytes}

pub record FloatOps (Float : Type 0) : Type 0 where
  -- The constant 0.
  pub zero : Float
  -- `float64(n)` of an integer.
  pub of_int : ℤ → Float
  -- `int(f)`, which truncates; out of range it is what the machine gives.
  pub to_int : Float → ℤ
  -- `a <= b`, `a < b` and `a == b`, which are false at NaN.
  pub le : Float → Float → Bool
  pub lt : Float → Float → Bool
  pub eq : Float → Float → Bool
  pub mul : Float → Float → Float
  pub div : Float → Float → Float
  -- `math.Round`, `math.Floor`, `math.Ceil`, `math.Min` and `math.Ldexp(1, n)`.
  pub round : Float → Float
  pub floor : Float → Float
  pub ceil : Float → Float
  pub minimum : Float → Float → Float
  pub ldexp1 : ℤ → Float
  -- `strconv.ParseFloat(s, 64)`; `none` is an error.
  pub parse_float : Bytes → Option Float
  -- `strconv.FormatFloat(f, 'g', -1, 64)` and `strconv.FormatFloat(f, 'f', -1, 64)`.
  pub format_g : Float → Bytes
  pub format_f : Float → Bytes
