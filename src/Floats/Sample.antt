-- ===== src/Floats/Sample.antt =====
-- NaN and the whole numbers with the operations of float64, for examples and tests.
use triplet.Common.{◌^◌, ◌/◌, refl, ◌≢◌, ◌+◌, ◌&&◌, Bool, false, some, [], leb, ◌==◌, if◌then◌else◌}
use triplet.Common.Int.{ℤ, pos, negsuc, pos_part, neg_part, ltb_ℤ, ◌*ℤ◌}
use triplet.Floats.{FloatOps}
use triplet.Text
use triplet.Text.{Bytes, codes, itoa, atoi, bytes_eq, max_int64}
use triplet.Text.Decimal.{IsNumeral, itoa-IsNumeral, itoa-ne-nil}
use mathlib.Core.Option

pub data Sample : Type 0 where
  nan : Sample
  whole : ℤ → Sample

abbrev leb_ℤ : ℤ → ℤ → Bool
leb_ℤ a b = leb (pos_part a + neg_part b) (pos_part b + neg_part a)

abbrev compare_with : (ℤ → ℤ → Bool) → Sample → Sample → Bool
compare_with test (whole a) (whole b) = test a b
compare_with test _ _ = false

abbrev combine : (ℤ → ℤ → ℤ) → Sample → Sample → Sample
combine op (whole a) (whole b) = whole (op a b)
combine op _ _ = nan

-- Division that truncates, of numbers that are not negative.
abbrev quotient : ℤ → ℤ → ℤ
quotient a b = pos (pos_part a / pos_part b)

abbrev pub sample_text : Sample → Bytes
sample_text nan = codes "NaN"
sample_text (whole n) = itoa n

abbrev sample_int : Sample → ℤ
sample_int nan = negsuc max_int64
sample_int (whole n) = n

abbrev pub sample_ops : FloatOps Sample
sample_ops = record {
  zero = whole (pos 0);
  of_int = whole;
  to_int = sample_int;
  le = compare_with leb_ℤ;
  lt = compare_with ltb_ℤ;
  eq = compare_with (λ a b. pos_part a == pos_part b && neg_part a == neg_part b);
  mul = combine ◌*ℤ◌;
  div = combine quotient;
  round = λ v. v;
  floor = λ v. v;
  ceil = λ v. v;
  minimum = combine (λ a b. if ltb_ℤ a b then a else b);
  ldexp1 = λ n. whole (pos (2 ^ pos_part n));
  parse_float = λ s. if bytes_eq s (codes "NaN") then some nan else Option.map whole (atoi s);
  format_g = sample_text;
  format_f = sample_text;
}

pub sample_text-IsNumeral : (v : Sample) → IsNumeral (sample_text v)
sample_text-IsNumeral nan = unfold Text.is_numeral_byte in (refl, (refl, (refl, tt)))
sample_text-IsNumeral (whole n) = itoa-IsNumeral n

pub sample_text-ne-nil : (v : Sample) → sample_text v ≢ []
sample_text-ne-nil nan = cc
sample_text-ne-nil (whole n) = itoa-ne-nil n
