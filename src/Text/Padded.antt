-- ===== src/Text/Padded.antt =====
-- Decimal digits with zeros in front, and how many there are.
use native.Mathlib.Nat.{pow-suc}
use triplet.Common.{
  ap, ◌∙◌, ℕ, zero, suc, ◌+◌, ◌-◌, ◌/◌, ◌%◌, ◌^◌, ◌<◌, ◌≤◌, ◌≡◌, refl, some, [], ◌∷◌, ◌++◌, arith,
  length, length-append, replicate, length-replicate,
}
use triplet.Common.Int.{pos}
use triplet.Text.{Bytes, itoa, emit, digits_value, is_digit}
use triplet.Text.Decimal.{digits_value-emit, itoa_positive}

pub digits-zeros : (k : ℕ) (s : Bytes) → digits_value 0 (replicate k b'0' ++ s) ≡ digits_value 0 s
unfolding digits_value is_digit
digits-zeros zero s = refl
digits-zeros (suc k) s = digits-zeros k s

pub digits-itoa : (n : ℕ) → n < 10 ^ 20 → digits_value 0 (itoa (pos n)) ≡ some n
unfolding digits_value
digits-itoa zero h = unfold itoa is_digit in refl
digits-itoa (suc n) h = ap (digits_value 0) (itoa_positive n) ∙ digits_value-emit 20 (suc n) [] h

length-emit : (room k n : ℕ) (out : Bytes) → n < 10 ^ k → length (emit room n out) ≤ k + length out
unfolding emit
length-emit zero k n out h = omega arith
length-emit (suc room) zero n out h = ground arith
length-emit (suc room) (suc k) n out h =
    ground (arith, pow-suc 10 k, length-emit room k (n / 10) ((b'0' + n % 10) ∷ out))

pub length-itoa : (n : ℕ) → n < 10000000000 → length (itoa (pos n)) ≤ 10
unfolding itoa
length-itoa n h = ground (arith, length-emit 20 10 n [] h)

-- Zeros fill a text up.
pub length-zeros :
    (k : ℕ) (s : Bytes) → length s ≤ k → length (replicate (k - length s) b'0' ++ s) ≡ k
length-zeros k s h = omega (
  arith,
  h,
  length-append (replicate (k - length s) b'0') s,
  length-replicate {A = ℕ} (k - length s) b'0',
)
