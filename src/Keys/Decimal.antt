-- ===== src/Keys/Decimal.antt =====
-- `itoa` against `strconv.Atoi`: what it writes is read back, but for the least int64.
use triplet.Common.{
  ℕ, ◌≡◌, refl, ◌≢◌, true, false, ◌⊎◌, [], some, none, arith, ◌==◌, Bool-cases, inl, inr, ap,
  ==_iff,
}
use triplet.Common.Int.{ℤ, pos, negsuc}
use triplet.Text
use triplet.Text.{codes, atoi, max_int64, emit, is_numeral_byte}
use triplet.Text.Decimal.{IsInt64, IsNumeral, atoi-itoa, itoa-IsNumeral, itoa-ne-nil}
use triplet.Keys.{itoa}

-- Only the least int64 is written otherwise than `strconv.Itoa` writes it.
pub itoa-text : (n : ℤ) → n ≢ negsuc max_int64 → itoa n ≡ Text.itoa n
unfolding itoa Text.itoa
itoa-text (pos n) h = refl
itoa-text (negsuc n) h = elim (Bool-cases (n == max_int64)) [
  | inl least ↦ absurd (h (ap negsuc ((==_iff n max_int64).0 least)))
  | inr other ↦ rw other refl
]

dash : (n : ℕ) → (n == max_int64) ≡ true → itoa (negsuc n) ≡ codes "-"
unfolding itoa
dash n h = rw h refl

no_digit : atoi (codes "-") ≡ none
unfolding atoi
no_digit = refl

distinct : (n : ℕ) → (n == max_int64) ≡ false → negsuc n ≢ negsuc max_int64
distinct n h e = ground arith

-- What `itoa` writes is read back by `strconv.Atoi`, but for the least int64, for which it writes
-- a sign and no digit.
pub atoi-keys_itoa :
    (n : ℤ)
    → IsInt64 n
    → ((n ≢ negsuc max_int64) × (atoi (itoa n) ≡ some n))
      ⊎ ((n ≡ negsuc max_int64) × (itoa n ≡ codes "-") × (atoi (itoa n) ≡ none))
atoi-keys_itoa (pos n) h = inl ((λ e. cc), rw (itoa-text (pos n) (λ e. cc)) (atoi-itoa (pos n) h))
atoi-keys_itoa (negsuc n) h = elim (Bool-cases (n == max_int64)) [
  | inl least ↦
      inr (ap negsuc ((==_iff n max_int64).0 least), dash n least, rw (dash n least) no_digit)
  | inr other ↦
      inl (distinct n other, rw (itoa-text (negsuc n) (distinct n other)) (atoi-itoa (negsuc n) h))
]

pub keys_itoa-IsNumeral : (n : ℤ) → IsNumeral (itoa n)
unfolding is_numeral_byte
keys_itoa-IsNumeral (pos n) = rw (itoa-text (pos n) (λ e. cc)) (itoa-IsNumeral (pos n))
keys_itoa-IsNumeral (negsuc n) = elim (Bool-cases (n == max_int64)) [
  | inl least ↦ rw (dash n least) (refl, tt)
  | inr other ↦ rw (itoa-text (negsuc n) (distinct n other)) (itoa-IsNumeral (negsuc n))
]

pub keys_itoa-ne-nil : (n : ℤ) → itoa n ≢ []
keys_itoa-ne-nil (pos n) = rw (itoa-text (pos n) (λ e. cc)) (itoa-ne-nil (pos n))
keys_itoa-ne-nil (negsuc n) = unfold itoa in λ e. cc
