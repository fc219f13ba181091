-- ===== src/Config/Sizes.antt =====
-- A byte size that is read is an int64: the checks of the product are exact.
use native.Mathlib.Nat.{le-div_iff_mul-le, mul-pos}
use mathlib.Core.Path.{subst, sym}
use triplet.Common.{
  ℕ, zero, suc, ◌+◌, ◌-◌, ◌*◌, ◌≤◌, ◌<◌, ◌≡◌, refl, ◌⊎◌, inl, inr, ok, err, arith, OnOk, OnSome,
  All, Bool-cases, map, Option, none, some, List, [], ◌∷◌, ◌++◌,
}
use triplet.Common.Int.{ℤ, pos, negsuc, ◌*ℤ◌}
use triplet.Text.{Bytes, max_int64, bytes_eq, lower, trim_space, atoi}
use triplet.Text.Decimal.{IsInt64}
use triplet.Config.{
  ByteSizeError, exceeds, multiply, find_unit, byte_size_multipliers, apply_unit, apply_number,
  parse_byte_size, split_sign, span_digits, without_underscores,
}

mul_natural : (n m : ℕ) → pos n *ℤ pos m ≡ pos (n * m)
unfolding ◌*ℤ◌
mul_natural n m = ground arith

mul_negative : (n m : ℕ) → 0 < suc n * m → negsuc n *ℤ pos m ≡ negsuc (suc n * m - 1)
unfolding ◌*ℤ◌
mul_negative n m h = ground arith

multiply-natural :
    (n m : ℕ)
    → 0 < m
    → ((multiply (pos n) m ≡ ok (pos n *ℤ pos m)) × (n * m ≤ max_int64))
      ⊎ ((multiply (pos n) m ≡ err ByteSizeError.overflow) × (max_int64 < n * m))
unfolding multiply exceeds
multiply-natural zero m h = inl (refl, omega arith)
multiply-natural (suc n) m h =
    let div = le-div_iff_mul-le {k = m} {x = suc n} {y = max_int64} h in
    ground (arith, div.0, div.1)

multiply-negative :
    (n m : ℕ)
    → 0 < m
    → ((multiply (negsuc n) m ≡ ok (negsuc n *ℤ pos m)) × (suc n * m ≤ max_int64 + 1))
      ⊎ ((multiply (negsuc n) m ≡ err ByteSizeError.overflow) × (max_int64 + 1 < suc n * m))
unfolding multiply exceeds
multiply-negative n m h =
    let div = le-div_iff_mul-le {k = m} {x = suc n} {y = max_int64 + 1} h in
    ground (arith, div.0, div.1)

-- For a positive multiplier the product is answered exactly if it is an int64, and its overflow is
-- an error.
pub multiply_exact :
    (n : ℤ) (multiplier : ℕ)
    → 0 < multiplier
    → ((multiply n multiplier ≡ ok (n *ℤ pos multiplier)) × IsInt64 (n *ℤ pos multiplier))
      ⊎ ((multiply n multiplier ≡ err ByteSizeError.overflow) × (IsInt64 (n *ℤ pos multiplier) → ⊥))
multiply_exact (pos n) m h = elim (multiply-natural n m h) [
  | inl (e, le) ↦ inl (e, subst IsInt64 (sym (mul_natural n m)) le)
  | inr (e, gt_) ↦ inr (e, λ i. over gt_ (subst IsInt64 (mul_natural n m) i))
]
  where
    over : max_int64 < n * m → n * m ≤ max_int64 → ⊥
    over a b = omega arith
multiply_exact (negsuc n) m h =
    let product = mul_negative n m (mul-pos (omega arith) h) in
    elim (multiply-negative n m h) [
      | inl (e, le) ↦ inl (e, subst IsInt64 (sym product) (fits le))
      | inr (e, gt_) ↦ inr (e, λ i. beyond gt_ (subst IsInt64 product i))
    ]
  where
    fits : suc n * m ≤ max_int64 + 1 → suc n * m - 1 ≤ max_int64
    fits a = omega arith

    beyond : max_int64 + 1 < suc n * m → suc n * m - 1 ≤ max_int64 → ⊥
    beyond a b = omega arith

multiply-IsInt64 : (n : ℤ) (m : ℕ) → 0 < m → OnOk IsInt64 (multiply n m)
multiply-IsInt64 n m h = elim (multiply_exact n m h) [
  | inl (e, fits) ↦ rw e fits
  | inr (e, over) ↦ rw e tt
]

find_unit-positive :
    (units : List (Bytes × ℕ)) (unit : Bytes)
    → All (λ u. 0 < u.1) units
    → OnSome (λ m. 0 < m) (find_unit units unit)
unfolding find_unit
find_unit-positive [] unit h = tt
find_unit-positive ((name, m) ∷ rest) unit h = elim (Bool-cases (bytes_eq name unit)) [
  | inl same ↦ rw same h.0
  | inr other ↦ rw other (find_unit-positive rest unit h.1)
]

units_positive : All (λ u. 0 < u.1) byte_size_multipliers
units_positive = omega arith

apply_unit-IsInt64 : (n : ℤ) (unit : Bytes) → OnOk IsInt64 (apply_unit n unit)
unfolding apply_unit
apply_unit-IsInt64 n unit =
    with_unit (find_unit byte_size_multipliers (map lower (trim_space unit)))
      (find_unit-positive byte_size_multipliers (map lower (trim_space unit)) units_positive)
  where
    with_unit :
        (o : Option ℕ)
        → OnSome (λ m. 0 < m) o
        → OnOk IsInt64 (elim o [ none ↦ err ByteSizeError.unknown_unit | some m ↦ multiply n m ])
    with_unit none h = tt
    with_unit (some m) h = multiply-IsInt64 n m h

apply_number-IsInt64 : (o : Option ℤ) (unit : Bytes) → OnOk IsInt64 (apply_number o unit)
unfolding apply_number
apply_number-IsInt64 none unit = tt
apply_number-IsInt64 (some n) unit = apply_unit-IsInt64 n unit

-- Every byte size that is read from a text is an int64.
parse_byte_size-IsInt64 : (raw : Bytes) → OnOk IsInt64 (parse_byte_size raw)
unfolding parse_byte_size
parse_byte_size-IsInt64 raw =
    let (sign, unsigned) = split_sign (trim_space raw) in
    let (digits, unit) = span_digits unsigned in
    let number = apply_number-IsInt64 (atoi (sign ++ without_underscores digits)) unit in
    elim (Bool-cases (bytes_eq (trim_space raw) [])) [
      | inl empty ↦ rw empty tt
      | inr there ↦ elim (Bool-cases (bytes_eq digits [])) [
        | inl missing ↦ rw (there, missing) tt
        | inr given ↦ rw (there, given) number
      ]
    ]
