-- ===== src/Config.antt =====
-- internal/config: the texts of byte sizes (bytesize.go).
pub mod Sizes
pub mod Tests
use triplet.Common.{
  ℕ, suc, ◌+◌, ◌-◌, ◌*◌, ◌/◌, ◌≤◌, ◌<◌, Bool, true, false, ◌&&◌, ◌||◌, not, Option, none, some,
  Result, ok, err, List, [], ◌∷◌, ltb, leb, ◌==◌, if◌then◌else◌, map, ◌++◌,
}
use triplet.Common.Int.{ℤ, pos, negsuc, ltb_ℤ, ◌*ℤ◌, ◌≤ℤ◌}
use triplet.Text.{Bytes, codes, bytes_eq, atoi, is_digit, lower, trim_space, max_int64}

pub data ByteSizeError : Type 0 where
  empty no_integer bad_integer unknown_unit overflow : ByteSizeError

-- `byteSizeMultipliers`.
abbrev pub byte_size_multipliers : List (Bytes × ℕ)
byte_size_multipliers =
    ([], 1)
    ∷ (codes "b", 1)
    ∷ (codes "kb", 1000)
    ∷ (codes "mb", 1000000)
    ∷ (codes "gb", 1000000000)
    ∷ (codes "tb", 1000000000000)
    ∷ (codes "pib", 1125899906842624)
    ∷ (codes "tib", 1099511627776)
    ∷ (codes "gib", 1073741824)
    ∷ (codes "mib", 1048576)
    ∷ (codes "kib", 1024)
    ∷ []

unfoldable pub find_unit : List (Bytes × ℕ) → Bytes → Option ℕ
find_unit [] unit = none
find_unit ((name, multiplier) ∷ rest) unit =
    if bytes_eq name unit then some multiplier else find_unit rest unit

-- The digits and underscores at the start, and what follows them.
unfoldable pub span_digits : Bytes → Bytes × Bytes
span_digits [] = ([], [])
span_digits (c ∷ s) =
    let rest = span_digits s in
    if is_digit c || c == b'_' then (c ∷ rest.0, rest.1) else ([], c ∷ s)

unfoldable pub without_underscores : Bytes → Bytes
without_underscores [] = []
without_underscores (c ∷ s) =
    let rest = without_underscores s in if c == b'_' then rest else c ∷ rest

-- The sign, if there is one, and what follows it.
unfoldable pub split_sign : Bytes → Bytes × Bytes
split_sign [] = ([], [])
split_sign (c ∷ s) = if c == b'-' || c == b'+' then (c ∷ [], s) else ([], c ∷ s)

-- `n > math.MaxInt64/multiplier` and `n < math.MinInt64/multiplier`, a quotient cut off towards 0.
unfoldable pub exceeds : ℤ → ℕ → Bool
exceeds (pos n) multiplier = ltb 0 n && ltb (max_int64 / multiplier) n
exceeds (negsuc n) multiplier = ltb ((max_int64 + 1) / multiplier) (suc n)

-- The checks of the product.
unfoldable pub multiply : ℤ → ℕ → Result ByteSizeError ℤ
unfolding exceeds ◌*ℤ◌
multiply n multiplier =
    if exceeds n multiplier then err ByteSizeError.overflow else ok (n *ℤ pos multiplier)

-- The unit behind the number.
unfoldable pub apply_unit : ℤ → Bytes → Result ByteSizeError ℤ
unfolding find_unit multiply
apply_unit n unit = elim (find_unit byte_size_multipliers (map lower (trim_space unit))) [
  | none ↦ err ByteSizeError.unknown_unit
  | some multiplier ↦ multiply n multiplier
]

-- The number that `strconv.ParseInt` reads, or its error.
unfoldable pub apply_number : Option ℤ → Bytes → Result ByteSizeError ℤ
unfolding apply_unit
apply_number none unit = err ByteSizeError.bad_integer
apply_number (some n) unit = apply_unit n unit

-- `parseByteSize`, for text in ASCII.
unfoldable pub parse_byte_size : Bytes → Result ByteSizeError ℤ
unfolding split_sign span_digits without_underscores apply_number
parse_byte_size raw =
    let value = trim_space raw in
    let (sign, unsigned) = split_sign value in
    let (digits, unit) = span_digits unsigned in
    if bytes_eq value []
    then err ByteSizeError.empty
    else if bytes_eq digits []
    then err ByteSizeError.no_integer
    else apply_number (atoi (sign ++ without_underscores digits)) unit
