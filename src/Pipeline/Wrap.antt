-- ===== src/Pipeline/Wrap.antt =====
-- Go's int64: sums and differences wrap, and a quotient is cut off towards 0.
use triplet.Common.{ℕ, zero, suc, ◌-◌, ◌%◌, ◌/◌, ltb, if◌then◌else◌}
use triplet.Common.Int.{ℤ, pos, negsuc, pos_part, ◌+ℤ◌, ◌-ℤ◌}

-- 2 ^ 63 and 2 ^ 64.
abbrev pub half64 : ℕ
half64 = 9223372036854775808

abbrev pub full64 : ℕ
full64 = 18446744073709551616

-- The int64 that an integer is modulo 2 ^ 64.
unfoldable pub wrap64 : ℤ → ℤ
wrap64 (pos n) =
    if ltb (n % full64) half64 then pos (n % full64) else negsuc (full64 - 1 - n % full64)
wrap64 (negsuc n) =
    if ltb (n % full64) half64 then negsuc (n % full64) else pos (full64 - 1 - n % full64)

unfoldable pub add64 : ℤ → ℤ → ℤ
unfolding wrap64 ◌+ℤ◌
add64 a b = wrap64 (a +ℤ b)

unfoldable pub sub64 : ℤ → ℤ → ℤ
unfolding wrap64 ◌-ℤ◌
sub64 a b = wrap64 (a -ℤ b)

negated : ℕ → ℤ
negated zero = pos 0
negated (suc n) = negsuc n

-- The quotient by a divisor that is positive.
unfoldable pub div64 : ℤ → ℤ → ℤ
unfolding negated
div64 (pos n) d = pos (n / pos_part d)
div64 (negsuc n) d = negated (suc n / pos_part d)
