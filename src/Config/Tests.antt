-- ===== src/Config/Tests.antt =====
-- Byte sizes at some texts.
use triplet.Common.{◌≡◌, refl, ◌⊎◌, ok, err, arith}
use triplet.Common.Int.{pos, negsuc, ◌*ℤ◌}
use triplet.Text.{codes, trim_space, bytes_eq, atoi, is_space, is_digit, lower}
use triplet.Text.Decimal.{IsInt64}
use triplet.Config.{ByteSizeError, multiply, parse_byte_size}
use triplet.Config.Sizes.{multiply_exact}

multiply_exact_example :
    ((multiply (negsuc 8) 1000 ≡ ok (negsuc 8 *ℤ pos 1000)) × IsInt64 (negsuc 8 *ℤ pos 1000))
    ⊎ ((multiply (negsuc 8) 1000 ≡ err ByteSizeError.overflow)
        × (IsInt64 (negsuc 8 *ℤ pos 1000) → ⊥))
multiply_exact_example = multiply_exact (negsuc 8) 1000 (omega arith)

size_of_text : parse_byte_size (codes " 1_000 KiB") ≡ ok (pos 1024000)
unfolding parse_byte_size trim_space bytes_eq atoi is_space is_digit lower multiply ◌*ℤ◌
size_of_text = refl
