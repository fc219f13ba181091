-- ===== src/Keys.antt =====
-- internal/cache/keys.go and format.go: the name of an encoded derivative in the cache.
pub mod Decimal
pub mod Injective
pub mod Tests
use triplet.Common.{ℕ, suc, ◌+◌, Bool, List, [], ◌∷◌, ◌++◌, if◌then◌else◌, ◌==◌}
use triplet.Common.Int.{ℤ, pos, negsuc, pos_part}
use triplet.Floats.{FloatOps}
use triplet.Text.{Bytes, codes, emit, max_int64}
use triplet.Parse.Types.{Region, Size, Rotation, Request}
use triplet.Names.{region_text_of, size_text, rotation_text, operations_text}

-- `-n` of the int64 -(n + 1): it wraps at the least one, which is its own negative.
abbrev opposite : ℕ → ℤ
opposite n = if n == max_int64 then negsuc n else pos (suc n)

-- The digits fill a buffer of 20 bytes from its end, in a loop that runs while the number is positive.
unfoldable pub itoa : ℤ → Bytes
unfolding emit
itoa (pos n) = if n == 0 then codes "0" else emit 20 n []
itoa (negsuc n) = b'-' ∷ emit 20 (pos_part (opposite n)) []

module _ {Float : Type 0} (F : FloatOps Float) where
  unfoldable pub ftoa : Float → Bytes
  unfolding itoa
  ftoa f = if F.eq f (F.of_int (F.to_int f)) then itoa (F.to_int f) else F.format_g f

  unfoldable pub region_string : Region Float → Bytes
  region_string r = region_text_of ftoa r.kind r

  unfoldable pub size_string : Size Float → Bytes
  size_string s = size_text ftoa itoa s

  unfoldable pub rotation_string : Rotation Float → Bytes
  rotation_string r = rotation_text ftoa r

  unfoldable pub derivative_key : Request Float → Bytes
  unfolding region_string size_string rotation_string
  derivative_key req =
      codes "iiif/3/"
      ++ (req.identifier
          ++ b'/'
            ∷ (region_string req.region
                ++ b'/'
                  ∷ (size_string req.size
                      ++ b'/'
                        ∷ (rotation_string req.rotation
                            ++ b'/' ∷ (req.quality ++ b'.' ∷ req.format)))))
