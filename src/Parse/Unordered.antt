-- ===== src/Parse/Unordered.antt =====
-- The checks on floats reject by `<` and `<=`, so a value that compares false with all passes them.
use triplet.Common.{◌≡◌, refl, false, ◌++◌, ok}
use triplet.Common.Int.{pos}
use triplet.Floats.{FloatOps}
use triplet.Text.{Bytes, codes}
use triplet.Text.Decimal.{IsNumeral}
use triplet.Parse.Types.{Region, RegionKind, Size, SizeKind}
use triplet.Parse.Operations.{parse_region, parse_size, parse_rotation}
use triplet.Names.{region_text_of, size_text, rotation_text}
use triplet.Names.Regions.{parse-region_text}
use triplet.Names.RoundTrip.{parse-size_text, parse-rotation_text}
use triplet.Common.{some, ◌≢◌, []}

module _ {Float : Type 0} (F : FloatOps Float) where
  -- As NaN does.
  pub record IsUnordered (v : Float) : Type 0 where
    pub le_zero : F.le v F.zero ≡ false
    pub lt_left : (w : Float) → F.lt v w ≡ false
    pub lt_right : (w : Float) → F.lt w v ≡ false

  abbrev pub region_of : Float → Region Float
  region_of v = record { kind = RegionKind.percent; x = v; y = v; w = v; h = v }

  abbrev pub size_of : Float → Size Float
  size_of v = record { kind = SizeKind.percent; w = pos 0; h = pos 0; percent = v; upscale = false }

  -- Text that `strconv.ParseFloat` reads as a value that compares false with all others, as NaN
  -- does, is accepted for the four percentages of a region, for the percentage of a size and for an
  -- angle, although it is in none of the ranges.
  pub parse_unordered :
      (s : Bytes) (v : Float)
      → s ≢ []
      → IsNumeral s
      → F.parse_float s ≡ some v
      → IsUnordered v
      → (parse_region F (region_text_of (λ _. s) RegionKind.percent (region_of v))
          ≡ ok (region_of v))
        × (parse_size F (codes "pct:" ++ s) ≡ ok (size_of v))
        × (parse_rotation F s ≡ ok (record { degrees = v; mirror = false }))
  unfolding size_text rotation_text
  parse_unordered s v ne n e u = (
    parse-region_text F (λ _. s) (λ _. n) RegionKind.percent (region_of v) refl
        (
          (u.le_zero, u.le_zero, u.lt_left F.zero, u.lt_left F.zero),
          u.lt_right _,
          u.lt_right _,
          u.lt_right _,
          u.lt_right _,
        )
        (e, e, e, e),
    parse-size_text F (λ _. s) (λ _. n) (λ _. ne) (size_of v) (u.le_zero, u.lt_right _, refl, refl)
        e,
    parse-rotation_text F (λ _. s) (λ _. n) (λ _. ne) (record { degrees = v; mirror = false })
        (u.lt_left F.zero, u.lt_right _) e,
  )
