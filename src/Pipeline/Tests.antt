-- ===== src/Pipeline/Tests.antt =====
-- The geometry of one image of 3000 by 2000 pixels.
use triplet.Common.{ℕ, ◌*◌, ◌≤◌, ◌<◌, ◌≡◌, ◌⊎◌, false, none, some, ok, err, arith, OnOk, length}
use triplet.Common.Int.{pos}
use triplet.Floats.Sample.{Sample, whole, sample_ops}
use triplet.Parse.Types.{Size, SizeKind}
use triplet.Pipeline.{Box, GeometryError, clip, choose_jp2_page, resolve_size, check_source_pixels}
use triplet.Text.{Bytes, codes, itoa}
use triplet.Pipeline.Pdf.{single_image_pdf}
use triplet.Pipeline.Pdf.Reads.{IsIndexed, single_image_pdf-IsIndexed}
use triplet.Pipeline.Inside.{
  clip-within, clip_overflow, within, choose_jp2_page_fits, resolve_size-IsSized,
  check_source_pixels_exact, IsSized,
}

abbrev box : (l t w h : ℕ) → Box
box l t w h = record { left = pos l; top = pos t; width = pos w; height = pos h }

clip-within_example :
    ((2000 < 3000)
      × (100 < 2000)
      × (0 < 1500)
      × (0 < 200)
      × (clip (box 2000 100 1500 200) (pos 3000) (pos 2000)
          ≡ ok (box 2000 100 (within 3000 2000 1500) (within 2000 100 200))))
    ⊎ (((3000 ≤ 2000) ⊎ (2000 ≤ 100))
        × (clip (box 2000 100 1500 200) (pos 3000) (pos 2000) ≡ err GeometryError.outside))
    ⊎ (((◌≡◌ {A = ℕ} 1500 0) ⊎ (◌≡◌ {A = ℕ} 200 0))
        × (clip (box 2000 100 1500 200) (pos 3000) (pos 2000) ≡ err GeometryError.empty_region))
clip-within_example =
    clip-within 2000 100 1500 200 3000 2000 (omega arith) (omega arith) (omega arith) (omega arith)

-- The end of the first side is 2 ^ 63 + 976.
clip_overflow_example :
    clip (box 2000 0 9223372036854774784 200) (pos 3000) (pos 2000)
    ≡ ok (box 2000 0 9223372036854774784 (within 2000 0 200))
clip_overflow_example =
    clip_overflow 2000 0 9223372036854774784 200 3000 2000 (omega arith) (omega arith) (omega arith)
      (omega arith) (omega arith) (omega arith) (omega arith) (omega arith) (omega arith)

choose_jp2_page_fits_example :
    (choose_jp2_page sample_ops 5 (pos 800) (pos 800) (pos 100) (pos 100) ≡ 0)
    ⊎ ((choose_jp2_page sample_ops 5 (pos 800) (pos 800) (pos 100) (pos 100) < 5)
        × (sample_ops.lt
              (sample_ops.minimum
                (sample_ops.div (sample_ops.of_int (pos 800)) (sample_ops.of_int (pos 100)))
                (sample_ops.div (sample_ops.of_int (pos 800)) (sample_ops.of_int (pos 100))))
              (sample_ops.ldexp1
                (pos (choose_jp2_page sample_ops 5 (pos 800) (pos 800) (pos 100) (pos 100))))
            ≡ false))
choose_jp2_page_fits_example =
    choose_jp2_page_fits sample_ops 5 (pos 800) (pos 800) (pos 100) (pos 100)

abbrev half_width : Size Sample
half_width = record {
  kind = SizeKind.width;
  w = pos 1500;
  h = pos 0;
  percent = whole (pos 0);
  upscale = false;
}

resolve_size-IsSized_example :
    OnOk (IsSized sample_ops) (resolve_size sample_ops half_width (pos 3000) (pos 2000))
resolve_size-IsSized_example =
    resolve_size-IsSized sample_ops half_width (pos 3000) (pos 2000) (omega arith) (omega arith)
      (omega arith)

check_source_pixels_exact_example :
    ((0 < 3000)
      × (0 < 2000)
      × (3000 * 2000 ≤ 5000000)
      × (check_source_pixels (pos 3000) (pos 2000) (pos 5000000) ≡ none))
    ⊎ ((0 < 3000)
        × (0 < 2000)
        × (5000000 < 3000 * 2000)
        × (check_source_pixels (pos 3000) (pos 2000) (pos 5000000)
            ≡ some GeometryError.source_pixels))
    ⊎ (((◌≡◌ {A = ℕ} 3000 0) ⊎ (◌≡◌ {A = ℕ} 2000 0))
        × (check_source_pixels (pos 3000) (pos 2000) (pos 5000000)
            ≡ some GeometryError.invalid_source))
check_source_pixels_exact_example = check_source_pixels_exact 3000 2000 5000000 (omega arith)

abbrev jpeg : Bytes
jpeg = codes "JPEG"

short_pdf : length (single_image_pdf (pos 30) (pos 20) (codes "DeviceRGB") jpeg) < 10000000000
unfolding single_image_pdf itoa
short_pdf = omega arith

single_image_pdf-IsIndexed_example :
    IsIndexed (single_image_pdf (pos 30) (pos 20) (codes "DeviceRGB") jpeg)
single_image_pdf-IsIndexed_example =
    single_image_pdf-IsIndexed (pos 30) (pos 20) (codes "DeviceRGB") jpeg short_pdf
