-- ===== src/Handler/Tests.antt =====
-- The canonical URL at one request.
use triplet.Common.{ℕ, ◌≡◌, refl, ok, some, List, [], ◌∷◌, arith}
use triplet.Floats.Sample.{sample_ops, sample_text, sample_text-IsNumeral, sample_text-ne-nil}
use triplet.Text.{codes, trim_prefix, itoa, atoi, bytes_eq, path_escape, replace_byte}
use triplet.Names.{
  region_text_of, size_text, rotation_text, operations_text, escape_identifier_path_segment,
}
use triplet.Parse.{parse}
use triplet.Parse.Tests.{thumbnail, thumbnail-IsImageRequest}
use triplet.Handler.Urls.{canonical_image_url}
use triplet.Handler.InfoDocument.{
  pyramid_scale_factors, larger, IsPyramid, pyramid_scale_factors_total,
}
use triplet.Handler.Canonical.{ReadsBack, parse-canonical_path}

thumbnail_url :
    canonical_image_url sample_ops (codes "http://host") (codes "/iiif/3") thumbnail
    ≡ codes "http://host/iiif/3/a%2Fb.tif/1,2,30,40/^!20,10/!90/gray.png"
unfolding canonical_image_url operations_text region_text_of size_text rotation_text itoa
    path_escape replace_byte escape_identifier_path_segment
thumbnail_url = refl

thumbnail-ReadsBack :
    ReadsBack sample_ops sample_text sample_text-IsNumeral sample_text-ne-nil thumbnail
unfolding itoa atoi bytes_eq
thumbnail-ReadsBack = record { region = (refl, refl, refl, refl); percent = refl; degrees = refl }

parse-canonical_path_example :
    parse sample_ops (
      trim_prefix (canonical_image_url sample_ops [] (codes "/iiif/3") thumbnail) (codes "/iiif/3"))
    ≡ ok thumbnail
parse-canonical_path_example =
    parse-canonical_path sample_ops sample_text-IsNumeral sample_text-ne-nil (codes "/iiif/3")
      thumbnail refl thumbnail-IsImageRequest (omega arith) thumbnail-ReadsBack

pyramid_scale_factors_total_example :
    (factors : List ℕ) × (pyramid_scale_factors 2000 1000 512 ≡ some (1 ∷ factors))
    × IsPyramid (larger 2000 1000) 512 2 factors
pyramid_scale_factors_total_example =
    pyramid_scale_factors_total 2000 1000 512 (omega arith) (omega arith)

pyramid : pyramid_scale_factors 2000 1000 512 ≡ some (1 ∷ 2 ∷ [])
unfolding pyramid_scale_factors
pyramid = refl
