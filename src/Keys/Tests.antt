-- ===== src/Keys/Tests.antt =====
-- Cache keys at one request, and their injectivity there.
use triplet.Common.{◌≡◌, refl, [], ◌≢◌, ◌⊎◌, some, none, Bool-cases, inl, inr, arith}
use triplet.Common.Int.{negsuc}
use triplet.Floats.Sample.{
  Sample, nan, whole, sample_ops, sample_text-IsNumeral, sample_text-ne-nil,
}
use triplet.Text.{codes, atoi, bytes_eq, max_int64}
use triplet.Text.Decimal.{IsNumeral}
use triplet.Keys.Decimal.{keys_itoa-IsNumeral, keys_itoa-ne-nil, atoi-keys_itoa}
use triplet.Names.{region_text_of, size_text, rotation_text}
use triplet.Parse.Tests.{thumbnail, thumbnail-IsImageRequest}
use triplet.Handler.Canonical.{ReadsBack}
use triplet.Keys
use triplet.Keys.{ftoa, derivative_key}
use triplet.Keys.Injective.{derivative_key_injective}

thumbnail_key :
    derivative_key sample_ops thumbnail ≡ codes "iiif/3/a/b.tif/1,2,30,40/^!20,10/!90/gray.png"
unfolding derivative_key region_text_of size_text rotation_text ftoa
thumbnail_key = refl

key_numeral : (v : Sample) → IsNumeral (ftoa sample_ops v)
unfolding ftoa
key_numeral nan = sample_text-IsNumeral nan
key_numeral (whole n) = elim (Bool-cases (sample_ops.eq (whole n) (whole n))) [
  | inl same ↦ rw same (keys_itoa-IsNumeral n)
  | inr other ↦ rw other (sample_text-IsNumeral (whole n))
]

key_written : (v : Sample) → ftoa sample_ops v ≢ []
unfolding ftoa
key_written nan = sample_text-ne-nil nan
key_written (whole n) = elim (Bool-cases (sample_ops.eq (whole n) (whole n))) [
  | inl same ↦ rw same (keys_itoa-ne-nil n)
  | inr other ↦ rw other (sample_text-ne-nil (whole n))
]

key-ReadsBack : ReadsBack sample_ops (ftoa sample_ops) key_numeral key_written thumbnail
unfolding ftoa atoi bytes_eq
key-ReadsBack = record { region = (refl, refl, refl, refl); percent = refl; degrees = refl }

derivative_key_injective_example : thumbnail ≡ thumbnail
derivative_key_injective_example =
    derivative_key_injective sample_ops key_numeral key_written thumbnail thumbnail refl refl
      thumbnail-IsImageRequest thumbnail-IsImageRequest key-ReadsBack key-ReadsBack refl

atoi-keys_itoa_example :
    ((negsuc 41 ≢ negsuc max_int64) × (atoi (Keys.itoa (negsuc 41)) ≡ some (negsuc 41)))
    ⊎ ((negsuc 41 ≡ negsuc max_int64)
        × (Keys.itoa (negsuc 41) ≡ codes "-")
        × (atoi (Keys.itoa (negsuc 41)) ≡ none))
atoi-keys_itoa_example = atoi-keys_itoa (negsuc 41) (omega arith)
