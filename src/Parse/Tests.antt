-- ===== src/Parse/Tests.antt =====
-- Runs of the parser, and its soundness at one of them.
use triplet.Common.{◌++◌, ◌≡◌, refl, ok, err, true, false}
use triplet.Common.Int.{pos}
use triplet.Floats.Sample.{Sample, nan, whole, sample_ops, sample_text-IsNumeral}
use triplet.Names.{region_text_of}
use triplet.Parse.Unordered.{IsUnordered, region_of, size_of, parse_unordered}
use triplet.Text.{
  codes, bytes_eq, contains_byte, contains_any, trim_prefix, split, join, last_index_byte,
  path_unescape, atoi, has_prefix,
}
use triplet.Parse.{parse, parse_image, parse_quality_format, bare}
use triplet.Parse.Types.{Request, Kind, RegionKind, SizeKind, SyntaxError}
use triplet.Parse.Segments.{decode_identifier, decode_all, decode_operation_segment}
use triplet.Parse.Operations.{
  parse_region, parse_floats, check_region, parse_size, parse_pos_int, parse_dims, parse_rotation,
  parse_quality, parse_format,
}
use triplet.Parse.Safety.{IsImageRequest}
use triplet.Parse.Sound.{IsRequest, parse_sound}

run : Unit {0}
unfolding parse parse_image parse_quality_format decode_identifier decode_all
    decode_operation_segment parse_region parse_floats check_region parse_size parse_pos_int
    parse_dims parse_rotation parse_quality parse_format bytes_eq contains_byte contains_any
    trim_prefix split join last_index_byte path_unescape atoi has_prefix
run = tt

abbrev pub thumbnail : Request Sample
thumbnail = record {
  kind = Kind.image;
  identifier = codes "a/b.tif";
  region = record {
    kind = RegionKind.pixels;
    x = whole (pos 1);
    y = whole (pos 2);
    w = whole (pos 30);
    h = whole (pos 40);
  };
  size = record {
    kind = SizeKind.best_fit;
    w = pos 20;
    h = pos 10;
    percent = whole (pos 0);
    upscale = true;
  };
  rotation = record { degrees = whole (pos 90); mirror = true };
  quality = codes "gray";
  format = codes "png";
}

parse-thumbnail :
    parse sample_ops (codes "/a%2Fb.tif/1,2,30,40/^!20,10/!90/gray.png") ≡ ok thumbnail
unfolding run
parse-thumbnail = refl

parse_info :
    parse sample_ops (codes "/a%20b/info.json") ≡ ok (bare sample_ops Kind.info (codes "a b"))
unfolding run
parse_info = refl

parse_no_quality :
    parse sample_ops (codes "x/full/max/0/default")
    ≡ err (SyntaxError.quality_format (codes "default"))
unfolding run
parse_no_quality = refl

parse_zero_width :
    parse sample_ops (codes "x/0,0,0,5/max/0/default.jpg")
    ≡ err (SyntaxError.region_extent (codes "0,0,0,5"))
unfolding run
parse_zero_width = refl

pub thumbnail-IsImageRequest : IsImageRequest sample_ops thumbnail
thumbnail-IsImageRequest =
    parse_sound sample_ops (codes "/a%2Fb.tif/1,2,30,40/^!20,10/!90/gray.png") thumbnail
      parse-thumbnail

parse_sound_example : IsRequest sample_ops thumbnail
parse_sound_example =
    parse_sound sample_ops (codes "/a%2Fb.tif/1,2,30,40/^!20,10/!90/gray.png") thumbnail
      parse-thumbnail

nan-IsUnordered : IsUnordered sample_ops nan
nan-IsUnordered = record { le_zero = refl; lt_left = λ w. refl; lt_right = lt_nan }
  where
    lt_nan : (w : Sample) → sample_ops.lt w nan ≡ false
    lt_nan nan = refl
    lt_nan (whole n) = refl

parse_unordered_example :
    (parse_region sample_ops
        (region_text_of (λ _. codes "NaN") RegionKind.percent (region_of sample_ops nan))
      ≡ ok (region_of sample_ops nan))
    × (parse_size sample_ops (codes "pct:" ++ codes "NaN") ≡ ok (size_of sample_ops nan))
    × (parse_rotation sample_ops (codes "NaN") ≡ ok (record { degrees = nan; mirror = false }))
unfolding bytes_eq
parse_unordered_example =
    parse_unordered sample_ops (codes "NaN") nan (cc) (sample_text-IsNumeral nan) refl
      nan-IsUnordered
