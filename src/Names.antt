-- ===== src/Names.antt =====
-- The text of the four operation segments of a request. internal/cache/keys.go and
-- internal/iiif/image/v3/handler/handler.go each have this code, with formatters of their own.
pub mod Regions
pub mod Sizes
pub mod RoundTrip
pub mod Segments
use triplet.Common.{◌++◌, [], ◌∷◌, if◌then◌else◌}
use triplet.Common.Int.{ℤ}
use triplet.Text.{Bytes, codes, replace_byte, path_escape}
use triplet.Parse.Types.{Region, RegionKind, Size, SizeKind, Rotation, Request}

-- A formatter of floats.
module _ {Float : Type 0} (ftoa : Float → Bytes) where
  unfoldable pub four : Region Float → Bytes
  four r = ftoa r.x ++ b',' ∷ (ftoa r.y ++ b',' ∷ (ftoa r.w ++ b',' ∷ ftoa r.h))

  unfoldable pub region_text_of : RegionKind → Region Float → Bytes
  unfolding four
  region_text_of RegionKind.full r = codes "full"
  region_text_of RegionKind.square r = codes "square"
  region_text_of RegionKind.percent r = codes "pct:" ++ four r
  region_text_of RegionKind.pixels r = four r

  unfoldable pub rotation_text : Rotation Float → Bytes
  rotation_text r = (if r.mirror then codes "!" else []) ++ ftoa r.degrees

-- The same and a formatter of integers.
module _ {Float : Type 0} (ftoa : Float → Bytes) (itoa : ℤ → Bytes) where
  unfoldable pub size_text_of : SizeKind → Size Float → Bytes
  size_text_of SizeKind.max s = codes "max"
  size_text_of SizeKind.max_up s = codes "max"
  size_text_of SizeKind.width s = itoa s.w ++ codes ","
  size_text_of SizeKind.height s = codes "," ++ itoa s.h
  size_text_of SizeKind.wh s = itoa s.w ++ b',' ∷ itoa s.h
  size_text_of SizeKind.best_fit s = codes "!" ++ (itoa s.w ++ b',' ∷ itoa s.h)
  size_text_of SizeKind.percent s = codes "pct:" ++ ftoa s.percent

  unfoldable pub size_text : Size Float → Bytes
  unfolding size_text_of
  size_text s = (if s.upscale then codes "^" else []) ++ size_text_of s.kind s

  -- The segments from the region on.
  unfoldable pub operations_text : Request Float → Bytes
  operations_text req =
      region_text_of ftoa req.region.kind req.region
      ++ b'/'
        ∷ (size_text req.size
            ++ b'/'
              ∷ (rotation_text ftoa req.rotation ++ b'/' ∷ (req.quality ++ b'.' ∷ req.format)))

-- `escapeIdentifierPathSegment`.
unfoldable pub escape_identifier_path_segment : Bytes → Bytes
escape_identifier_path_segment id = replace_byte b':' (codes "%3A") (path_escape id)
