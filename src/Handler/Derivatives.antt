-- ===== src/Handler/Derivatives.antt =====
-- The name of a derivative in the cache, with the version of its source, and what is answered of it
-- by its tag (internal/iiif/image/v3/handler/handler.go).
use triplet.Common.{
  ℕ, Bool, true, false, ◌&&◌, ◌||◌, not, List, [], ◌∷◌, ◌++◌, ltb, ◌==◌, if◌then◌else◌,
}
use triplet.Common.Int.{pos}
use triplet.Floats.{FloatOps}
use triplet.Text.{Bytes, codes, bytes_eq, split, trim_space, itoa}
use triplet.Parse.Types.{Request, Format}
use triplet.Keys.{derivative_key}
use triplet.Storage.{Meta}

-- The version of a source; `unix_nano` is the text of `ModTime.UnixNano()`.
unfoldable pub source_version : (ℕ → Bytes) → Meta → Bytes
unfolding trim_space itoa
source_version unix_nano m =
    let version = trim_space m.version in
    if bytes_eq version [] && (ltb 0 m.size || not (m.mod_time == 0))
    then codes "meta:" ++ itoa (pos m.size) ++ b':' ∷ unix_nano m.mod_time
    else version

-- `derivativeKey`: the key, and whether the derivative can be cached.
unfoldable pub versioned_key :
    {Float : Type 0} → FloatOps Float → (ℕ → Bytes) → Request Float → Meta → Bytes × Bool
unfolding derivative_key source_version
versioned_key F unix_nano req m =
    let version = source_version unix_nano m in
    if bytes_eq version []
    then (derivative_key F req, false)
    else (derivative_key F req ++ codes "#source=" ++ version, true)

-- `invalidationMarkerKey`.
unfoldable pub invalidation_marker_key : Bytes → Bytes
invalidation_marker_key identifier = codes "iiif/3/" ++ identifier ++ codes "/cache/invalidation"

-- `derivativeETag`, for a hash in hex.
unfoldable pub derivative_etag : (Bytes → Bytes) → Bytes → Bytes
derivative_etag sha256_hex key = b'"' ∷ sha256_hex key ++ b'"' ∷ []

unfoldable pub part_matches : List Bytes → Bytes → Bool
part_matches [] etag = false
part_matches (part ∷ rest) etag =
    bytes_eq (trim_space part) (codes "*")
    || bytes_eq (trim_space part) etag
    || part_matches rest etag

-- `ifNoneMatchMatches`.
unfoldable pub if_none_match_matches : List Bytes → Bytes → Bool
unfolding part_matches
if_none_match_matches [] etag = false
if_none_match_matches (value ∷ rest) etag =
    part_matches (split value b',') etag || if_none_match_matches rest etag

-- `contentTypeForFormat`.
unfoldable pub content_type_for_format : Format → Bytes
content_type_for_format format =
    if bytes_eq format (codes "jpg")
    then codes "image/jpeg"
    else if bytes_eq format (codes "png")
    then codes "image/png"
    else if bytes_eq format (codes "gif")
    then codes "image/gif"
    else if bytes_eq format (codes "webp")
    then codes "image/webp"
    else if bytes_eq format (codes "tif")
    then codes "image/tiff"
    else if bytes_eq format (codes "jp2")
    then codes "image/jp2"
    else if bytes_eq format (codes "pdf")
    then codes "application/pdf"
    else codes "application/octet-stream"
