-- ===== src/Handler/Urls.antt =====
-- The canonical URL of an image request, which the handler sends in a `Link` header.
use triplet.Common.{◌∷◌, ◌++◌}
use triplet.Floats.{FloatOps}
use triplet.Text.{Bytes, itoa}
use triplet.Parse.Types.{Request}
use triplet.Names.{operations_text, escape_identifier_path_segment}

module _ {Float : Type 0} (F : FloatOps Float) where
  -- `regionString`, `sizeString` and `rotationString`, with the quality and the format.
  unfoldable pub operations : Request Float → Bytes
  operations req = operations_text F.format_f itoa req

  -- The part of the URL behind the handler's prefix.
  unfoldable pub canonical_path : Request Float → Bytes
  canonical_path req =
      b'/' ∷ (escape_identifier_path_segment req.identifier ++ b'/' ∷ operations req)

  unfoldable pub canonical_image_url : Bytes → Bytes → Request Float → Bytes
  unfolding canonical_path operations
  canonical_image_url public_base_url prefix req = public_base_url ++ (prefix ++ canonical_path req)
