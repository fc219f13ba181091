-- ===== src/Handler/Responses.antt =====
-- internal/iiif/image/v3/handler/handler.go: the errors that are answered, the info document, and a
-- derivative from the cache.
use triplet.Common.{
  ℕ, Bool, not, Option, none, some, Result, ok, err, List, [], ◌∷◌, ◌++◌, ltb, ◌==◌, take,
  if◌then◌else◌,
}
use triplet.Common.Int.{pos}
use triplet.Text.{Bytes, codes, bytes_eq, trim_space, itoa}
use triplet.Http
use triplet.Http.{Header, set_header, add_header, get_header, no_header, Message}
use triplet.Names.{escape_identifier_path_segment}
use triplet.FileStore.{Entry, GetError}
use triplet.Storage.{OpenError}
use triplet.Handler.Derivatives.{invalidation_marker_key}
use triplet.Handler.InfoDocument.{pyramid_scale_factors, build_level2_info}
use triplet.Handler.Images.{
  Handler, Codec, State, Faults, ImageError, write_error, image_dimensions, profile_link_header,
}

abbrev pub content_type : Bytes
content_type = codes "Content-Type"

module _ {Float World Stored Ip Network : Type 0} (c : Codec Float)
    (h : Handler Float World Stored Ip Network) where
  -- The responses to the errors that the handler tells apart; `otherwise` is the text of a 500.
  unfoldable pub error_response : Header → Message → ImageError → Http.Response
  unfolding write_error
  error_response header otherwise ImageError.busy = write_error c header 503 (codes "server busy")
  error_response header otherwise (ImageError.source_error OpenError.not_found) =
      write_error c header 404 (codes "identifier not found")
  error_response header otherwise (ImageError.source_error OpenError.forbidden) =
      write_error c header 403 (codes "identifier forbidden")
  error_response header otherwise (ImageError.source_error e) = write_error c header 500 otherwise
  error_response header otherwise (ImageError.bad_request message) =
      write_error c header 400 message
  error_response header otherwise ImageError.unsupported =
      write_error c header 415 (codes "unsupported source image")
  error_response header otherwise ImageError.failed = write_error c header 500 otherwise

  abbrev pub or_one : Option (List ℕ) → List ℕ
  or_one none = 1 ∷ []
  or_one (some factors) = factors

  abbrev pub is_head : Http.Request → Bool
  is_head r = bytes_eq r.method (codes "HEAD")

  unfoldable pub info_response :
      Http.Request → Header → Bytes → Result ImageError (ℕ × ℕ) → Http.Response
  unfolding error_response build_level2_info pyramid_scale_factors
  info_response r header identifier (err e) = error_response header (codes "failed to read image") e
  info_response r header identifier (ok (width, height)) =
      let id = h.public_base_url ++ h.prefix ++ b'/' ∷ escape_identifier_path_segment identifier in
      let factors = or_one (pyramid_scale_factors width height 512) in
      let typed =
        set_header header content_type
          (codes "application/ld+json;profile=\"http://iiif.io/api/image/3/context.json\"") in
      record {
        status = 200;
        header = add_header typed (codes "Link") profile_link_header;
        body =
            if is_head r
            then []
            else c.info_json (build_level2_info id width height factors h.info_limits);
      }

  -- `serveInfo`.
  unfoldable pub serve_info :
      Faults
      → State World Stored
      → Http.Request
      → Header
      → Bytes
      → State World Stored × Http.Response
  unfolding image_dimensions info_response
  serve_info faults s r header identifier =
      let (s', answer) = image_dimensions h faults s identifier in
      (s', info_response r header identifier answer)

  -- What a marker says: its text, or the time it was stored.
  unfoldable pub marker_version : Result GetError (Bytes × Entry) → Bytes
  unfolding trim_space
  marker_version (err e) = []
  marker_version (ok (body, entry)) =
      let version = trim_space (take 256 body) in
      if not (bytes_eq version [])
      then version
      else if entry.stored_at == 0
      then []
      else c.time_text entry.stored_at

  -- `derivativeInvalidationVersion`.
  unfoldable pub derivative_invalidation_version : Stored → ℕ → Bytes → Bytes
  unfolding marker_version invalidation_marker_key
  derivative_invalidation_version st now identifier =
      marker_version (h.derivative_cache.get st now (invalidation_marker_key identifier))

  abbrev pub with_invalidation : Bytes → Bytes → Bytes
  with_invalidation key version =
      if bytes_eq version [] then key else key ++ codes "#invalidate=" ++ version

  -- The key of a derivative that can be cached, with the version of the last invalidation.
  unfoldable pub full_key : Stored → ℕ → Bytes → Bytes → Bytes
  unfolding derivative_invalidation_version
  full_key st now identifier key =
      if bytes_eq h.invalidation_token []
      then key
      else with_invalidation key (derivative_invalidation_version st now identifier)

  -- A derivative from the cache.
  unfoldable pub hit_response : Http.Request → Header → Bytes → Bytes × Entry → Http.Response
  unfolding itoa
  hit_response r header type_of_format (body, entry) =
      let typed =
        set_header header content_type
          (if bytes_eq entry.content_type [] then type_of_format else entry.content_type) in
      let sized =
        if ltb 0 entry.size
        then set_header typed (codes "Content-Length") (itoa (pos entry.size))
        else typed in
      record {
        status = 200;
        header = set_header sized (codes "X-Cache") (codes "hit");
        body = if is_head r then [] else body;
      }

  abbrev pub or_type : Bytes → Bytes → Bytes
  or_type type_of_format said = if bytes_eq said [] then type_of_format else said
