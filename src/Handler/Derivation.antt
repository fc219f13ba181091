-- ===== src/Handler/Derivation.antt =====
-- internal/iiif/image/v3/handler/handler.go: `serveImage`.
use triplet.Common.{ℕ, Option, none, some, Result, ok, err, [], ◌∷◌, ◌++◌, length, if◌then◌else◌}
use triplet.Common.Int.{pos}
use triplet.Text.{Bytes, codes, itoa}
use triplet.Http
use triplet.Http.{Header, set_header, add_header, get_header, no_header, Message}
use triplet.Parse.Types.{Request}
use triplet.FileStore.{Entry, GetError}
use triplet.Storage.{Meta, OpenError}
use triplet.Handler.Urls.{canonical_image_url}
use triplet.Handler.Derivatives.{
  versioned_key, derivative_etag, if_none_match_matches, content_type_for_format,
}
use triplet.Handler.Images.{
  Handler, Codec, State, Faults, ImageError, Derivative, write_error, source_meta,
  profile_link_header,
}
use triplet.Handler.Responses.{
  error_response, is_head, full_key, hit_response, or_type, content_type,
}

module _ {Float World Stored Ip Network : Type 0} (c : Codec Float)
    (h : Handler Float World Stored Ip Network) where
  -- The end of a transform that went well: the derivative is put into the cache, where it has a key.
  unfoldable pub send_derivative :
      Faults
      → State World Stored
      → ℕ
      → Http.Request
      → Header
      → (type_of_format : Bytes) → Option Bytes
      → Derivative
      → State World Stored × Http.Response
  unfolding write_error itoa
  send_derivative faults s now r header type_of_format key d =
      let type_sent = or_type c h type_of_format d.content_type in
      let typed = set_header header content_type type_sent in
      let sized = set_header typed (codes "Content-Length") (itoa (pos (length d.body))) in
      let answer : Http.Response = record {
        status = 200;
        header = sized;
        body = if is_head c h r then [] else d.body;
      } in
      if faults.seek_end
      then (s, write_error c typed 500 (codes "failed to prepare response"))
      else if faults.rewind
      then (s, write_error c sized 500 (codes "failed to prepare response"))
      else elim key [
        | none ↦ (s, answer)
        | some k ↦
            let stored = (h.derivative_cache.put s.stored now k type_sent d.body).0 in
            (
              record s { stored = stored },
              if faults.rewind_again
                  then write_error c sized 500 (codes "failed to prepare response")
                  else answer,
            )
      ]

  unfoldable pub transformed :
      Faults
      → State World Stored
      → ℕ
      → Http.Request
      → Header
      → (type_of_format : Bytes) → Option Bytes
      → Result ImageError Derivative
      → State World Stored × Http.Response
  unfolding error_response send_derivative
  transformed faults s now r header type_of_format key (err e) =
      (s, error_response c h header (codes "failed to transform image") e)
  transformed faults s now r header type_of_format key (ok d) =
      send_derivative faults s now r header type_of_format key d

  -- A derivative that is not in the cache.
  unfoldable pub serve_miss :
      Faults
      → State World Stored
      → ℕ
      → Http.Request
      → Request Float
      → Header
      → Option Bytes
      → State World Stored × Http.Response
  unfolding transformed write_error content_type_for_format
  serve_miss faults s now r req header key =
      let type_of_format = content_type_for_format req.format in
      let typed =
        set_header (set_header header content_type type_of_format) (codes "X-Cache")
          (codes "miss") in
      let (w, result) = h.transform s.world req in
      if faults.temp
      then (s, write_error c typed 500 (codes "failed to prepare response"))
      else transformed faults (record s { world = w }) now r typed type_of_format key result

  unfoldable pub serve_found :
      Faults
      → State World Stored
      → ℕ
      → Http.Request
      → Request Float
      → Header
      → Bytes
      → Result GetError (Bytes × Entry)
      → State World Stored × Http.Response
  unfolding hit_response serve_miss content_type_for_format
  serve_found faults s now r req header key (ok found) =
      (s, hit_response c h r header (content_type_for_format req.format) found)
  serve_found faults s now r req header key (err e) =
      serve_miss faults s now r req header (some key)

  -- A derivative that has a tag.
  unfoldable pub serve_cacheable :
      Faults
      → State World Stored
      → ℕ
      → Http.Request
      → Request Float
      → Header
      → Bytes
      → State World Stored × Http.Response
  unfolding serve_found derivative_etag if_none_match_matches
  serve_cacheable faults s now r req header key =
      let etag = derivative_etag c.sha256_hex key in
      let tagged = set_header header (codes "ETag") etag in
      if if_none_match_matches (r.header (codes "If-None-Match")) etag
      then (s, record { status = 304; header = tagged; body = [] })
      else serve_found faults s now r req tagged key (h.derivative_cache.get s.stored now key)

  unfoldable pub serve_meta :
      Faults
      → State World Stored
      → ℕ
      → Http.Request
      → Request Float
      → Header
      → Result OpenError Meta
      → State World Stored × Http.Response
  unfolding error_response serve_cacheable serve_miss full_key versioned_key
  serve_meta faults s now r req header (err e) =
      (s, error_response c h header (codes "failed to read image") (ImageError.source_error e))
  serve_meta faults s now r req header (ok m) =
      let (key, cacheable) = versioned_key c.floats c.unix_nano req m in
      if cacheable
      then serve_cacheable faults s now r req header (full_key c h s.stored now req.identifier key)
      else serve_miss faults s now r req header none

  abbrev pub linked : Header → Request Float → Header
  linked header req =
      let canonical =
        b'<' ∷ canonical_image_url c.floats h.public_base_url h.prefix req
        ++ codes ">;rel=\"canonical\"" in
      add_header (add_header header (codes "Link") canonical) (codes "Link") profile_link_header

  -- `serveImage`.
  unfoldable pub serve_image :
      Faults
      → State World Stored
      → ℕ
      → Http.Request
      → Header
      → Request Float
      → State World Stored × Http.Response
  unfolding serve_meta source_meta
  serve_image faults s now r header req =
      let (w, answer) = source_meta h s.world req.identifier in
      serve_meta faults (record s { world = w }) now r req (linked header req) answer
