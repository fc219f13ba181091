-- ===== src/Handler/Serve.antt =====
-- internal/iiif/image/v3/handler/handler.go: what `ServeHTTP` does with a request.
pub mod Tests
use triplet.Common.{ℕ, ◌||◌, not, Option, none, some, Result, ok, err, ◌∷◌, ◌++◌, if◌then◌else◌}
use triplet.Text.{Bytes, codes, bytes_eq, trim_prefix}
use triplet.Http
use triplet.Http.{Header, get_header, no_header, Message}
use triplet.Cors.{set_headers}
use triplet.Names.{escape_identifier_path_segment}
use triplet.Parse.{parse}
use triplet.Parse.Types.{Request, Kind, SyntaxError}
use triplet.Handler.Clients.{cache_invalidation_identifier}
use triplet.Handler.Images.{Handler, Codec, State, Faults, write_error}
use triplet.Handler.Responses.{is_head, serve_info}
use triplet.Handler.Derivation.{serve_image}
use triplet.Handler.Invalidation.{invalidate_if_allowed}

module _ {Float World Stored Ip Network : Type 0} (c : Codec Float)
    (h : Handler Float World Stored Ip Network) where
  abbrev pub cors_header : Http.Request → Header
  cors_header r = set_headers h.cors (get_header r.header (codes "Origin")) no_header

  -- The switch on the kind of a request that was parsed.
  unfoldable pub serve_kind :
      Faults
      → State World Stored
      → ℕ
      → Http.Request
      → Request Float
      → Kind
      → State World Stored × Http.Response
  unfolding serve_info serve_image
  serve_kind faults s now r req Kind.base = (
    s,
    c.redirect r (cors_header r)
        (h.prefix ++ b'/' ∷ escape_identifier_path_segment req.identifier ++ codes "/info.json"),
  )
  serve_kind faults s now r req Kind.info = serve_info c h faults s r (cors_header r) req.identifier
  serve_kind faults s now r req Kind.image = serve_image c h faults s now r (cors_header r) req

  unfoldable pub serve_parsed :
      Faults
      → State World Stored
      → ℕ
      → Http.Request
      → Result SyntaxError (Request Float)
      → State World Stored × Http.Response
  unfolding serve_kind write_error
  serve_parsed faults s now r (err e) = (s, write_error c no_header 400 (c.syntax_text e))
  serve_parsed faults s now r (ok req) = serve_kind faults s now r req req.kind

  unfoldable pub serve_unless_invalidation :
      Faults
      → State World Stored
      → ℕ
      → Http.Request
      → Option (Result Message Bytes)
      → State World Stored × Http.Response
  unfolding invalidate_if_allowed serve_parsed write_error parse
  serve_unless_invalidation faults s now r (some identifier) =
      invalidate_if_allowed c h s now r (cors_header r) identifier
  serve_unless_invalidation faults s now r none =
      if bytes_eq r.method (codes "GET") || is_head c h r
      then serve_parsed faults s now r (parse c.floats (trim_prefix r.escaped_path h.prefix))
      else (s, write_error c no_header 405 (codes "method not allowed"))

  -- `ServeHTTP`.
  unfoldable pub serve_http :
      Faults → State World Stored → ℕ → Http.Request → State World Stored × Http.Response
  unfolding serve_unless_invalidation cache_invalidation_identifier
  serve_http faults s now r =
      serve_unless_invalidation faults s now r
        (cache_invalidation_identifier c.unescape_text h.prefix r.escaped_path)
