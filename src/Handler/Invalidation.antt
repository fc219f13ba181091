-- ===== src/Handler/Invalidation.antt =====
-- internal/iiif/image/v3/handler/handler.go: `maybeServeCacheInvalidation` on an identifier.
use triplet.Common.{ℕ, not, Option, none, some, Result, ok, err, [], if◌then◌else◌}
use triplet.Text.{Bytes, codes, bytes_eq}
use triplet.Http
use triplet.Http.{Header, set_header, add_header, get_header, no_header, Message}
use triplet.Handler.Derivatives.{invalidation_marker_key}
use triplet.Handler.Clients.{authorized_invalidation, client_allowed}
use triplet.Handler.Images.{Handler, Codec, State, write_error, forget}
use triplet.Handler.Responses.{content_type}

module _ {Float World Stored Ip Network : Type 0} (c : Codec Float)
    (h : Handler Float World Stored Ip Network) where
  abbrev pub forget_auth : Option (World → Bytes → World) → World → Bytes → World
  forget_auth none w identifier = w
  forget_auth (some invalidate) w identifier = invalidate w identifier

  -- The invalidation of an identifier, once it is allowed.
  unfoldable pub invalidate :
      State World Stored → ℕ → Header → Bytes → State World Stored × Http.Response
  unfolding write_error invalidation_marker_key forget
  invalidate s now header identifier =
      let (stored, done) =
        h.derivative_cache.put s.stored now (invalidation_marker_key identifier)
          (codes "text/plain; charset=utf-8") (c.time_text now) in
      let sent : Http.Response = record {
        status = 204;
        header = set_header header content_type (codes "application/json");
        body = [];
      } in
      if done
      then (
        record {
          world = forget_auth h.invalidate_auth s.world identifier;
          stored = stored;
          info_cache = forget s.info_cache identifier;
        },
        sent,
      )
      else (
        record s { stored = stored },
        write_error c header 500 (codes "failed to invalidate cache"),
      )

  unfoldable pub invalidate_if_allowed :
      State World Stored
      → ℕ
      → Http.Request
      → Header
      → Result Message Bytes
      → State World Stored × Http.Response
  unfolding invalidate write_error authorized_invalidation client_allowed
  invalidate_if_allowed s now r header (err message) = (s, write_error c header 400 message)
  invalidate_if_allowed s now r header (ok identifier) =
      let challenge =
        set_header header (codes "WWW-Authenticate")
          (codes "Bearer realm=\"triplet-image-cache\"") in
      if not (bytes_eq r.method (codes "POST"))
      then (s, write_error c header 405 (codes "method not allowed"))
      else if bytes_eq h.invalidation_token []
      then (s, write_error c header 404 (codes "not found"))
      else if not (authorized_invalidation h.invalidation_token r)
      then (s, write_error c challenge 401 (codes "unauthorized"))
      else if not (client_allowed h.net r h.invalidation_networks h.trusted_proxies)
      then (s, write_error c header 403 (codes "forbidden"))
      else invalidate s now header identifier
