-- ===== src/Handler/Bounds.antt =====
-- How large the cache of dimensions becomes.
use mathlib.Core.Path.{subst}
use triplet.Common.{
  ℕ, suc, ◌≤◌, ◌≡◌, refl, sym, inl, inr, ◌&&◌, ◌||◌, not, Option, none, some, Result, ok, err, List,
  [], ◌∷◌, arith, ltb, ◌==◌, length, if_elim,
}
use triplet.Text.{Bytes, codes, bytes_eq}
use triplet.Http
use triplet.Http.{Header, Message}
use triplet.Parse.Types.{Request, Kind, SyntaxError}
use triplet.Pipeline.{GeometryError}
use triplet.FileStore.{Entry, GetError}
use triplet.Storage.{Meta, OpenError}
use triplet.Handler.Derivatives.{
  versioned_key, derivative_etag, if_none_match_matches, invalidation_marker_key,
}
use triplet.Handler.Images.{
  Handler, Codec, State, Source, Faults, ImageError, Derivative, CachedDimensions, forget,
  make_room, remember, source_meta, image_dimensions, opened_dimensions, decode_dimensions,
  decoded_dimensions, keep_dimensions, find_dimensions, exceeds, is_current, max_info_cache_entries,
}
use triplet.Handler.Invalidated.{invalidate_if_allowed-Outcome, Outcome}
use triplet.Handler.Serve.{
  serve_http, serve_unless_invalidation, cors_header, serve_parsed, serve_kind,
}
use triplet.Handler.Invalidation.{invalidate}
use triplet.Handler.Responses.{serve_info, is_head}
use triplet.Handler.Derivation.{
  serve_image, serve_meta, serve_cacheable, serve_found, serve_miss, transformed, send_derivative,
}

abbrev Dimensions : Type 0
Dimensions = List (Bytes × CachedDimensions)

-- No more entries than the limit.
abbrev pub IsBounded : Dimensions → Type 0
IsBounded cache = length cache ≤ max_info_cache_entries

length-forget :
    (cache : Dimensions) (identifier : Bytes) → length (forget cache identifier) ≤ length cache
unfolding forget
length-forget [] identifier = omega arith
length-forget ((id, entry) ∷ rest) identifier = ground (arith, length-forget rest identifier)

length-make_room :
    (cache : Dimensions) → IsBounded cache → suc (length (make_room cache)) ≤ max_info_cache_entries
unfolding make_room
length-make_room [] h = omega arith
length-make_room (entry ∷ rest) h = ground arith

remember-IsBounded :
    (cache : Dimensions) (identifier : Bytes) (entry : CachedDimensions)
    → IsBounded cache
    → IsBounded (remember cache identifier entry)
unfolding remember
remember-IsBounded cache identifier entry h =
    omega (arith, length-make_room cache h, length-forget (make_room cache) identifier)

module _ {Float World Stored Ip Network : Type 0} (c : Codec Float)
    (h : Handler Float World Stored Ip Network) where
  abbrev Keeps : Dimensions × Result ImageError (ℕ × ℕ) → Type 0
  Keeps out = IsBounded out.0

  keep_dimensions-IsBounded :
      (cache : Dimensions) (identifier : Bytes) (m : Meta) (dims : ℕ × ℕ) (e : Option GeometryError)
      → IsBounded cache
      → Keeps (keep_dimensions h cache identifier m dims e)
  unfolding keep_dimensions
  keep_dimensions-IsBounded cache identifier m dims (some e) b = b
  keep_dimensions-IsBounded cache identifier m dims none b =
      if_elim IsBounded (h.info_cache_enabled && (ltb 0 m.size || not (m.mod_time == 0)))
        (λ _.
          remember-IsBounded cache identifier
            (record { width = dims.0; height = dims.1; size = m.size; mod_time = m.mod_time }) b)
        (λ _. b)

  decoded_dimensions-IsBounded :
      (cache : Dimensions) (identifier : Bytes) (m : Meta) (loaded : Result ImageError (ℕ × ℕ))
      → IsBounded cache
      → Keeps (decoded_dimensions h cache identifier m loaded)
  unfolding decoded_dimensions
  decoded_dimensions-IsBounded cache identifier m (err e) b = b
  decoded_dimensions-IsBounded cache identifier m (ok dims) b =
      keep_dimensions-IsBounded cache identifier m dims _ b

  opened_dimensions-IsBounded :
      (faults : Faults) (cache : Dimensions) (identifier : Bytes)
      (opened : Result OpenError (Source × Meta))
      → IsBounded cache
      → Keeps (opened_dimensions h faults cache identifier opened)
  unfolding opened_dimensions decode_dimensions
  opened_dimensions-IsBounded faults cache identifier (err e) b = b
  opened_dimensions-IsBounded faults cache identifier (ok opened) b =
      if_elim Keeps (exceeds h.max_source_bytes opened.1.size) (λ _. b)
        (λ _.
          if_elim Keeps
            (h.info_cache_enabled
              && (ltb 0 opened.1.size || not (opened.1.mod_time == 0))
              && is_current h opened.1 (find_dimensions cache identifier))
            (λ _. b)
            (λ _.
              if_elim Keeps
                (not opened.0.has_name
                  && (faults.temp || exceeds h.max_source_bytes (length opened.0.bytes)))
                (λ _. b)
                (λ _.
                  if_elim Keeps faults.acquire (λ _. b)
                    (λ _. decoded_dimensions-IsBounded cache identifier opened.1 _ b))))

  abbrev Bounded : State World Stored × Http.Response → Type 0
  Bounded out = IsBounded out.0.info_cache

  module _ (faults : Faults) (now : ℕ) (r : Http.Request) where
    image_dimensions-IsBounded :
        (s : State World Stored) (identifier : Bytes)
        → IsBounded s.info_cache
        → IsBounded (image_dimensions h faults s identifier).0.info_cache
    unfolding image_dimensions
    image_dimensions-IsBounded s identifier b =
        opened_dimensions-IsBounded faults s.info_cache identifier _ b

    send_derivative-same :
        (s : State World Stored) (header : Header) (t : Bytes) (key : Option Bytes) (d : Derivative)
        → (send_derivative c h faults s now r header t key d).0.info_cache ≡ s.info_cache
    unfolding send_derivative
    send_derivative-same s header t none d = ground arith
    send_derivative-same s header t (some k) d = ground arith

    -- What serves an image leaves the cache of dimensions alone.
    abbrev Leaves : State World Stored → State World Stored × Http.Response → Type 0
    Leaves s out = out.0.info_cache ≡ s.info_cache

    transformed-same :
        (s : State World Stored) (header : Header) (t : Bytes) (key : Option Bytes)
        (result : Result ImageError Derivative)
        → Leaves s (transformed c h faults s now r header t key result)
    unfolding transformed
    transformed-same s header t key (err e) = refl
    transformed-same s header t key (ok d) = send_derivative-same s header t key d

    serve_miss-same :
        (s : State World Stored) (req : Request Float) (header : Header) (key : Option Bytes)
        → Leaves s (serve_miss c h faults s now r req header key)
    unfolding serve_miss
    serve_miss-same s req header key =
        if_elim (Leaves s) faults.temp (λ _. refl)
          (λ _.
            transformed-same (record s { world = (h.transform s.world req).0 }) _ _ key
              (h.transform s.world req).1)

    serve_found-same :
        (s : State World Stored) (req : Request Float) (header : Header) (key : Bytes)
        (found : Result GetError (Bytes × Entry))
        → Leaves s (serve_found c h faults s now r req header key found)
    unfolding serve_found
    serve_found-same s req header key (ok found) = refl
    serve_found-same s req header key (err e) = serve_miss-same s req header (some key)

    serve_cacheable-same :
        (s : State World Stored) (req : Request Float) (header : Header) (key : Bytes)
        → Leaves s (serve_cacheable c h faults s now r req header key)
    unfolding serve_cacheable
    serve_cacheable-same s req header key =
        if_elim (Leaves s)
          (if_none_match_matches (r.header (codes "If-None-Match"))
            (derivative_etag c.sha256_hex key))
          (λ _. refl) (λ _. serve_found-same s req _ key _)

    serve_meta-same :
        (s : State World Stored) (req : Request Float) (header : Header)
        (answer : Result OpenError Meta)
        → Leaves s (serve_meta c h faults s now r req header answer)
    unfolding serve_meta
    serve_meta-same s req header (err e) = refl
    serve_meta-same s req header (ok m) =
        if_elim (Leaves s) (versioned_key c.floats c.unix_nano req m).1
          (λ _. serve_cacheable-same s req header _) (λ _. serve_miss-same s req header none)

    serve_kind-IsBounded :
        (s : State World Stored) (req : Request Float) (kind : Kind)
        → IsBounded s.info_cache
        → Bounded (serve_kind c h faults s now r req kind)
    unfolding serve_kind serve_info serve_image
    serve_kind-IsBounded s req Kind.base b = b
    serve_kind-IsBounded s req Kind.info b = image_dimensions-IsBounded s req.identifier b
    serve_kind-IsBounded s req Kind.image b =
        subst IsBounded
          (sym (
            serve_meta-same (record s { world = (source_meta h s.world req.identifier).0 }) req _
              _))
          b

    serve_parsed-IsBounded :
        (s : State World Stored) (q : Result SyntaxError (Request Float))
        → IsBounded s.info_cache
        → Bounded (serve_parsed c h faults s now r q)
    unfolding serve_parsed
    serve_parsed-IsBounded s (err e) b = b
    serve_parsed-IsBounded s (ok req) b = serve_kind-IsBounded s req req.kind b

    invalidate-IsBounded :
        (s : State World Stored) (header : Header) (identifier : Bytes)
        → IsBounded s.info_cache
        → Bounded (invalidate c h s now header identifier)
    unfolding invalidate
    invalidate-IsBounded s header identifier b =
        if_elim Bounded
          (h.derivative_cache.put s.stored now (invalidation_marker_key identifier)
            (codes "text/plain; charset=utf-8") (c.time_text now)).1
          (λ _. omega (arith, b, length-forget s.info_cache identifier)) (λ _. b)

    serve_unless_invalidation-IsBounded :
        (s : State World Stored) (asked : Option (Result Message Bytes))
        → IsBounded s.info_cache
        → Bounded (serve_unless_invalidation c h faults s now r asked)
    unfolding serve_unless_invalidation
    serve_unless_invalidation-IsBounded s none b =
        if_elim Bounded (bytes_eq r.method (codes "GET") || is_head c h r)
          (λ _. serve_parsed-IsBounded s _ b) (λ _. b)
    serve_unless_invalidation-IsBounded s (some asked) b =
        allowed (invalidate_if_allowed-Outcome c h s now r asked)
      where
        allowed :
            {after : State World Stored}
            → Outcome c h s now r asked after
            → IsBounded after.info_cache
        allowed (inl same) = subst (λ st. IsBounded st.info_cache) (sym same) b
        allowed (inr (identifier, _, done)) =
            subst (λ st. IsBounded st.info_cache) (sym done.invalidated)
              (invalidate-IsBounded s (cors_header c h r) identifier b)

    -- Every request keeps the cache of dimensions within its 4096 entries.
    pub serve_http-IsBounded :
        (s : State World Stored)
        → IsBounded s.info_cache
        → IsBounded (serve_http c h faults s now r).0.info_cache
    unfolding serve_http
    serve_http-IsBounded s b = serve_unless_invalidation-IsBounded s _ b
