-- ===== src/Handler/Images.antt =====
-- internal/iiif/image/v3/handler/handler.go: the state of the handler, what it asks of the source, and
-- the errors. The pipeline, the decoder, the JSON of a document and the limiter are parameters.
use triplet.Common.{
  ℕ, Bool, false, ◌&&◌, ◌||◌, not, Option, none, some, Result, ok, err, List, [], ◌∷◌, ltb, leb,
  ◌==◌, length, if◌then◌else◌,
}
use triplet.Common.Int.{ℤ, pos, ltb_ℤ}
use triplet.Floats.{FloatOps}
use triplet.Text.{Bytes, codes, bytes_eq}
use triplet.Http
use triplet.Http.{Header, set_header, Message}
use triplet.Cors.{Policy}
use triplet.Parse.Types.{Request, SyntaxError}
use triplet.Pipeline.{GeometryError, check_source_pixels}
use triplet.Storage.{Meta, Opener, OpenError}
use triplet.Storage.Caching.{Store}
use triplet.Handler.Clients.{Net}
use triplet.Handler.InfoDocument.{Info, Limits}

-- What `errors.Is` tells apart: `ErrBusy`, the errors of a source, `ErrBadRequest`,
-- `ErrUnsupportedSource`, and all else.
pub data ImageError : Type 0 where
  busy : ImageError
  source_error : OpenError → ImageError
  bad_request : Message → ImageError
  unsupported : ImageError
  failed : ImageError

-- `cachedDimensions`.
pub record CachedDimensions : Type 0 where
  pub width : ℕ
  pub height : ℕ
  pub size : ℕ
  pub mod_time : ℕ

-- What is read of a source, which is a file where it has a name.
pub record Source : Type 0 where
  pub bytes : Bytes
  pub has_name : Bool

-- The result of a transform, with what it wrote.
pub record Derivative : Type 0 where
  pub content_type : Bytes
  pub body : Bytes

-- `Handler`, with what it calls. `load` is the width and the height of an image in a file,
-- `geometry_text` the text of an error of `CheckSourcePixels`,
-- `invalidate_auth` is there where the source is an `AuthInvalidator`.
pub record Handler (Float World State Ip Network : Type 0) : Type 0 where
  pub prefix : Bytes
  pub public_base_url : Bytes
  pub src : Opener World Source
  pub transform : World → Request Float → World × Result ImageError Derivative
  pub load : Bytes → Result ImageError (ℕ × ℕ)
  pub geometry_text : ℕ × ℕ → GeometryError → Message
  pub derivative_cache : Store State
  pub cors : Policy
  pub invalidation_token : Bytes
  pub invalidation_networks : List Network
  pub trusted_proxies : List Network
  pub net : Net Ip Network
  pub info_cache_enabled : Bool
  pub info_limits : Limits
  pub max_source_pixels : ℤ
  pub max_source_bytes : ℤ
  pub invalidate_auth : Option (World → Bytes → World)

-- SHA-256 in hex, the JSON texts, `http.Redirect`, the texts of a time, and of the errors of
-- the parser and of `url.PathUnescape`.
pub record Codec (Float : Type 0) : Type 0 where
  pub floats : FloatOps Float
  pub sha256_hex : Bytes → Bytes
  pub error_json : Message → Bytes
  pub info_json : Info → Bytes
  pub redirect : Http.Request → Header → Bytes → Http.Response
  pub unix_nano : ℕ → Bytes
  pub time_text : ℕ → Bytes
  pub syntax_text : SyntaxError → Message
  pub unescape_text : Bytes → Message

pub record State (World Stored : Type 0) : Type 0 where
  pub world : World
  pub stored : Stored
  pub info_cache : List (Bytes × CachedDimensions)

abbrev pub max_info_cache_entries : ℕ
max_info_cache_entries = 4096

abbrev pub profile_link_header : Bytes
profile_link_header = codes "<http://iiif.io/api/image/3/level2.json>;rel=\"profile\""

-- `writeError`.
unfoldable pub write_error : {Float : Type 0} → Codec Float → Header → ℕ → Message → Http.Response
write_error c header status message = record {
  status = status;
  header = set_header header (codes "Content-Type") (codes "application/json");
  body = c.error_json message;
}

unfoldable pub find_dimensions : List (Bytes × CachedDimensions) → Bytes → Option CachedDimensions
find_dimensions [] identifier = none
find_dimensions ((id, entry) ∷ rest) identifier =
    if bytes_eq id identifier then some entry else find_dimensions rest identifier

-- `delete(h.infoCache, identifier)`.
unfoldable pub forget : List (Bytes × CachedDimensions) → Bytes → List (Bytes × CachedDimensions)
forget [] identifier = []
forget ((id, entry) ∷ rest) identifier =
    let others = forget rest identifier in
    if bytes_eq id identifier then others else (id, entry) ∷ others

-- One entry goes where the cache is full; which one, is the order of a Go map, here the first.
unfoldable pub make_room : List (Bytes × CachedDimensions) → List (Bytes × CachedDimensions)
make_room [] = []
make_room (entry ∷ rest) =
    if leb max_info_cache_entries (length (entry ∷ rest)) then rest else entry ∷ rest

unfoldable pub remember :
    List (Bytes × CachedDimensions) → Bytes → CachedDimensions → List (Bytes × CachedDimensions)
unfolding make_room forget
remember cache identifier entry = (identifier, entry) ∷ forget (make_room cache) identifier

-- A size above the limit, where there is one.
abbrev pub exceeds : ℤ → ℕ → Bool
exceeds limit size = ltb_ℤ (pos 0) limit && ltb_ℤ limit (pos size)

-- What the system refuses: a temporary file, with what is copied into it, a worker, and the seeks.
pub record Faults : Type 0 where
  pub temp : Bool
  pub acquire : Bool
  pub seek_end : Bool
  pub rewind : Bool
  pub rewind_again : Bool

module _ {Float World Stored Ip Network : Type 0} (h : Handler Float World Stored Ip Network) where
  unfoldable pub bounded : Result OpenError Meta → Result OpenError Meta
  bounded (err e) = err e
  bounded (ok m) = if exceeds h.max_source_bytes m.size then err OpenError.failed else ok m

  abbrev pub only_meta : Result OpenError (Source × Meta) → Result OpenError Meta
  only_meta (err e) = err e
  only_meta (ok opened) = ok opened.1

  -- `sourceMeta`.
  unfoldable pub source_meta : World → Bytes → World × Result OpenError Meta
  unfolding bounded
  source_meta w identifier = elim h.src.read_meta [
    | some read ↦ let (w', answer) = read w identifier in (w', bounded answer)
    | none ↦ let (w', answer) = h.src.open_source w identifier in (w', bounded (only_meta answer))
  ]

  abbrev pub is_current : Meta → Option CachedDimensions → Bool
  is_current m none = false
  is_current m (some entry) = entry.size == m.size && entry.mod_time == m.mod_time

  -- The dimensions that were decoded, unless the image has too many pixels.
  unfoldable pub keep_dimensions :
      List (Bytes × CachedDimensions)
      → Bytes
      → Meta
      → ℕ × ℕ
      → Option GeometryError
      → List (Bytes × CachedDimensions) × Result ImageError (ℕ × ℕ)
  unfolding remember
  keep_dimensions cache identifier m dims (some e) =
      (cache, err (ImageError.bad_request (h.geometry_text dims e)))
  keep_dimensions cache identifier m dims none =
      let cacheable = ltb 0 m.size || not (m.mod_time == 0) in
      let entry : CachedDimensions = record {
        width = dims.0;
        height = dims.1;
        size = m.size;
        mod_time = m.mod_time;
      } in
      (
        if h.info_cache_enabled && cacheable then remember cache identifier entry else cache,
        ok dims,
      )

  unfoldable pub decoded_dimensions :
      List (Bytes × CachedDimensions)
      → Bytes
      → Meta
      → Result ImageError (ℕ × ℕ)
      → List (Bytes × CachedDimensions) × Result ImageError (ℕ × ℕ)
  unfolding keep_dimensions check_source_pixels
  decoded_dimensions cache identifier m (err e) = (cache, err e)
  decoded_dimensions cache identifier m (ok dims) =
      keep_dimensions cache identifier m dims
        (check_source_pixels (pos dims.0) (pos dims.1) h.max_source_pixels)

  -- The dimensions of a source that is not in the cache, from its bytes.
  unfoldable pub decode_dimensions :
      Faults
      → List (Bytes × CachedDimensions)
      → Bytes
      → Source × Meta
      → List (Bytes × CachedDimensions) × Result ImageError (ℕ × ℕ)
  unfolding decoded_dimensions
  decode_dimensions faults cache identifier opened =
      if not opened.0.has_name
        && (faults.temp || exceeds h.max_source_bytes (length opened.0.bytes))
      then (cache, err ImageError.failed)
      else if faults.acquire
      then (cache, err ImageError.busy)
      else decoded_dimensions cache identifier opened.1 (h.load opened.0.bytes)

  abbrev pub dimensions_of : Option CachedDimensions → ℕ × ℕ
  dimensions_of none = (0, 0)
  dimensions_of (some entry) = (entry.width, entry.height)

  unfoldable pub opened_dimensions :
      Faults
      → List (Bytes × CachedDimensions)
      → Bytes
      → Result OpenError (Source × Meta)
      → List (Bytes × CachedDimensions) × Result ImageError (ℕ × ℕ)
  unfolding decode_dimensions find_dimensions
  opened_dimensions faults cache identifier (err e) = (cache, err (ImageError.source_error e))
  opened_dimensions faults cache identifier (ok opened) =
      let m = opened.1 in
      let cached = find_dimensions cache identifier in
      let cacheable = ltb 0 m.size || not (m.mod_time == 0) in
      if exceeds h.max_source_bytes m.size
      then (cache, err ImageError.failed)
      else if h.info_cache_enabled && cacheable && is_current m cached
      then (cache, ok (dimensions_of cached))
      else decode_dimensions faults cache identifier opened

  -- `imageDimensions`.
  unfoldable pub image_dimensions :
      Faults → State World Stored → Bytes → State World Stored × Result ImageError (ℕ × ℕ)
  unfolding opened_dimensions
  image_dimensions faults s identifier =
      let (w, opened) = h.src.open_source s.world identifier in
      let (cache, answer) = opened_dimensions faults s.info_cache identifier opened in
      (record s { world = w; info_cache = cache }, answer)
