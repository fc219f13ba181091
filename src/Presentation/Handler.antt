-- ===== src/Presentation/Handler.antt =====
-- internal/iiif/presentation/v3/handler/handler.go: documents over HTTP. The store is an interface;
-- the log is left out. A handler takes the state of the store, the time and a request.
pub mod Serve
pub mod Canonical
pub mod Writes
pub mod Served
pub mod Tests
use triplet.Common.{
  ℕ, ◌*◌, ◌/◌, ◌^◌, ◌-◌, ◌==◌, take, drop, Bool, true, false, ◌&&◌, ◌||◌, not, Option, none, some,
  Result, ok, err, ◌>>=◌, List, [], ◌∷◌, ◌++◌, map, ltb, leb, length, if◌then◌else◌,
}
use triplet.Common.Int.{pos}
use triplet.Text.{
  Bytes, codes, bytes_eq, contains, contains_any, has_prefix, trim_prefix, split, join, lower,
  trim_space, itoa, path_escape,
}
use triplet.Http.{Header, Request, Response, set_header, get_header, no_header, bearer_token}
use triplet.Cors.{Policy, set_headers}
use triplet.Presentation.Store.{
  StoreError, Document, Preconditions, ResourceStore, document_etag, max_resource_key_bytes,
}
use triplet.Presentation.Validate.{Message, Resource, Schemas, validate_resource_bytes}

-- `Handler`, as `New` makes it.
pub record Handler : Type 0 where
  pub prefix : Bytes
  pub public_base_url : Bytes
  pub cors : Policy
  pub write_enabled : Bool
  pub write_token : Bytes

-- SHA-256 in hex, the JSON of an error, `mime.ParseMediaType`, `utf8.ValidString`, the texts of
-- times, and `EscapedPath` of a path.
pub record Codec : Type 0 where
  pub sha256_hex : Bytes → Bytes
  pub error_json : Message → Bytes
  pub media_type : Bytes → Option Bytes
  pub valid_utf8 : Bytes → Bool
  pub format_time : ℕ → Bytes
  pub parse_time : Bytes → Option ℕ
  pub escape_path : Bytes → Bytes
  pub schemas : Schemas

abbrev pub max_write_body_bytes : ℕ
max_write_body_bytes = 8 * 2 ^ 20

abbrev pub document_media_type : Bytes
document_media_type =
    codes "application/ld+json;profile=\"http://iiif.io/api/presentation/3/context.json\""

abbrev pub invalid_path : Message
invalid_path = codes "invalid presentation resource path"

-- What a header field holds, without the space around it.
abbrev pub field : Request → Bytes → Bytes
field r name = trim_space (get_header r.header name)

-- The test on a candidate: quoted, with no quote and no line break between.
unfoldable pub valid_strong_tag : Bytes → Bool
valid_strong_tag t =
    leb 2 (length t)
    && bytes_eq (take 1 t) (b'"' ∷ [])
    && bytes_eq (drop (length t - 1) t) (b'"' ∷ [])
    && not (has_prefix t (codes "W/"))
    && not (contains_any (take (length t - 2) (drop 1 t)) (b'"' ∷ b'\r' ∷ b'\n' ∷ []))

unfoldable pub all_strong : List Bytes → Bool
unfolding valid_strong_tag
all_strong [] = true
all_strong (candidate ∷ rest) = valid_strong_tag (trim_space candidate) && all_strong rest

-- `validStrongIfMatch`.
unfoldable pub valid_strong_if_match : Bytes → Bool
unfolding all_strong
valid_strong_if_match value =
    let text = trim_space value in
    bytes_eq text (codes "*") || not (bytes_eq text []) && all_strong (split text b',')

-- `putPreconditions`: the status and the message of an error.
unfoldable pub put_preconditions : Request → Result (ℕ × Message) Preconditions
unfolding valid_strong_if_match
put_preconditions r =
    let if_match = field r (codes "If-Match") in
    let if_none_match = field r (codes "If-None-Match") in
    if bytes_eq if_match [] && bytes_eq if_none_match []
    then err
        (428, codes "If-None-Match: * is required to create, or If-Match is required to replace")
    else if not (bytes_eq if_match []) && not (bytes_eq if_none_match [])
    then err (400, codes "If-Match and If-None-Match cannot be combined")
    else if not (bytes_eq if_none_match []) && not (bytes_eq if_none_match (codes "*"))
    then err (400, codes "If-None-Match must be * for a conditional create")
    else if not (bytes_eq if_match []) && not (valid_strong_if_match if_match)
    then err (400, codes "If-Match must contain strong entity tags or *")
    else ok (record { if_match = if_match; if_none_match = if_none_match })

unfoldable pub names_tag : List Bytes → Bytes → Bool
names_tag [] etag = false
names_tag (candidate ∷ rest) etag =
    let text = trim_space candidate in
    bytes_eq text (codes "*")
    || bytes_eq (trim_prefix text (codes "W/")) etag
    || names_tag rest etag

-- `Truncate(time.Second)`, in nanoseconds.
abbrev pub to_second : ℕ → ℕ
to_second t = t / 10 ^ 9 * 10 ^ 9

unfoldable pub not_modified_since : Option ℕ → ℕ → Bool
not_modified_since none modified_at = false
not_modified_since (some since) modified_at = leb (to_second modified_at) since

-- The segments, each escaped, as a path.
unfoldable pub canonical_key : List Bytes → Bytes
canonical_key segments = join (map path_escape segments) b'/'

module _ (c : Codec) where
  -- `requestNotModified`.
  unfoldable pub request_not_modified : Request → Bytes → ℕ → Bool
  unfolding names_tag not_modified_since
  request_not_modified r etag modified_at =
      let if_none_match = field r (codes "If-None-Match") in
      if not (bytes_eq if_none_match [])
      then names_tag (split if_none_match b',') etag
      else not (modified_at == 0)
        && not_modified_since (c.parse_time (get_header r.header (codes "If-Modified-Since")))
            modified_at

  unfoldable pub is_json_type : Option Bytes → Bool
  is_json_type none = false
  is_json_type (some media) =
      bytes_eq media (codes "application/json") || bytes_eq media (codes "application/ld+json")

  -- `supportedContentType`.
  unfoldable pub supported_content_type : Bytes → Bool
  unfolding is_json_type
  supported_content_type value = is_json_type (c.media_type value)

  -- The names that the loop over the segments refuses.
  unfoldable pub is_plain_segment : Bytes → Bool
  is_plain_segment segment =
      not (bytes_eq segment [])
      && not (bytes_eq segment (codes "."))
      && not (bytes_eq segment (codes ".."))
      && c.valid_utf8 segment
      && not (contains_any segment (b'\\' ∷ 0 ∷ b'\n' ∷ b'\r' ∷ []))

  unfoldable pub all_plain : List Bytes → Bool
  unfolding is_plain_segment
  all_plain [] = true
  all_plain (segment ∷ rest) = is_plain_segment segment && all_plain rest

  -- The key of the rest of a path, escaped and decoded.
  unfoldable pub resource_key : (escaped_rest decoded_rest : Bytes) → Result Message Bytes
  unfolding all_plain canonical_key
  resource_key escaped_rest decoded_rest =
      let lowered = map lower escaped_rest in
      let segments = split decoded_rest b'/' in
      let key = canonical_key segments in
      if bytes_eq escaped_rest []
        || bytes_eq decoded_rest []
        || contains lowered (codes "%2f")
        || contains lowered (codes "%5c")
      then err invalid_path
      else if not (all_plain segments)
      then err invalid_path
      else if not (bytes_eq key escaped_rest) || ltb max_resource_key_bytes (length key)
      then err (codes "presentation resource path is not canonically escaped or is too long")
      else ok key

  -- `requestResource`: the key, and the id under which it is public.
  unfoldable pub request_resource : Handler → Request → Result Message (Bytes × Bytes)
  unfolding resource_key
  request_resource h r =
      let escaped_prefix = c.escape_path h.prefix ++ b'/' ∷ [] in
      let key =
        resource_key (trim_prefix r.escaped_path escaped_prefix)
          (trim_prefix r.path (h.prefix ++ b'/' ∷ [])) in
      if not (bytes_eq r.raw_query [])
      then err (codes "presentation resource URLs must not contain a query")
      else if not (has_prefix r.escaped_path escaped_prefix)
      then err invalid_path
      else key >>= λ k. ok (k, h.public_base_url ++ h.prefix ++ b'/' ∷ k)

  -- `authorizedWrite`, on the digests.
  unfoldable pub authorized_write : Handler → Request → Bool
  unfolding bearer_token
  authorized_write h r =
      let token = bearer_token r in
      not (bytes_eq token [])
      && not (bytes_eq h.write_token [])
      && bytes_eq (c.sha256_hex token) (c.sha256_hex h.write_token)

  -- `writeCORS`.
  unfoldable pub write_cors : Handler → Request → Header → Header
  unfolding set_headers
  write_cors h r header = set_headers h.cors (get_header r.header (codes "Origin")) header

  -- `writeError`.
  unfoldable pub write_error : Handler → Request → Header → ℕ → Message → Response
  unfolding write_cors
  write_error h r header status message = record {
    status = status;
    header = set_header (write_cors h r header) (codes "Content-Type") (codes "application/json");
    body = if bytes_eq r.method (codes "HEAD") then [] else c.error_json message;
  }

  abbrev pub methods : Handler → Bytes
  methods h =
      if h.write_enabled
      then codes "GET, HEAD, PUT, DELETE, OPTIONS"
      else codes "GET, HEAD, OPTIONS"

  -- `writeOptions`.
  unfoldable pub write_options : Handler → Request → Response
  unfolding write_cors
  write_options h r =
      let headers =
        if h.write_enabled
        then codes "Authorization, Content-Type, If-Match, If-None-Match"
        else codes "Content-Type, If-None-Match" in
      let allowed =
        set_header (write_cors h r no_header) (codes "Access-Control-Allow-Headers") headers in
      let named = set_header allowed (codes "Access-Control-Allow-Methods") (methods h) in
      record { status = 204; header = set_header named (codes "Allow") (methods h); body = [] }

  -- `writeMethodNotAllowed`.
  unfoldable pub write_method_not_allowed : Handler → Request → Response
  unfolding write_error
  write_method_not_allowed h r =
      write_error h r (set_header no_header (codes "Allow") (methods h)) 405
        (codes "method not allowed")
