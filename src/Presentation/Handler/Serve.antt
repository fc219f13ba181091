-- ===== src/Presentation/Handler/Serve.antt =====
-- What `ServeHTTP` does with a request: the answer, and what the store becomes.
use triplet.Common.{ℕ, Bool, ◌||◌, not, Result, ok, err, [], ◌++◌, ltb, ◌==◌, length, if◌then◌else◌}
use triplet.Common.Int.{pos}
use triplet.Text.{Bytes, codes, bytes_eq, itoa}
use triplet.Http.{Header, Request, Response, set_header, get_header, no_header}
use triplet.Presentation.Store.{StoreError, Document, Preconditions, ResourceStore, document_etag}
use triplet.Presentation.Validate.{Message, Resource, validate_resource_bytes}
use triplet.Presentation.Handler.{
  Handler, Codec, field, valid_strong_if_match, put_preconditions, request_not_modified,
  supported_content_type, request_resource, authorized_write, write_cors, write_error,
  write_options, write_method_not_allowed, max_write_body_bytes, document_media_type,
}

-- The methods of a request that have a meaning here.
abbrev pub is_method : Request → Bytes → Bool
is_method r name = bytes_eq r.method name

abbrev pub is_read : Request → Bool
is_read r = is_method r (codes "GET") || is_method r (codes "HEAD")

abbrev pub is_write : Request → Bool
is_write r = is_method r (codes "PUT") || is_method r (codes "DELETE")

module _ (c : Codec) (h : Handler) where
  -- The headers of a document.
  unfoldable pub document_header : Request → Document → Header
  unfolding write_cors
  document_header r doc =
      let named =
        set_header (write_cors c h r no_header) (codes "Content-Type") document_media_type in
      let tagged = set_header named (codes "ETag") (document_etag c.sha256_hex doc.body) in
      if doc.modified_at == 0
      then tagged
      else set_header tagged (codes "Last-Modified") (c.format_time doc.modified_at)

  -- A document that is valid and has the id of its URL.
  unfoldable pub serve_document : Request → Document → Response
  unfolding document_header request_not_modified
  serve_document r doc =
      let header = document_header r doc in
      if request_not_modified c r (document_etag c.sha256_hex doc.body) doc.modified_at
      then record { status = 304; header = header; body = [] }
      else record {
        status = 200;
        header = set_header header (codes "Content-Length") (itoa (pos (length doc.body)));
        body = if is_method r (codes "HEAD") then [] else doc.body;
      }

  unfoldable pub serve_valid : Request → Bytes → Document → Result Message Resource → Response
  unfolding serve_document write_error
  serve_valid r public_id doc (err message) =
      write_error c h r no_header 500 (codes "invalid stored presentation resource")
  serve_valid r public_id doc (ok resource) =
      if bytes_eq resource.id public_id
      then serve_document r doc
      else write_error c h r no_header 500 (codes "invalid stored presentation resource")

  -- `getResource`, at what the store answers.
  unfoldable pub get_resource : Request → Bytes → Result StoreError Document → Response
  unfolding serve_valid
  get_resource r public_id (err StoreError.not_found) =
      write_error c h r no_header 404 (codes "presentation resource not found")
  get_resource r public_id (err e) =
      write_error c h r no_header 500 (codes "failed to read presentation resource")
  get_resource r public_id (ok doc) =
      serve_valid r public_id doc (validate_resource_bytes c.schemas doc.body)

  -- The answer to a `Put` of the store.
  unfoldable pub put_answer : Request → (public_id body : Bytes) → Result StoreError Bool → Response
  unfolding write_cors write_error
  put_answer r public_id body (err StoreError.precondition_failed) =
      write_error c h r no_header 412 (codes "presentation resource precondition failed")
  put_answer r public_id body (err e) =
      write_error c h r no_header 500 (codes "failed to store presentation resource")
  put_answer r public_id body (ok created) =
      let tagged =
        set_header (write_cors c h r no_header) (codes "ETag") (document_etag c.sha256_hex body) in
      if created
      then record {
        status = 201;
        header = set_header tagged (codes "Location") public_id;
        body = [];
      }
      else record { status = 204; header = tagged; body = [] }

  -- The answer to a `Delete` of the store.
  unfoldable pub delete_answer : Request → Result StoreError (Unit {0}) → Response
  unfolding write_cors write_error
  delete_answer r (ok _) = record { status = 204; header = write_cors c h r no_header; body = [] }
  delete_answer r (err StoreError.failed) =
      write_error c h r no_header 500 (codes "failed to delete presentation resource")
  delete_answer r (err e) =
      write_error c h r no_header 412 (codes "presentation resource precondition failed")

  module _ {State : Type 0} (store : ResourceStore State) where
    -- The store is called with a body that is valid and has the id of its URL.
    unfoldable pub put_valid :
        State
        → ℕ
        → Request
        → (key public_id : Bytes) → Preconditions
        → Result Message Resource
        → State × Response
    unfolding put_answer write_error
    put_valid s now r key public_id conditions (err message) =
        (s, write_error c h r no_header 400 (codes "invalid presentation resource: " ++ message))
    put_valid s now r key public_id conditions (ok resource) =
        let after = store.put s now key r.body conditions in
        if bytes_eq resource.id public_id
        then (after.0, put_answer r public_id r.body after.1)
        else (
          s,
          write_error c h r no_header 409
              (codes "presentation resource id must exactly match its public request URL"),
        )

    -- The body, unless it is too long or reading it fails: then `r.body` is what came before.
    unfoldable pub put_body :
        Bool → State → ℕ → Request → (key public_id : Bytes) → Preconditions → State × Response
    unfolding put_valid
    put_body read_fails s now r key public_id conditions =
        if ltb max_write_body_bytes (length r.body)
        then (
          s,
          write_error c h r no_header 413 (codes "presentation resource exceeds the 8 MiB limit"),
        )
        else if read_fails
        then (s, write_error c h r no_header 400 (codes "invalid request body"))
        else put_valid s now r key public_id conditions (validate_resource_bytes c.schemas r.body)

    unfoldable pub put_if :
        Bool
        → State
        → ℕ
        → Request
        → (key public_id : Bytes) → Result (ℕ × Message) Preconditions
        → State × Response
    unfolding put_body
    put_if read_fails s now r key public_id (err refusal) =
        (s, write_error c h r no_header refusal.0 refusal.1)
    put_if read_fails s now r key public_id (ok conditions) =
        put_body read_fails s now r key public_id conditions

    -- `putResource`.
    unfoldable pub put_resource :
        Bool → State → ℕ → Request → (key public_id : Bytes) → State × Response
    unfolding put_if
    put_resource read_fails s now r key public_id =
        if supported_content_type c (get_header r.header (codes "Content-Type"))
        then put_if read_fails s now r key public_id (put_preconditions r)
        else (
          s,
          write_error c h r no_header 415
              (codes "Content-Type must be application/json or application/ld+json"),
        )

    -- `deleteResource`.
    unfoldable pub delete_resource : State → Request → Bytes → State × Response
    unfolding delete_answer
    delete_resource s r key =
        let if_match = field r (codes "If-Match") in
        let after = store.delete s key if_match in
        if bytes_eq if_match []
        then (s, write_error c h r no_header 428 (codes "If-Match is required"))
        else if valid_strong_if_match if_match
        then (after.0, delete_answer r after.1)
        else (
          s,
          write_error c h r no_header 400 (codes "If-Match must contain strong entity tags or *"),
        )

    -- The writes, once the resource of the URL is known.
    unfoldable pub write_resource :
        Bool → State → ℕ → Request → (key public_id : Bytes) → State × Response
    unfolding put_resource delete_resource write_method_not_allowed
    write_resource read_fails s now r key public_id =
        let challenge =
          set_header no_header (codes "WWW-Authenticate")
            (codes "Bearer realm=\"triplet-presentation\"") in
        if not h.write_enabled
        then (s, write_method_not_allowed c h r)
        else if not (authorized_write c h r)
        then (s, write_error c h r challenge 401 (codes "unauthorized"))
        else if is_method r (codes "PUT")
        then put_resource read_fails s now r key public_id
        else delete_resource s r key

    unfoldable pub serve_resource :
        Bool → State → ℕ → Request → Result Message (Bytes × Bytes) → State × Response
    unfolding get_resource write_resource
    serve_resource read_fails s now r (err message) = (s, write_error c h r no_header 400 message)
    serve_resource read_fails s now r (ok (key, public_id)) =
        if is_read r
        then (s, get_resource r public_id (store.get s key))
        else write_resource read_fails s now r key public_id

    -- `ServeHTTP`.
    unfoldable pub serve_http : Bool → State → ℕ → Request → State × Response
    unfolding serve_resource write_options request_resource
    serve_http read_fails s now r =
        if is_method r (codes "OPTIONS")
        then (s, write_options c h r)
        else if not (is_read r || is_write r)
        then (s, write_method_not_allowed c h r)
        else serve_resource read_fails s now r (request_resource c h r)
