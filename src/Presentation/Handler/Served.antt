-- ===== src/Presentation/Handler/Served.antt =====
-- What a `GET` answers after a `PUT`.
use triplet.Common.{
  ℕ, ◌≡◌, refl, ap, ◌∙◌, ◌⊎◌, Bool, true, false, not, ◌||◌, ◌&&◌, none, Result, ok, err, [], arith,
  ltb, ◌==◌, length, if_elim,
}
use triplet.Text.{Bytes, codes, bytes_eq}
use triplet.Http.{Request, Response, get_header}
use triplet.Presentation.Store.{StoreError, Document, Preconditions, ResourceStore, document_etag}
use triplet.Presentation.Validate.{Message, Resource, validate_resource_bytes}
use triplet.Presentation.Handler.{
  Handler, Codec, field, put_preconditions, supported_content_type, request_resource,
  authorized_write, request_not_modified, not_modified_since, write_error, max_write_body_bytes,
  write_method_not_allowed,
}
use triplet.Presentation.Handler.Serve.{
  is_method, is_read, is_write, put_answer, put_valid, put_body, put_if, put_resource,
  write_resource, serve_resource, serve_http, get_resource, serve_valid, serve_document,
}

module _ (c : Codec) (h : Handler) {State : Type 0} (store : ResourceStore State) where
  -- What a store promises of a `Put` that ends well.
  abbrev pub Reads : Type 0
  Reads =
      (s : State) (now : ℕ) (key body : Bytes) (conditions : Preconditions) (created : Bool)
      → (store.put s now key body conditions).1 ≡ ok created
      → store.get (store.put s now key body conditions).0 key
        ≡ ok (record { body = body; modified_at = now })

  -- The statuses of a write that is done.
  abbrev pub IsDone : Response → Type 0
  IsDone answer = (answer.status ≡ 201) ⊎ (answer.status ≡ 204)

  module _ (s : State) (now : ℕ) (r : Request) where
    record IsStored (key public_id : Bytes) (after : State × Response) : Type 0 where
      conditions : Preconditions
      resource : Resource
      valid : validate_resource_bytes c.schemas r.body ≡ ok resource
      same_id : bytes_eq resource.id public_id ≡ true
      created : Bool
      put_done : (store.put s now key r.body conditions).1 ≡ ok created
      written : after.0 ≡ (store.put s now key r.body conditions).0

    put_answer-IsDone :
        (public_id body : Bytes) (q : Result StoreError Bool)
        → IsDone (put_answer c h r public_id body q)
        → (created : Bool) × (q ≡ ok created)
    unfolding put_answer
    put_answer-IsDone public_id body (ok created) d = (created, refl)
    put_answer-IsDone public_id body (err StoreError.not_found) d = absurd (ground arith)
    put_answer-IsDone public_id body (err StoreError.precondition_failed) d = absurd (ground arith)
    put_answer-IsDone public_id body (err StoreError.failed) d = absurd (ground arith)

    abbrev Stores : (key public_id : Bytes) → State × Response → Type 0
    Stores key public_id out = IsDone out.1 → IsStored key public_id out

    put_valid-Stores :
        (key public_id : Bytes) (conditions : Preconditions) (v : Result Message Resource)
        → validate_resource_bytes c.schemas r.body ≡ v
        → Stores key public_id (put_valid c h store s now r key public_id conditions v)
    unfolding put_valid write_error
    put_valid-Stores key public_id conditions (err m) e = λ d. absurd (ground arith)
    put_valid-Stores key public_id conditions (ok resource) e =
        if_elim (Stores key public_id) (bytes_eq resource.id public_id)
          (λ same d.
            let (created, done) = put_answer-IsDone public_id r.body _ d in
            record {
              conditions = conditions;
              resource = resource;
              valid = e;
              same_id = same;
              created = created;
              put_done = done;
              written = refl;
            })
          (λ other d. absurd (ground arith))

    put_body-Stores :
        (read_fails : Bool) (key public_id : Bytes) (conditions : Preconditions)
        → Stores key public_id (put_body c h store read_fails s now r key public_id conditions)
    unfolding put_body write_error
    put_body-Stores read_fails key public_id conditions =
        if_elim (Stores key public_id) (ltb max_write_body_bytes (length r.body))
          (λ long d. absurd (ground arith))
          (λ fits.
            if_elim (Stores key public_id) read_fails (λ fails d. absurd (ground arith))
              (λ reads. put_valid-Stores key public_id conditions _ refl))

    -- The refusals of the conditions are no status of a write that is done.
    refusal-ne-done :
        (refusal : ℕ × Message)
        → put_preconditions r ≡ err refusal
        → ¬ ((refusal.0 ≡ 201) ⊎ (refusal.0 ≡ 204))
    unfolding put_preconditions
    refusal-ne-done refusal e d = ground arith

    put_if-Stores :
        (read_fails : Bool) (key public_id : Bytes) (q : Result (ℕ × Message) Preconditions)
        → put_preconditions r ≡ q
        → Stores key public_id (put_if c h store read_fails s now r key public_id q)
    unfolding put_if write_error
    put_if-Stores read_fails key public_id (err refusal) e =
        λ d. absurd (refusal-ne-done refusal e d)
    put_if-Stores read_fails key public_id (ok conditions) e =
        put_body-Stores read_fails key public_id conditions

    put_resource-Stores :
        (read_fails : Bool) (key public_id : Bytes)
        → Stores key public_id (put_resource c h store read_fails s now r key public_id)
    unfolding put_resource write_error
    put_resource-Stores read_fails key public_id =
        if_elim (Stores key public_id)
          (supported_content_type c (get_header r.header (codes "Content-Type")))
          (λ json. put_if-Stores read_fails key public_id _ refl) (λ other d. absurd (ground arith))

    -- The tests on the method of a `PUT`.
    put_tests :
        r.method ≡ codes "PUT"
        → (is_method r (codes "OPTIONS") ≡ false)
          × (is_read r ≡ false)
          × (is_write r ≡ true)
          × (is_method r (codes "PUT") ≡ true)
    unfolding bytes_eq
    put_tests put = (
      ap (λ m. bytes_eq m (codes "OPTIONS")) put,
      ap (λ m. bytes_eq m (codes "GET") || bytes_eq m (codes "HEAD")) put,
      ap (λ m. bytes_eq m (codes "PUT") || bytes_eq m (codes "DELETE")) put,
      ap (λ m. bytes_eq m (codes "PUT")) put,
    )

    write_resource-Stores :
        (read_fails : Bool) (key public_id : Bytes)
        → is_method r (codes "PUT") ≡ true
        → Stores key public_id (write_resource c h store read_fails s now r key public_id)
    unfolding write_resource write_method_not_allowed write_error
    write_resource-Stores read_fails key public_id put =
        if_elim (Stores key public_id) (not h.write_enabled) (λ off d. absurd (ground arith))
          (λ on.
            if_elim (Stores key public_id) (not (authorized_write c h r))
              (λ stranger d. absurd (ground arith))
              (λ known. rw put (put_resource-Stores read_fails key public_id)))

    serve_put :
        (read_fails : Bool) {key public_id : Bytes}
        → r.method ≡ codes "PUT"
        → request_resource c h r ≡ ok (key, public_id)
        → Stores key public_id (serve_http c h store read_fails s now r)
    unfolding serve_http serve_resource
    serve_put read_fails {key = key} {public_id = public_id} put e =
        let (options, read, write, is_put) = put_tests put in
        rw (options, read, write, e, read) (write_resource-Stores read_fails key public_id is_put)

  get_tests :
      (r : Request)
      → r.method ≡ codes "GET"
      → (is_method r (codes "OPTIONS") ≡ false)
        × (is_method r (codes "GET") ≡ true)
        × (is_method r (codes "HEAD") ≡ false)
  unfolding bytes_eq
  get_tests r get = (
    ap (λ m. bytes_eq m (codes "OPTIONS")) get,
    ap (λ m. bytes_eq m (codes "GET")) get,
    ap (λ m. bytes_eq m (codes "HEAD")) get,
  )

  -- A valid document whose id is that of the URL is served byte for byte.
  serve_get :
      (read_fails : Bool) (s : State) (now : ℕ) (r : Request) (doc : Document) (resource : Resource)
      {key public_id : Bytes}
      → r.method ≡ codes "GET"
      → request_resource c h r ≡ ok (key, public_id)
      → store.get s key ≡ ok doc
      → validate_resource_bytes c.schemas doc.body ≡ ok resource
      → bytes_eq resource.id public_id ≡ true
      → request_not_modified c r (document_etag c.sha256_hex doc.body) doc.modified_at ≡ false
      → ((serve_http c h store read_fails s now r).1.status ≡ 200)
        × ((serve_http c h store read_fails s now r).1.body ≡ doc.body)
  unfolding serve_http serve_resource get_resource serve_valid serve_document
  serve_get read_fails s now r doc resource get e found valid same fresh =
      let (options, is_get, head) = get_tests r get in
      rw (options, is_get, e, is_get, found, get_resource, valid, serve_valid, same, fresh, head)
        (refl, refl)

  -- A request that names no tag and no time is never answered with 304.
  fresh :
      (r : Request) (etag : Bytes) (t : ℕ)
      → field r (codes "If-None-Match") ≡ []
      → c.parse_time (get_header r.header (codes "If-Modified-Since")) ≡ none
      → request_not_modified c r etag t ≡ false
  unfolding request_not_modified bytes_eq
  fresh r etag t no_tag no_time = rw (no_tag, no_time, not_modified_since) (zero_or (t == 0))
    where
      zero_or : (b : Bool) → (not b && false) ≡ false
      zero_or true = refl
      zero_or false = refl

  -- After a `PUT` that is answered with 201 or 204, a `GET` of the same URL that names no tag and no
  -- time of its own is answered with 200 and exactly the bytes of the body of the `PUT`.
  pub get-after_put :
      Reads
      → (read_fails read_fails' : Bool) (s : State) (now later : ℕ) (r read : Request)
      → {key public_id : Bytes} → r.method ≡ codes "PUT"
      → read.method ≡ codes "GET"
      → request_resource c h r ≡ ok (key, public_id)
      → request_resource c h read ≡ ok (key, public_id)
      → field read (codes "If-None-Match") ≡ []
      → c.parse_time (get_header read.header (codes "If-Modified-Since")) ≡ none
      → IsDone (serve_http c h store read_fails s now r).1
      → let after = (serve_http c h store read_fails s now r).0 in
        let answer = (serve_http c h store read_fails' after later read).1 in
        (answer.status ≡ 200) × (answer.body ≡ r.body)
  get-after_put reads read_fails read_fails' s now later r read {key = key} put get e d no_tag
        no_time done =
      let stored = serve_put s now r read_fails put e done in
      serve_get read_fails' _ later read (record { body = r.body; modified_at = now })
        stored.resource get d
        (ap (λ st. store.get st key) stored.written
          ∙ reads s now key r.body stored.conditions stored.created stored.put_done)
        stored.valid stored.same_id
        (fresh read (document_etag c.sha256_hex r.body) now no_tag no_time)
