-- ===== src/Presentation/Handler/Writes.antt =====
-- When the store is written: by whom, with which body, and under which key.
use triplet.Common.{
  ℕ, ◌≡◌, refl, ◌⊎◌, inl, inr, Bool, true, false, not, ◌||◌, Result, ok, err, ltb, length, if_elim,
  [],
}
use triplet.Text.{Bytes, codes, bytes_eq}
use triplet.Text.Cut.{bytes_eq-eq}
use triplet.Http.{Request, Response, get_header}
use triplet.Presentation.Store.{Preconditions, ResourceStore}
use triplet.Presentation.Validate.{Message, Resource, validate_resource_bytes}
use triplet.Presentation.Handler.{
  Handler, Codec, field, valid_strong_if_match, put_preconditions, supported_content_type,
  request_resource, authorized_write, max_write_body_bytes,
}
use triplet.Presentation.Handler.Serve.{
  is_method, is_read, is_write, put_valid, put_body, put_if, put_resource, delete_resource,
  write_resource, serve_resource, serve_http,
}

module _ (c : Codec) (h : Handler) {State : Type 0} (store : ResourceStore State)
    (read_fails : Bool) (s : State) (now : ℕ) (r : Request) where
  -- A `Put` of the store: the body is valid, is not too long and has the id of the URL.
  pub record IsPut (key public_id : Bytes) (after : State) : Type 0 where
    pub conditions : Preconditions
    pub conditional : put_preconditions r ≡ ok conditions
    pub resource : Resource
    pub valid : validate_resource_bytes c.schemas r.body ≡ ok resource
    pub same_id : resource.id ≡ public_id
    pub fits : ltb max_write_body_bytes (length r.body) ≡ false
    pub written : after ≡ (store.put s now key r.body conditions).0

  -- A `Delete` of the store, with strong entity tags.
  pub record IsDelete (key : Bytes) (after : State) : Type 0 where
    pub strong : valid_strong_if_match (field r (codes "If-Match")) ≡ true
    pub deleted : after ≡ (store.delete s key (field r (codes "If-Match"))).0

  -- A write of the resource that the URL names.
  pub record IsWrite (after : State) : Type 0 where
    pub key : Bytes
    pub public_id : Bytes
    pub resolved : request_resource c h r ≡ ok (key, public_id)
    pub enabled : h.write_enabled ≡ true
    pub authorized : authorized_write c h r ≡ true
    pub write : IsPut key public_id after ⊎ IsDelete key after

  abbrev Put : (key public_id : Bytes) → State → Type 0
  Put key public_id after = (after ≡ s) ⊎ IsPut key public_id after

  put_valid-Put :
      (key public_id : Bytes) (conditions : Preconditions) (v : Result Message Resource)
      → put_preconditions r ≡ ok conditions
      → ltb max_write_body_bytes (length r.body) ≡ false
      → validate_resource_bytes c.schemas r.body ≡ v
      → Put key public_id (put_valid c h store s now r key public_id conditions v).0
  unfolding put_valid
  put_valid-Put key public_id conditions (err m) p f e = inl refl
  put_valid-Put key public_id conditions (ok resource) p f e =
      if_elim (λ (out : State × Response). Put key public_id out.0) (bytes_eq resource.id public_id)
        (λ same. inr (record {
          conditions = conditions;
          conditional = p;
          resource = resource;
          valid = e;
          same_id = bytes_eq-eq _ _ same;
          fits = f;
          written = refl;
        }))
        (λ other. inl refl)

  put_body-Put :
      (key public_id : Bytes) (conditions : Preconditions)
      → put_preconditions r ≡ ok conditions
      → Put key public_id (put_body c h store read_fails s now r key public_id conditions).0
  unfolding put_body
  put_body-Put key public_id conditions p =
      if_elim (λ (out : State × Response). Put key public_id out.0)
        (ltb max_write_body_bytes (length r.body)) (λ long. inl refl)
        (λ fits.
          if_elim (λ (out : State × Response). Put key public_id out.0) read_fails
            (λ fails. inl refl) (λ reads. put_valid-Put key public_id conditions _ p fits refl))

  put_if-Put :
      (key public_id : Bytes) (q : Result (ℕ × Message) Preconditions)
      → put_preconditions r ≡ q
      → Put key public_id (put_if c h store read_fails s now r key public_id q).0
  unfolding put_if
  put_if-Put key public_id (err refusal) e = inl refl
  put_if-Put key public_id (ok conditions) e = put_body-Put key public_id conditions e

  put_resource-Put :
      (key public_id : Bytes)
      → Put key public_id (put_resource c h store read_fails s now r key public_id).0
  unfolding put_resource
  put_resource-Put key public_id =
      if_elim (λ (out : State × Response). Put key public_id out.0)
        (supported_content_type c (get_header r.header (codes "Content-Type")))
        (λ json. put_if-Put key public_id _ refl) (λ other. inl refl)

  abbrev Delete : Bytes → State → Type 0
  Delete key after = (after ≡ s) ⊎ IsDelete key after

  delete_resource-Delete : (key : Bytes) → Delete key (delete_resource c h store s r key).0
  unfolding delete_resource
  delete_resource-Delete key =
      if_elim (λ (out : State × Response). Delete key out.0)
        (bytes_eq (field r (codes "If-Match")) []) (λ bare. inl refl)
        (λ given.
          if_elim (λ (out : State × Response). Delete key out.0)
            (valid_strong_if_match (field r (codes "If-Match")))
            (λ strong. inr (record { strong = strong; deleted = refl })) (λ weak. inl refl))

  abbrev Write : State → Type 0
  Write after = (after ≡ s) ⊎ IsWrite after

  -- The write of one of the two methods, with what was tested before.
  as-IsWrite :
      {key public_id : Bytes} {after : State}
      → request_resource c h r ≡ ok (key, public_id)
      → h.write_enabled ≡ true
      → authorized_write c h r ≡ true
      → IsPut key public_id after ⊎ IsDelete key after
      → IsWrite after
  as-IsWrite {key = key} {public_id = public_id} e on known w = record {
    key = key;
    public_id = public_id;
    resolved = e;
    enabled = on;
    authorized = known;
    write = w;
  }

  write_resource-IsWrite :
      (key public_id : Bytes)
      → request_resource c h r ≡ ok (key, public_id)
      → Write (write_resource c h store read_fails s now r key public_id).0
  unfolding write_resource
  write_resource-IsWrite key public_id e =
      if_elim (λ (out : State × Response). Write out.0) (not h.write_enabled) (λ off. inl refl)
        (λ on.
          if_elim (λ (out : State × Response). Write out.0) (not (authorized_write c h r))
            (λ stranger. inl refl)
            (λ known.
              if_elim (λ (out : State × Response). Write out.0) (is_method r (codes "PUT"))
                (λ put.
                  from_put (as-IsWrite e (not_false on) (not_false known))
                    (put_resource-Put key public_id))
                (λ delete.
                  from_delete (as-IsWrite e (not_false on) (not_false known))
                    (delete_resource-Delete key))))
    where
      not_false : {b : Bool} → not b ≡ false → b ≡ true
      not_false {b = true} q = refl
      not_false {b = false} q = cc

      from_put :
          {after : State}
          → (IsPut key public_id after ⊎ IsDelete key after → IsWrite after)
          → Put key public_id after
          → Write after
      from_put k (inl same) = inl same
      from_put k (inr w) = inr (k (inl w))

      from_delete :
          {after : State}
          → (IsPut key public_id after ⊎ IsDelete key after → IsWrite after)
          → Delete key after
          → Write after
      from_delete k (inl same) = inl same
      from_delete k (inr w) = inr (k (inr w))

  serve_resource-IsWrite :
      (q : Result Message (Bytes × Bytes))
      → request_resource c h r ≡ q
      → Write (serve_resource c h store read_fails s now r q).0
  unfolding serve_resource
  serve_resource-IsWrite (err m) e = inl refl
  serve_resource-IsWrite (ok (key, public_id)) e =
      if_elim (λ (out : State × Response). Write out.0) (is_read r) (λ reads. inl refl)
        (λ writes. write_resource-IsWrite key public_id e)

  -- A request leaves the store as it is, or writes are enabled, the request has the token, and the
  -- store has done the write of the key that the URL names: a `Put` under the conditions of the
  -- request of a body that is at most 8 MiB, valid, and has the URL as its id, or a `Delete` under
  -- strong entity tags.
  pub serve_http-IsWrite :
      let after = (serve_http c h store read_fails s now r).0 in (after ≡ s) ⊎ IsWrite after
  unfolding serve_http
  serve_http-IsWrite =
      if_elim (λ (out : State × Response). Write out.0) (is_method r (codes "OPTIONS"))
        (λ options. inl refl)
        (λ other.
          if_elim (λ (out : State × Response). Write out.0) (not (is_read r || is_write r))
            (λ unknown. inl refl) (λ known. serve_resource-IsWrite _ refl))
