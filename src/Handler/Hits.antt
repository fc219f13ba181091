-- ===== src/Handler/Hits.antt =====
-- A derivative that was made is served again from the cache.
use triplet.Common.{ℕ, ◌≡◌, Bool, true, false, ok, [], length}
use triplet.Text.{Bytes, codes, bytes_eq}
use triplet.Http
use triplet.Parse.Types.{Request}
use triplet.Storage.{Meta}
use triplet.Handler.Derivatives.{
  versioned_key, derivative_etag, if_none_match_matches, content_type_for_format,
}
use triplet.Handler.Images.{Handler, Codec, Faults, Derivative}
use triplet.Handler.Responses.{or_type}

abbrev pub no_faults : Faults
no_faults = record {
  temp = false;
  acquire = false;
  seek_end = false;
  rewind = false;
  rewind_again = false;
}

module _ {Float World Stored Ip Network : Type 0} (c : Codec Float)
    (h : Handler Float World Stored Ip Network) where
  -- What a store promises of a `Put` that ends well, and of a `Get` at a later time at which it still
  -- keeps the entry.
  abbrev pub Reads : (now later : ℕ) → Type 0
  Reads now later =
      (st : Stored) (key t v : Bytes)
      → (h.derivative_cache.put st now key t v).1 ≡ true
      → h.derivative_cache.get (h.derivative_cache.put st now key t v).0 later key
        ≡ ok (v, record { content_type = t; size = length v; stored_at = now })

  -- A GET of an image whose source has a version, in a handler without invalidation, that names
  -- another tag.
  pub record IsGet (r : Http.Request) (req : Request Float) (m : Meta) (key : Bytes) : Type 0 where
    pub no_head : bytes_eq r.method (codes "HEAD") ≡ false
    pub no_token : bytes_eq h.invalidation_token [] ≡ true
    pub cacheable : (versioned_key c.floats c.unix_nano req m).1 ≡ true
    pub named : (versioned_key c.floats c.unix_nano req m).0 ≡ key
    pub other_tag :
        if_none_match_matches (r.header (codes "If-None-Match")) (derivative_etag c.sha256_hex key)
        ≡ false

  -- What is put into the cache.
  abbrev put_of : Stored → ℕ → Bytes → Request Float → Derivative → Stored × Bool
  put_of st now key req d =
      h.derivative_cache.put st now key
        (or_type c h (content_type_for_format req.format) d.content_type) d.body
