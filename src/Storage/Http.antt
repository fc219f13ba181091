-- ===== src/Storage/Http.antt =====
-- internal/storage/http.go: identifiers as URLs of allowed origins, and a reader that fetches ranges.
-- `url.Parse`, the times of headers and the server are parameters; a reader of a whole response
-- stands for its bytes.
pub mod Ranges
pub mod Reader
pub mod Redirects
use triplet.Common.{
  ℕ, ◌+◌, ◌-◌, Bool, true, false, ◌&&◌, ◌||◌, not, Option, none, some, Result, ok, err, List, [],
  ◌∷◌, ◌++◌, map, ltb, leb, ◌==◌, length, take, if◌then◌else◌,
}
use triplet.Common.Int.{ℤ, pos, negsuc, ltb_ℤ}
use triplet.Text.{Bytes, codes, bytes_eq, trim_space, trim_prefix, has_prefix, lower, atoi, itoa}
use triplet.Http.{no_header, Header, get_header, set_header}
use triplet.Storage.{Meta, OpenError}

pub record Url : Type 0 where
  pub scheme : Bytes
  pub host : Bytes
  pub has_user : Bool
  pub text : Bytes

-- An answer of the server.
pub record Answer : Type 0 where
  pub status : ℕ
  pub header : Header
  pub body : Bytes
  pub content_length : ℤ

pub record HttpOpener : Type 0 where
  pub allowed_origins : List Bytes
  pub max_bytes : ℤ
  pub user_agent : Bytes
  pub forward_auth_headers : Bool

-- `url.Parse`, `http.ParseTime`, and what a request of a method with a header is answered; `none`
-- is an error of the transport.
pub record Upstream : Type 0 where
  pub parse_url : Bytes → Option Url
  pub parse_time : Bytes → Option ℕ
  pub send : (method target : Bytes) → Header → Option Answer

-- `urlOrigin`.
unfoldable pub url_origin : Url → Bytes
url_origin u = map lower u.scheme ++ codes "://" ++ map lower u.host

-- `strings.EqualFold` on ASCII.
abbrev pub equal_fold : Bytes → Bytes → Bool
equal_fold s t = bytes_eq (map lower s) (map lower t)

unfoldable pub lists_origin : List Bytes → Bytes → Bool
lists_origin [] origin = false
lists_origin (allowed ∷ rest) origin =
    equal_fold (trim_space allowed) origin || lists_origin rest origin

-- `originAllowed`; an empty list allows nothing.
unfoldable pub origin_allowed : HttpOpener → Url → Bool
unfolding lists_origin url_origin
origin_allowed h u = lists_origin h.allowed_origins (url_origin u)

abbrev pub is_http : Url → Bool
is_http u = bytes_eq u.scheme (codes "http") || bytes_eq u.scheme (codes "https")

-- The tests of `parseTarget` on a URL.
unfoldable pub check_target : HttpOpener → Option Url → Result OpenError Url
unfolding origin_allowed
check_target h none = err OpenError.not_found
check_target h (some u) =
    if not (is_http u) || u.has_user || not (origin_allowed h u)
    then err OpenError.not_found
    else ok u

-- `parseTarget`.
unfoldable pub parse_target : Upstream → HttpOpener → Bytes → Result OpenError Url
unfolding check_target
parse_target up h identifier =
    if bytes_eq identifier []
    then err OpenError.not_found
    else check_target h (up.parse_url identifier)

-- How `checkRedirect` ends: the last response is used, an error, or the request with its header.
pub data Redirect : Type 0 where
  use_last refused : Redirect
  follow : Header → Redirect

unfoldable pub without : Header → Bytes → Header
without h name q = if bytes_eq q name then [] else h q

unfoldable pub scoped_header : Bytes → Header → List Url → Header
unfolding url_origin without
scoped_header origin header [] = header
scoped_header origin header (first ∷ rest) =
    if bytes_eq origin (url_origin first)
    then header
    else without (without header (codes "Authorization")) (codes "Cookie")

-- `checkRedirect`, for the requests so far, the first one first.
unfoldable pub check_redirect : HttpOpener → Url → Header → List Url → Redirect
unfolding origin_allowed scoped_header
check_redirect h u header via =
    if leb 10 (length via)
    then Redirect.use_last
    else if not (is_http u) || not (origin_allowed h u)
    then Redirect.refused
    else Redirect.follow (scoped_header (url_origin u) header via)

-- `httpVersion`.
unfoldable pub http_version : (etag last_modified : Bytes) → ℤ → Bytes
unfolding itoa trim_space
http_version etag last_modified size =
    if not (bytes_eq (trim_space etag) [])
    then codes "http:etag:" ++ trim_space etag
    else if not (bytes_eq (trim_space last_modified) [])
    then codes "http:last-modified:" ++ trim_space last_modified ++ b':' ∷ itoa size
    else []

abbrev pub or_zero : Option ℕ → ℕ
or_zero none = 0
or_zero (some t) = t

-- `httpMeta`.
unfoldable pub http_meta : Upstream → Header → ℕ → Meta
unfolding http_version
http_meta up header size = record {
  content_type = get_header header (codes "Content-Type");
  size = size;
  mod_time = or_zero (up.parse_time (get_header header (codes "Last-Modified")));
  version =
      http_version (get_header header (codes "ETag")) (get_header header (codes "Last-Modified"))
        (pos size);
}

-- The errors that a status gives.
unfoldable pub status_error : ℕ → OpenError
status_error status =
    if status == 404
    then OpenError.not_found
    else if status == 401 || status == 403
    then OpenError.forbidden
    else OpenError.failed

abbrev pub too_long : HttpOpener → ℕ → Bool
too_long h n = ltb_ℤ (pos 0) h.max_bytes && ltb_ℤ h.max_bytes (pos n)

-- The header of every request; `auth` are the credentials of the context, where they are forwarded:
-- values of `Authorization` and `Cookie`.
unfoldable pub request_header : HttpOpener → Header → Header
unfolding set_header
request_header h auth =
    let forwarded : Header = if h.forward_auth_headers then auth else λ q. [] in
    let own =
      set_header (set_header no_header (codes "User-Agent") h.user_agent) (codes "Accept")
        (codes "image/*") in
    λ name. own name ++ forwarded name
