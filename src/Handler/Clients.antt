-- ===== src/Handler/Clients.antt =====
-- Who may invalidate the cache, and of what (internal/iiif/image/v3/handler/handler.go). Addresses and
-- networks are parameters.
use triplet.Common.{
  ◌-◌, Bool, true, false, ◌&&◌, ◌||◌, not, Option, none, some, Result, ok, err, List, [], ◌∷◌, ◌++◌,
  leb, length, take, drop, if◌then◌else◌,
}
use triplet.Text.{Bytes, codes, bytes_eq, contains_any, cut, trim_prefix, trim_space, path_unescape}
use triplet.Http
use triplet.Http.{get_header, bearer_token}

-- `net.ParseIP`, the host of `net.SplitHostPort`, and `IPNet.Contains`.
pub record Net (Ip Network : Type 0) : Type 0 where
  pub parse_ip : Bytes → Option Ip
  pub split_host : Bytes → Option Bytes
  pub contains_ip : Network → Ip → Bool

-- `strings.CutSuffix`.
unfoldable pub cut_suffix : Bytes → Bytes → Option Bytes
cut_suffix s suffix =
    let at = length s - length suffix in
    if leb (length suffix) (length s) && bytes_eq (drop at s) suffix then some (take at s) else none

-- `unescape_text` is the text of the error of `url.PathUnescape`.
unfoldable pub identifier_of : Http.Message → Option Bytes → Result Http.Message Bytes
identifier_of unescape_text none = err (codes "identifier: " ++ unescape_text)
identifier_of unescape_text (some identifier) =
    if contains_any identifier (0 ∷ b'\n' ∷ b'\r' ∷ [])
    then err (codes "identifier contains illegal control character")
    else ok identifier

unfoldable pub invalidated_of :
    (Bytes → Http.Message) → Option Bytes → Option (Result Http.Message Bytes)
unfolding identifier_of
invalidated_of unescape_text none = none
invalidated_of unescape_text (some front) =
    let raw = trim_prefix front (codes "/") in
    some (
      if bytes_eq raw []
      then err (codes "empty identifier")
      else identifier_of (unescape_text raw) (path_unescape raw))

-- `cacheInvalidationIdentifier`; `none` is a path that asks for something else.
unfoldable pub cache_invalidation_identifier :
    (Bytes → Http.Message) → (prefix path : Bytes) → Option (Result Http.Message Bytes)
unfolding cut_suffix invalidated_of
cache_invalidation_identifier unescape_text prefix path =
    let rest = trim_prefix path prefix in
    if bytes_eq rest path
    then none
    else invalidated_of unescape_text (cut_suffix rest (codes "/cache/invalidate"))

-- `authorizedInvalidation`, on a comparison in constant time.
unfoldable pub authorized_invalidation : (token : Bytes) → Http.Request → Bool
unfolding bearer_token
authorized_invalidation token r =
    not (bytes_eq (bearer_token r) []) && not (bytes_eq token []) && bytes_eq (bearer_token r) token

module _ {Ip Network : Type 0} (net : Net Ip Network) where
  unfoldable pub in_networks : Ip → List Network → Bool
  in_networks ip [] = false
  in_networks ip (n ∷ ns) = net.contains_ip n ip || in_networks ip ns

  -- `ipInCIDRs`.
  unfoldable pub ip_in_networks : Option Ip → List Network → Bool
  unfolding in_networks
  ip_in_networks none networks = false
  ip_in_networks (some ip) networks = in_networks ip networks

  unfoldable pub or_host : Bytes → Option Bytes → Bytes
  or_host remote_addr none = remote_addr
  or_host remote_addr (some host) = host

  -- `remoteIP`.
  unfoldable pub remote_ip : Bytes → Option Ip
  unfolding or_host
  remote_ip remote_addr =
      net.parse_ip (trim_space (or_host remote_addr (net.split_host remote_addr)))

  unfoldable pub first_of : Option Ip → Option Ip → Option Ip
  first_of none other = other
  first_of (some ip) other = some ip

  abbrev pub before_comma : Bytes → Option (Bytes × Bytes) → Bytes
  before_comma whole none = whole
  before_comma whole (some parts) = parts.0

  -- The address that a trusted proxy names.
  unfoldable pub forwarded_ip : Http.Request → Option Ip → Option Ip
  unfolding first_of
  forwarded_ip r remote =
      let xff = get_header r.header (codes "X-Forwarded-For") in
      let named = net.parse_ip (trim_space (before_comma xff (cut xff b','))) in
      let real = net.parse_ip (trim_space (get_header r.header (codes "X-Real-Ip"))) in
      first_of (if bytes_eq xff [] then none else named) (first_of real remote)

  -- `requestClientIP`.
  unfoldable pub request_client_ip : Http.Request → List Network → Option Ip
  unfolding remote_ip ip_in_networks forwarded_ip
  request_client_ip r trusted_proxies =
      let remote = remote_ip r.remote_addr in
      if ip_in_networks remote trusted_proxies then forwarded_ip r remote else remote

  abbrev pub is_empty : List Network → Bool
  is_empty [] = true
  is_empty (n ∷ ns) = false

  -- `clientAllowedToInvalidate`.
  unfoldable pub client_allowed : Http.Request → (networks trusted_proxies : List Network) → Bool
  unfolding request_client_ip ip_in_networks
  client_allowed r networks trusted_proxies =
      is_empty networks || ip_in_networks (request_client_ip r trusted_proxies) networks
