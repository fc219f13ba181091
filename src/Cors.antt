-- ===== src/Cors.antt =====
-- internal/cors/cors.go: the headers that let a browser read a response.
pub mod Origins
pub mod Tests
use triplet.Common.{ℕ, Bool, true, false, ◌&&◌, ◌||◌, not, List, [], ◌∷◌, ◌++◌, if◌then◌else◌}
use triplet.Http.{Header, set_header, add_header}
use triplet.Text.{Bytes, codes, bytes_eq, trim_space}

pub record Policy : Type 0 where
  pub allowed_origins : List Bytes
  pub expose_headers : Bytes

abbrev pub allow_origin : Bytes
allow_origin = codes "Access-Control-Allow-Origin"

-- An entry of the list that is the text, without the space around it.
unfoldable pub lists : List Bytes → Bytes → Bool
lists [] text = false
lists (allowed ∷ rest) text = bytes_eq (trim_space allowed) text || lists rest text

-- `allowsAnyOrigin`.
unfoldable pub allows_any_origin : Policy → Bool
unfolding lists
allows_any_origin p = lists p.allowed_origins (codes "*")

-- `originAllowed`.
unfoldable pub origin_allowed : Policy → Bytes → Bool
unfolding allows_any_origin lists
origin_allowed p origin = allows_any_origin p || lists p.allowed_origins origin

-- The headers for an origin that is allowed.
unfoldable pub allow_headers : Policy → Bytes → Header → Header
unfolding allows_any_origin set_header add_header
allow_headers p origin h =
    if allows_any_origin p
    then set_header h allow_origin (codes "*")
    else add_header (set_header h allow_origin origin) (codes "Vary") (codes "Origin")

unfoldable pub expose : Policy → Header → Header
unfolding set_header
expose p h =
    if bytes_eq p.expose_headers []
    then h
    else set_header h (codes "Access-Control-Expose-Headers") p.expose_headers

unfoldable pub is_empty : List Bytes → Bool
is_empty [] = true
is_empty (x ∷ xs) = false

-- `SetHeaders`, for the `Origin` of a request.
unfoldable pub set_headers : Policy → Bytes → Header → Header
unfolding origin_allowed allow_headers expose is_empty
set_headers p origin h =
    if bytes_eq origin [] || is_empty p.allowed_origins
    then h
    else if origin_allowed p origin
    then expose p (allow_headers p origin h)
    else h
