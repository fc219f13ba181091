-- ===== src/Http.antt =====
-- Go's `net/http` as the handlers use it: a header is a function from canonical names to lists of
-- values, a handler is a function from a request to a response. The JSON text of an error, SHA-256
-- and the texts of times are parameters where they are used.
use triplet.Common.{ℕ, List, [], ◌∷◌, ◌++◌, map, drop, if◌then◌else◌}
use triplet.Text.{Bytes, codes, bytes_eq, has_prefix, trim_space, lower}

abbrev pub Header : Type 0
Header = Bytes → List Bytes

unfoldable pub set_header : Header → (name value : Bytes) → Header
set_header h name value q = if bytes_eq q name then value ∷ [] else h q

unfoldable pub add_header : Header → (name value : Bytes) → Header
add_header h name value q = if bytes_eq q name then h q ++ value ∷ [] else h q

abbrev pub first_value : List Bytes → Bytes
first_value [] = []
first_value (v ∷ vs) = v

-- `Header.Get(name)`: the first value, or nothing.
abbrev pub get_header : Header → Bytes → Bytes
get_header h name = first_value (h name)

abbrev pub no_header : Header
no_header q = []

-- `escaped_path` is what `URL.EscapedPath()` answers, `path` is `URL.Path`.
pub record Request : Type 0 where
  pub method : Bytes
  pub escaped_path : Bytes
  pub path : Bytes
  pub raw_query : Bytes
  pub header : Header
  pub remote_addr : Bytes
  pub body : Bytes

-- What `WriteHeader` is called with, or 200, the header then, and the bytes that are written.
pub record Response : Type 0 where
  pub status : ℕ
  pub header : Header
  pub body : Bytes

-- `bearerToken` of both handlers.
unfoldable pub bearer_token : Request → Bytes
unfolding has_prefix trim_space lower
bearer_token r =
    let auth = get_header r.header (codes "Authorization") in
    if has_prefix (map lower auth) (codes "bearer ") then trim_space (drop 7 auth) else []

-- The text of an error.
abbrev pub Message : Type 0
Message = Bytes
