-- ===== src/Cors/Tests.antt =====
-- A policy with one origin.
use triplet.Common.{◌≡◌, ◌≢◌, ◌⊎◌, [], ◌∷◌}
use triplet.Text.{Bytes, codes}
use triplet.Http.{Header}
use triplet.Cors.{Policy, set_headers, allow_origin}
use triplet.Cors.Origins.{IsListed, set_headers_allowed}

abbrev one_origin : Policy
one_origin = record { allowed_origins = codes " https://a.b" ∷ []; expose_headers = codes "ETag" }

abbrev no_headers : Header
no_headers name = []

abbrev asked_origin : Bytes
asked_origin = codes "https://a.b"

set_headers_allowed_example :
    ((asked_origin ≢ [])
      × IsListed (codes "*") one_origin.allowed_origins
      × (set_headers one_origin asked_origin no_headers allow_origin ≡ codes "*" ∷ []))
    ⊎ ((asked_origin ≢ [])
        × (IsListed (codes "*") one_origin.allowed_origins → ⊥)
        × IsListed asked_origin one_origin.allowed_origins
        × (set_headers one_origin asked_origin no_headers allow_origin ≡ asked_origin ∷ [])
        × (set_headers one_origin asked_origin no_headers (codes "Vary") ≡ codes "Origin" ∷ []))
    ⊎ (((asked_origin ≡ [])
          ⊎ ((IsListed (codes "*") one_origin.allowed_origins → ⊥)
              × (IsListed asked_origin one_origin.allowed_origins → ⊥)))
        × (set_headers one_origin asked_origin no_headers ≡ no_headers))
set_headers_allowed_example = set_headers_allowed one_origin asked_origin no_headers
