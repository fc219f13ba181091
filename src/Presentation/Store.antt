-- ===== src/Presentation/Store.antt =====
-- internal/iiif/presentation/v3/store/store.go: documents, entity tags and the conditions of a write.
pub mod Files
pub mod Abstract
pub mod Plain
pub mod Refines
pub mod Failed
use triplet.Common.{
  ℕ, Bool, true, false, ◌&&◌, ◌||◌, not, List, [], ◌∷◌, ◌++◌, Result, leb, length, if◌then◌else◌,
}
use triplet.Text.{Bytes, codes, bytes_eq, contains_any, has_prefix, split, trim_space}

abbrev pub max_resource_key_bytes : ℕ
max_resource_key_bytes = 768

-- `ErrNotFound`, `ErrPreconditionFailed`, and the errors that the system gives.
pub data StoreError : Type 0 where
  not_found precondition_failed failed : StoreError

-- A time is in nanoseconds; 0 is Go's zero time.
pub record Document : Type 0 where
  pub body : Bytes
  pub modified_at : ℕ

pub record Preconditions : Type 0 where
  pub if_match : Bytes
  pub if_none_match : Bytes

-- `Store`, the state that the backend keeps being explicit. A call that writes is given the time.
pub record ResourceStore (State : Type 0) : Type 0 where
  pub get : State → Bytes → Result StoreError Document
  pub put : State → ℕ → (resource_key body : Bytes) → Preconditions → State × Result StoreError Bool
  pub delete : State → (resource_key if_match : Bytes) → State × Result StoreError (Unit {0})

-- `DocumentETag`, for a hash in hex.
unfoldable pub document_etag : (Bytes → Bytes) → Bytes → Bytes
document_etag sha256_hex body = b'"' ∷ sha256_hex body ++ b'"' ∷ []

unfoldable pub any_matches : List Bytes → Bytes → Bool
any_matches [] etag = false
any_matches (candidate ∷ rest) etag =
    not (has_prefix (trim_space candidate) (codes "W/")) && bytes_eq (trim_space candidate) etag
    || any_matches rest etag

-- `IfMatchMatches`.
unfoldable pub if_match_matches : Bytes → Bytes → Bool
unfolding any_matches
if_match_matches header etag =
    bytes_eq (trim_space header) (codes "*") || any_matches (split (trim_space header) b',') etag

-- `validResourceKey`.
unfoldable pub valid_resource_key : Bytes → Bool
valid_resource_key key =
    not (bytes_eq key [])
    && leb (length key) max_resource_key_bytes
    && not (contains_any key (0 ∷ b'\n' ∷ b'\r' ∷ []))

-- `putPreconditionMatches`.
unfoldable pub put_precondition_matches : Bool → Bytes → Preconditions → Bool
unfolding if_match_matches
put_precondition_matches exists current_etag conditions =
    if not (bytes_eq conditions.if_none_match [])
    then bytes_eq conditions.if_match []
      && bytes_eq conditions.if_none_match (codes "*")
      && not exists
    else not (bytes_eq conditions.if_match [])
      && exists
      && if_match_matches conditions.if_match current_etag
