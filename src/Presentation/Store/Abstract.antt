-- ===== src/Presentation/Store/Abstract.antt =====
-- What `Store` promises: a map from keys to documents in which a write is a compare-and-set, and the
-- answers to a run of calls.
use triplet.Common.{
  ℕ, ◌≡◌, arith, Bool, true, false, not, Option, none, some, Result, ok, err, List, [], ◌∷◌,
  if◌then◌else◌,
}
use triplet.Text.{Bytes, bytes_eq}
use triplet.Text.Cut.{bytes_eq_refl}
use triplet.Presentation.Store.{
  StoreError, Document, Preconditions, ResourceStore, document_etag, if_match_matches,
  valid_resource_key, put_precondition_matches,
}

abbrev pub Documents : Type 0
Documents = Bytes → Option Document

unfoldable pub set_document : Documents → Bytes → Option Document → Documents
set_document docs key doc q = if bytes_eq q key then doc else docs q

abbrev pub found : Option Document → Result StoreError Document
found none = err StoreError.not_found
found (some doc) = ok doc

abbrev pub is_there : Option Document → Bool
is_there none = false
is_there (some doc) = true

abbrev pub etag_of : (Bytes → Bytes) → Option Document → Bytes
etag_of sha256_hex none = []
etag_of sha256_hex (some doc) = document_etag sha256_hex doc.body

unfoldable pub map_get : Documents → Bytes → Result StoreError Document
map_get docs key = if valid_resource_key key then found (docs key) else err StoreError.not_found

module _ (sha256_hex : Bytes → Bytes) where
  unfoldable pub map_put :
      Documents → ℕ → (key body : Bytes) → Preconditions → Documents × Result StoreError Bool
  unfolding set_document
  map_put docs now key body conditions =
      if valid_resource_key key
      then (if put_precondition_matches (is_there (docs key)) (etag_of sha256_hex (docs key))
            conditions
          then (
            set_document docs key (some (record { body = body; modified_at = now })),
            ok (not (is_there (docs key))),
          )
          else (docs, err StoreError.precondition_failed))
      else (docs, err StoreError.not_found)

  unfoldable pub map_remove :
      Documents
      → (key if_match : Bytes) → Option Document
      → Documents × Result StoreError (Unit {0})
  unfolding set_document
  map_remove docs key if_match none = (docs, err StoreError.precondition_failed)
  map_remove docs key if_match (some doc) =
      if if_match_matches if_match (document_etag sha256_hex doc.body)
      then (set_document docs key none, ok tt)
      else (docs, err StoreError.precondition_failed)

  unfoldable pub map_delete :
      Documents → (key if_match : Bytes) → Documents × Result StoreError (Unit {0})
  unfolding map_remove
  map_delete docs key if_match =
      if valid_resource_key key
      then map_remove docs key if_match (docs key)
      else (docs, err StoreError.not_found)

  abbrev pub map_store : ResourceStore Documents
  map_store = record { get = map_get; put = map_put; delete = map_delete }

pub data Call : Type 0 where
  get_call : (key : Bytes) → Call
  put_call : (now : ℕ) (key body : Bytes) → Preconditions → Call
  delete_call : (key if_match : Bytes) → Call

pub data Answer : Type 0 where
  got : Result StoreError Document → Answer
  wrote : Result StoreError Bool → Answer
  deleted : Result StoreError (Unit {0}) → Answer

abbrev pub key_of : Call → Bytes
key_of (get_call key) = key
key_of (put_call now key body conditions) = key
key_of (delete_call key if_match) = key

module _ {State : Type 0} (store : ResourceStore State) where
  unfoldable pub call : State → Call → State × Answer
  call s (get_call key) = (s, got (store.get s key))
  call s (put_call now key body conditions) =
      let after = store.put s now key body conditions in (after.0, wrote after.1)
  call s (delete_call key if_match) =
      let after = store.delete s key if_match in (after.0, deleted after.1)

  -- The answers to calls, one after the other.
  unfoldable pub run : State → List Call → List Answer
  unfolding call
  run s [] = []
  run s (c ∷ cs) = (call s c).1 ∷ run (call s c).0 cs

-- A `Put` that ends well is what `Get` answers.
pub map_get-put :
    (sha256_hex : Bytes → Bytes) (docs : Documents) (now : ℕ) (key body : Bytes)
    (conditions : Preconditions) (created : Bool)
    → (map_put sha256_hex docs now key body conditions).1 ≡ ok created
    → map_get (map_put sha256_hex docs now key body conditions).0 key
      ≡ ok (record { body = body; modified_at = now })
unfolding map_put map_get
map_get-put sha256_hex docs now key body conditions created e = ground (arith, bytes_eq_refl key)
