-- ===== src/Presentation/Store/Refines.antt =====
-- The files implement the map: without links and faults, over any run of calls.
use mathlib.Core.Path.{subst}
use triplet.Common.{
  ℕ, ◌≡◌, ◌≢◌, refl, ap, ap₂, ◌∙◌, inl, inr, Bool, true, false, not, List, [], ◌∷◌, Option, none,
  some, Result, ok, err, ◌>>=◌, arith, All, Bool-cases, Option-cases, if◌then◌else◌,
}
use triplet.Text.{Bytes, bytes_eq}
use triplet.Text.Cut.{bytes_eq_refl, bytes_eq_of_ne, bytes_eq-eq, ne_of_bytes_eq}
use triplet.FileStore.Files.{Fs, File, update, remove, rename_file, update_self, update_ne}
use triplet.FileStore.Put.{file_of}
use triplet.Presentation.Store.{
  StoreError, Preconditions, valid_resource_key, put_precondition_matches, document_etag,
  if_match_matches,
}
use triplet.Presentation.Store.Files.{
  FileStore, System, dir, resource_path, document_of, get, put, delete, put_path, put_at,
  put_current, delete_path, delete_at, delete_read, read_file, atomic_write_file, or_not_found,
  file_store, sync_directory,
}
use triplet.Presentation.Store.Abstract.{
  Documents, set_document, map_get, map_put, map_remove, map_delete, map_store, Call, get_call,
  put_call, delete_call, Answer, key_of, call, run,
}
use triplet.Presentation.Store.Plain.{
  no_faults, IsPlain, Represents, path_of, as_document, IsReadable, make_directory-ok,
  path_of_injective, resolve_read-lem,
}

module _ (system : System) (s : FileStore) {IsKey : Bytes → Type 0}
    (plain : IsPlain system s IsKey) where
  abbrev Same : Fs → Documents → Type 0
  Same = Represents system s IsKey

  abbrev path : Bytes → Bytes
  path = path_of system s

  readable :
      (f : File)
      → f.readable ≡ true
      → document_of system s (some f) ≡ ok (record { body = f.content; modified_at = f.mod_time })
  unfolding document_of read_file or_not_found
  readable f r = ground arith

  get-eq :
      (fs : Fs) (docs : Documents) (key : Bytes)
      → IsKey key
      → Same fs docs
      → get system s fs key ≡ map_get docs key
  unfolding get resource_path map_get
  get-eq fs docs key k same = elim (Bool-cases (valid_resource_key key)) [
    | inr bad ↦ rw (bad, ◌>>=◌)
    | inl good ↦ elim (Option-cases (fs (path key))) [
      | inl absent ↦
          rw (good, resolve_read-lem system s plain fs key k, absent, (same key k).0, absent) refl
      | inr (f, there) ↦
          rw
            (
              good,
              resolve_read-lem system s plain fs key k,
              there,
              (same key k).0,
              there,
              readable f (subst IsReadable there (same key k).1),
            )
            refl
    ]
  ]

  -- The files after a key's path is written.
  Represents-update :
      (fs : Fs) (docs : Documents) (key : Bytes) (f : Option File)
      → IsKey key
      → IsReadable f
      → Same fs docs
      → (fs' : Fs) → (fs' (path key) ≡ f)
      → ((other : Bytes) → IsKey other → other ≢ key → fs' (path other) ≡ fs (path other))
      → Same fs' (set_document docs key (as_document f))
  unfolding set_document
  Represents-update fs docs key f k readable same fs' here others other o =
      elim (Bool-cases (bytes_eq other key)) [
        | inl here_too ↦
            let same_key = bytes_eq-eq other key here_too in
            let there = ap (λ q. fs' (path q)) same_key ∙ here in
            rw (here_too, there) (refl, readable)
        | inr elsewhere ↦
            rw (elsewhere, others other o (ne_of_bytes_eq other key elsewhere)) (same other o)
      ]

  apart_paths : (key other : Bytes) → IsKey key → IsKey other → other ≢ key → path other ≢ path key
  apart_paths key other k o ne e = ne (path_of_injective system s plain other key o k e)

  -- A write without faults, file by file.
  atomic_write-at :
      (now : ℕ) (fs : Fs) (p body q : Bytes)
      → let tmp = system.temp_name fs (dir p) in
        (atomic_write_file system s no_faults now fs p body).0 q
        ≡ (if bytes_eq q p then some (file_of body now) else if bytes_eq q tmp then none else fs q)
  unfolding atomic_write_file rename_file update
  atomic_write-at now fs p body q = ground (arith, bytes_eq_refl (system.temp_name fs (dir p)))

  atomic_write-Same :
      (now : ℕ) (fs : Fs) (key body : Bytes) (docs : Documents)
      → IsKey key
      → Same fs docs
      → Same
          (atomic_write_file system s no_faults now fs (path key) body).0
          (set_document docs key (some (record { body = body; modified_at = now })))
  atomic_write-Same now fs key body docs k same =
      let after = (atomic_write_file system s no_faults now fs (path key) body).0 in
      let tmp = system.temp_name fs (dir (path key)) in
      Represents-update fs docs key (some (file_of body now)) k refl same after
        (atomic_write-at now fs (path key) body (path key) ∙ rw (bytes_eq_refl (path key)) refl)
        (λ other o ne.
          atomic_write-at now fs (path key) body (path other)
          ∙ rw
              (
                bytes_eq_of_ne _ _ (apart_paths key other k o ne),
                bytes_eq_of_ne (path other) tmp (plain.temp fs (dir (path key)) other o),
              )
              refl)

  remove-Same :
      (fs : Fs) (key : Bytes) (docs : Documents)
      → IsKey key
      → Same fs docs
      → Same (remove fs (path key)) (set_document docs key none)
  unfolding remove
  remove-Same fs key docs k same =
      Represents-update fs docs key none k tt same (remove fs (path key))
        (update_self fs (path key) none)
        (λ other o ne. update_ne fs (path key) none (path other) (apart_paths key other k o ne))

  -- One call answers the same, and leaves files that stand for what the map has become.
  abbrev Agrees : {Out : Type 0} → Fs × Out → Documents × Out → Type 0
  Agrees files_after map_after = (files_after.1 ≡ map_after.1) × Same files_after.0 map_after.0

  atomic_write-ok :
      (now : ℕ) (fs : Fs) (p body : Bytes) (created : Bool)
      → (let written : Result StoreError Bool = ok created in
          ((atomic_write_file system s no_faults now fs p body).1 >>= λ _. written) ≡ written)
  unfolding atomic_write_file sync_directory
  atomic_write-ok now fs p body created = refl

  read-file : (f : File) → f.readable ≡ true → read_file (some f) ≡ ok f.content
  unfolding read_file
  read-file f r = ground arith

  delete_read-Agrees :
      (fs : Fs) (docs : Documents) (key if_match : Bytes) (f : File)
      → IsKey key
      → Same fs docs
      → Agrees
          (delete_read system s no_faults fs (path key) if_match (ok f.content))
          (map_remove system.sha256_hex docs key if_match (as_document (some f)))
  unfolding delete_read map_remove sync_directory
  delete_read-Agrees fs docs key if_match f k same =
      elim (Bool-cases (if_match_matches if_match (document_etag system.sha256_hex f.content))) [
        | inl met ↦ rw met (refl, remove-Same fs key docs k same)
        | inr unmet ↦ rw unmet (refl, same)
      ]

  put_current-Agrees :
      (now : ℕ) (fs : Fs) (docs : Documents) (key body : Bytes) (conditions : Preconditions)
      → (exists : Bool) (etag : Bytes) → IsKey key
      → Same fs docs
      → Agrees (put_current system s no_faults now fs (path key) body conditions exists etag) (
          if put_precondition_matches exists etag conditions
          then (
            set_document docs key (some (record { body = body; modified_at = now })),
            ok (not exists),
          )
          else (docs, err StoreError.precondition_failed))
  unfolding put_current
  put_current-Agrees now fs docs key body conditions exists etag k same =
      elim (Bool-cases (put_precondition_matches exists etag conditions)) [
        | inl met ↦ rw met (
          atomic_write-ok now fs (path key) body (not exists),
          atomic_write-Same now fs key body docs k same,
        )
        | inr unmet ↦ rw unmet (refl, same)
      ]

  put-Agrees :
      (now : ℕ) (fs : Fs) (docs : Documents) (key body : Bytes) (conditions : Preconditions)
      → IsKey key
      → Same fs docs
      → Agrees
          (put system s no_faults fs now key body conditions)
          (map_put system.sha256_hex docs now key body conditions)
  unfolding put resource_path map_put put_path put_at
  put-Agrees now fs docs key body conditions k same = elim (Bool-cases (valid_resource_key key)) [
    | inr bad ↦ rw bad (refl, same)
    | inl good ↦ elim (Option-cases (fs (path key))) [
      | inl absent ↦
          rw (good, make_directory-ok system s plain fs key k, absent, (same key k).0, absent)
            (put_current-Agrees now fs docs key body conditions false [] k same)
      | inr (f, there) ↦
          rw
            (
              good,
              make_directory-ok system s plain fs key k,
              there,
              (same key k).0,
              there,
              read-file f (subst IsReadable there (same key k).1),
            )
            (put_current-Agrees now fs docs key body conditions true
              (document_etag system.sha256_hex f.content) k same)
    ]
  ]

  delete-Agrees :
      (fs : Fs) (docs : Documents) (key if_match : Bytes)
      → IsKey key
      → Same fs docs
      → Agrees
          (delete system s no_faults fs key if_match)
          (map_delete system.sha256_hex docs key if_match)
  unfolding delete resource_path map_delete map_remove delete_path delete_at delete_read
  delete-Agrees fs docs key if_match k same = elim (Bool-cases (valid_resource_key key)) [
    | inr bad ↦ rw bad (refl, same)
    | inl good ↦ elim (Option-cases (fs (path key))) [
      | inl absent ↦
          rw (good, resolve_read-lem system s plain fs key k, absent, (same key k).0, absent)
            (refl, same)
      | inr (f, there) ↦
          rw
            (
              good,
              resolve_read-lem system s plain fs key k,
              there,
              (same key k).0,
              there,
              read-file f (subst IsReadable there (same key k).1),
            )
            (delete_read-Agrees fs docs key if_match f k same)
    ]
  ]

  call-Agrees :
      (fs : Fs) (docs : Documents) (c : Call)
      → IsKey (key_of c)
      → Same fs docs
      → Agrees
          (call (file_store system s no_faults) fs c)
          (call (map_store system.sha256_hex) docs c)
  unfolding call
  call-Agrees fs docs (get_call key) k same = (ap Answer.got (get-eq fs docs key k same), same)
  call-Agrees fs docs (put_call now key body conditions) k same =
      let agrees = put-Agrees now fs docs key body conditions k same in
      (ap Answer.wrote agrees.0, agrees.1)
  call-Agrees fs docs (delete_call key if_match) k same =
      let agrees = delete-Agrees fs docs key if_match k same in
      (ap Answer.deleted agrees.0, agrees.1)

  -- The files implement the map: in a root without links, and as long as the system refuses no
  -- step, every run of `Get`, `Put` and `Delete` on keys whose hashes differ is answered as the map
  -- from keys to documents answers it, in which a write is a compare-and-set on the entity tag.
  pub run-refines :
      (calls : List Call) (fs : Fs) (docs : Documents)
      → Same fs docs
      → All (λ c. IsKey (key_of c)) calls
      → run (file_store system s no_faults) fs calls ≡ run (map_store system.sha256_hex) docs calls
  unfolding run
  run-refines [] fs docs same keys = refl
  run-refines (c ∷ cs) fs docs same keys =
      let agrees = call-Agrees fs docs c keys.0 same in
      ap₂ ◌∷◌ agrees.0 (run-refines cs _ _ agrees.1 keys.1)
