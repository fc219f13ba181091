-- ===== src/Presentation/Store/Files.antt =====
-- internal/iiif/presentation/v3/store/file.go: a document is a file whose name is the hash of its
-- key. The lock makes each call one step. What links lead to, which directories are there, and which
-- step of a write the system refuses are parameters.
use triplet.Common.{
  ℕ, zero, suc, Bool, true, false, ◌||◌, not, length, Option, none, some, Result, ok, err, ◌>>=◌,
  List, [], ◌∷◌, ◌++◌, take, if◌then◌else◌,
}
use triplet.Text.{Bytes, codes}
use triplet.Filepath.{rooted, elements, drop_last, rel, escapes}
use triplet.FileStore.Files.{Fs, File, update, remove, try_remove, rename_file}
use triplet.FileStore.Put.{file_of}
use triplet.Presentation.Store.{
  StoreError, Document, Preconditions, ResourceStore, document_etag, if_match_matches,
  valid_resource_key, put_precondition_matches,
}

-- `FileStore`, made by `NewFileStore`.
pub record FileStore : Type 0 where
  pub root : Bytes
  pub real_root : Bytes

-- Why the system refuses: `fs.ErrNotExist` or another reason.
pub data SystemError : Type 0 where
  not_exist refused : SystemError

-- `filepath.EvalSymlinks` and `os.Stat` in the file system, SHA-256 in hex, and the name that
-- `os.CreateTemp` finds in a directory.
pub record System : Type 0 where
  pub eval_symlinks : Fs → Bytes → Result SystemError Bytes
  pub stat_path : Fs → Bytes → Result SystemError (Unit {0})
  pub sha256_hex : Bytes → Bytes
  pub temp_name : Fs → Bytes → Bytes

-- The steps that the system refuses.
pub record Faults : Type 0 where
  pub mkdir : Bool
  pub create : Bool
  pub write : Bool
  pub chmod : Bool
  pub sync : Bool
  pub close : Bool
  pub rename : Bool
  pub unlink : Bool
  pub sync_directory : Bool
  pub remove_temp : Bool

-- `filepath.Dir` of a rooted path.
unfoldable pub dir : Bytes → Bytes
unfolding elements
dir path = rooted (drop_last (elements path))

-- `os.ReadFile`.
unfoldable pub read_file : Option File → Result SystemError Bytes
read_file none = err SystemError.not_exist
read_file (some f) = if f.readable then ok f.content else err SystemError.refused

unfoldable pub or_not_found {ℓ} : {A : Type ℓ} → Result SystemError A → Result StoreError A
or_not_found (ok a) = ok a
or_not_found (err SystemError.not_exist) = err StoreError.not_found
or_not_found (err SystemError.refused) = err StoreError.failed

unfoldable pub or_failed {ℓ} : {A : Type ℓ} → Result SystemError A → Result StoreError A
or_failed (ok a) = ok a
or_failed (err e) = err StoreError.failed

-- A step that the system may refuse.
unfoldable pub may_fail : Bool → Result StoreError (Unit {0})
may_fail true = err StoreError.failed
may_fail false = ok tt

module _ (system : System) (s : FileStore) where
  -- `resourcePath`.
  unfoldable pub resource_path : Bytes → Result StoreError Bytes
  resource_path resource_key =
      let digest = system.sha256_hex resource_key in
      if valid_resource_key resource_key
      then ok (
          rooted
            (elements s.root ++ codes "resources" ∷ take 2 digest ∷ (digest ++ codes ".json") ∷ []))
      else err StoreError.not_found

  -- `ensureContained`.
  unfoldable pub ensure_contained : Fs → Bytes → Result StoreError (Unit {0})
  unfolding or_failed
  ensure_contained fs path = do
    real_path ← or_failed (system.eval_symlinks fs path)
    if escapes (rel s.real_root real_path) then err StoreError.not_found else ok tt

  -- `resolveRead`.
  unfoldable pub resolve_read : Fs → Bytes → Result StoreError Bytes
  unfolding or_not_found ensure_contained
  resolve_read fs path = do
    real_path ← or_not_found (system.eval_symlinks fs path)
    _ ← ensure_contained fs real_path
    ok real_path

  -- One round of `ensureCreatePathContained`, with the rounds on the parents.
  unfoldable pub contained_or_above :
      Fs
      → Bytes
      → Result SystemError (Unit {0})
      → Result StoreError (Unit {0})
      → Result StoreError (Unit {0})
  unfolding ensure_contained
  contained_or_above fs path (ok _) above = ensure_contained fs path
  contained_or_above fs path (err SystemError.not_exist) above = above
  contained_or_above fs path (err SystemError.refused) above = err StoreError.failed

  -- `ensureCreatePathContained`: a path of `n` names has `n` parents, and the root is its own.
  unfoldable pub ensure_create_path_contained : ℕ → Fs → List Bytes → Result StoreError (Unit {0})
  unfolding contained_or_above
  ensure_create_path_contained n fs [] =
      contained_or_above fs (rooted []) (system.stat_path fs (rooted [])) (err StoreError.not_found)
  ensure_create_path_contained zero fs (p ∷ ps) = err StoreError.not_found
  ensure_create_path_contained (suc n) fs (p ∷ ps) =
      let above = ensure_create_path_contained n fs (drop_last (p ∷ ps)) in
      contained_or_above fs (rooted (p ∷ ps)) (system.stat_path fs (rooted (p ∷ ps))) above

  -- `syncDirectory`.
  unfoldable pub sync_directory : Faults → Result StoreError (Unit {0})
  unfolding may_fail
  sync_directory faults = may_fail faults.sync_directory

  -- `atomicWriteFile`, with the deferred removal of the temporary file.
  unfoldable pub atomic_write_file :
      Faults → ℕ → Fs → (path body : Bytes) → Fs × Result StoreError (Unit {0})
  unfolding update try_remove rename_file sync_directory
  atomic_write_file faults now fs path body =
      let tmp = system.temp_name fs (dir path) in
      let created = update fs tmp (some (file_of [] now)) in
      let written = update created tmp (some (file_of body now)) in
      if faults.create
      then (fs, err StoreError.failed)
      else if faults.write
      then (try_remove faults.remove_temp created tmp, err StoreError.failed)
      else if faults.chmod || faults.sync || faults.close || faults.rename
      then (try_remove faults.remove_temp written tmp, err StoreError.failed)
      else (rename_file written tmp path, sync_directory faults)

  -- `Get`; the times of files are those of their last write.
  unfoldable pub document_of : Option File → Result StoreError Document
  unfolding read_file or_not_found
  document_of none = err StoreError.not_found
  document_of (some f) = or_not_found (read_file (some f)) >>= λ body.
      ok (record { body = body; modified_at = f.mod_time })

  unfoldable pub get : Fs → Bytes → Result StoreError Document
  unfolding resource_path resolve_read document_of
  get fs resource_key = do
    path ← resource_path resource_key
    real_path ← resolve_read fs path
    document_of (fs real_path)

  -- What the write does once the current file is read.
  unfoldable pub put_current :
      Faults
      → ℕ
      → Fs
      → (path body : Bytes) → Preconditions
      → Bool
      → Bytes
      → Fs × Result StoreError Bool
  unfolding atomic_write_file
  put_current faults now fs path body conditions exists current_etag =
      let after = atomic_write_file faults now fs path body in
      if put_precondition_matches exists current_etag conditions
      then (after.0, after.1 >>= λ _. ok (not exists))
      else (fs, err StoreError.precondition_failed)

  unfoldable pub put_read :
      Faults
      → ℕ
      → Fs
      → (path body : Bytes) → Preconditions
      → Result SystemError Bytes
      → Fs × Result StoreError Bool
  unfolding put_current
  put_read faults now fs path body conditions (ok current) =
      put_current faults now fs path body conditions true (document_etag system.sha256_hex current)
  put_read faults now fs path body conditions (err SystemError.not_exist) =
      put_current faults now fs path body conditions false []
  put_read faults now fs path body conditions (err SystemError.refused) =
      (fs, err StoreError.failed)

  -- The directory of a path is there and under the root.
  unfoldable pub make_directory : Faults → Fs → Bytes → Result StoreError (Unit {0})
  unfolding ensure_create_path_contained may_fail ensure_contained
  make_directory faults fs path = do
    _ ← ensure_create_path_contained (length (elements path)) fs (drop_last (elements path))
    _ ← may_fail faults.mkdir
    ensure_contained fs (dir path)

  unfoldable pub put_at :
      Faults
      → ℕ
      → Fs
      → (path body : Bytes) → Preconditions
      → Result StoreError (Unit {0})
      → Fs × Result StoreError Bool
  unfolding put_read read_file
  put_at faults now fs path body conditions (err e) = (fs, err e)
  put_at faults now fs path body conditions (ok _) =
      put_read faults now fs path body conditions (read_file (fs path))

  unfoldable pub put_path :
      Faults
      → ℕ
      → Fs
      → Bytes
      → Preconditions
      → Result StoreError Bytes
      → Fs × Result StoreError Bool
  unfolding make_directory put_at
  put_path faults now fs body conditions (err e) = (fs, err e)
  put_path faults now fs body conditions (ok path) =
      put_at faults now fs path body conditions (make_directory faults fs path)

  -- `Put`.
  unfoldable pub put :
      Faults → Fs → ℕ → (resource_key body : Bytes) → Preconditions → Fs × Result StoreError Bool
  unfolding resource_path put_path
  put faults fs now resource_key body conditions =
      put_path faults now fs body conditions (resource_path resource_key)

  -- The end of `Delete`, at a file that was read.
  unfoldable pub delete_read :
      Faults
      → Fs
      → (path if_match : Bytes) → Result SystemError Bytes
      → Fs × Result StoreError (Unit {0})
  unfolding remove sync_directory
  delete_read faults fs path if_match (err SystemError.not_exist) =
      (fs, err StoreError.precondition_failed)
  delete_read faults fs path if_match (err SystemError.refused) = (fs, err StoreError.failed)
  delete_read faults fs path if_match (ok current) =
      if if_match_matches if_match (document_etag system.sha256_hex current)
      then (if faults.unlink
          then (fs, err StoreError.failed)
          else (remove fs path, sync_directory faults))
      else (fs, err StoreError.precondition_failed)

  unfoldable pub delete_at :
      Faults → Fs → Bytes → Result StoreError Bytes → Fs × Result StoreError (Unit {0})
  unfolding delete_read read_file
  delete_at faults fs if_match (err StoreError.not_found) = (fs, err StoreError.precondition_failed)
  delete_at faults fs if_match (err e) = (fs, err e)
  delete_at faults fs if_match (ok path) = delete_read faults fs path if_match (read_file (fs path))

  unfoldable pub delete_path :
      Faults → Fs → Bytes → Result StoreError Bytes → Fs × Result StoreError (Unit {0})
  unfolding resolve_read delete_at
  delete_path faults fs if_match (err e) = (fs, err e)
  delete_path faults fs if_match (ok path) = delete_at faults fs if_match (resolve_read fs path)

  -- `Delete`.
  unfoldable pub delete :
      Faults → Fs → (resource_key if_match : Bytes) → Fs × Result StoreError (Unit {0})
  unfolding resource_path delete_path
  delete faults fs resource_key if_match =
      delete_path faults fs if_match (resource_path resource_key)

  -- The `Store` that it implements.
  abbrev pub file_store : Faults → ResourceStore Fs
  file_store faults = record { get = get; put = put faults; delete = delete faults }
