-- ===== src/FileStore/Cleanup.antt =====
-- `Cleanup`: a walk over the paths below the root.
use triplet.Common.{
  ℕ, ◌+◌, Bool, false, ◌&&◌, ◌||◌, none, some, List, [], ◌∷◌, ◌++◌, if◌then◌else◌, length,
}
use triplet.Common.Int.{pos, ltb_ℤ}
use triplet.Text.{Bytes, bytes_eq, has_prefix}
use triplet.FileStore.{FileStore, expired}
use triplet.FileStore.Files.{Fs, File, try_remove}
use triplet.FileStore.Paths.{ext, base_name, meta_suffix}
use triplet.FileStore.Put.{temp_prefix}

pub record CleanupReport : Type 0 where
  pub scanned : ℕ
  pub removed : ℕ
  pub removed_bytes : ℕ
  pub bytes : ℕ
  pub expired_removed : ℕ
  pub over_max_bytes : Bool

abbrev pub empty_report : CleanupReport
empty_report = record {
  scanned = 0;
  removed = 0;
  removed_bytes = 0;
  bytes = 0;
  expired_removed = 0;
  over_max_bytes = false;
}

-- Metadata and files that a `Put` still writes are passed over.
unfoldable pub is_skipped : Bytes → Bool
unfolding bytes_eq has_prefix
is_skipped p = bytes_eq (ext p) meta_suffix || has_prefix (base_name p) temp_prefix

-- `refuses` tells the paths whose removal the system refuses; these errors are ignored.
module _ (s : FileStore) (refuses : Bytes → Bool) (now : ℕ) where
  unfoldable pub remove_entry : Fs → Bytes → Fs
  unfolding try_remove
  remove_entry fs p =
      let gone = try_remove (refuses p) fs p in
      if s.store_content_type
      then try_remove (refuses (p ++ meta_suffix)) gone (p ++ meta_suffix)
      else gone

  -- A regular file that is no metadata: live, or counted as removed.
  unfoldable pub visit_file : Fs → CleanupReport → Bytes → File → Fs × CleanupReport
  visit_file fs r p f =
      if expired s f.mod_time now
      then (
        remove_entry fs p,
        record r {
          scanned = r.scanned + 1;
          removed = r.removed + 1;
          expired_removed = r.expired_removed + 1;
          removed_bytes = r.removed_bytes + length f.content;
        },
      )
      else (fs, record r { scanned = r.scanned + 1; bytes = r.bytes + length f.content })

  -- The callback of the walk at one file. A file that is gone by then has no `Info`.
  unfoldable pub visit : Fs → CleanupReport → Bytes → Fs × CleanupReport
  unfolding visit_file
  visit fs r p = if is_skipped p then (fs, r) else elim (fs p) [
    | none ↦ (fs, r)
    | some f ↦ if f.regular then visit_file fs r p f else (fs, r)
  ]

  unfoldable pub walk : List Bytes → Fs → CleanupReport → Fs × CleanupReport
  walk [] fs r = (fs, r)
  walk (p ∷ ps) fs r = walk ps (visit fs r p).0 (visit fs r p).1

  -- `paths` are the files below the root in the order of the walk.
  unfoldable pub cleanup : List Bytes → Fs → Fs × CleanupReport
  unfolding walk
  cleanup paths fs =
      let (fs', r) = walk paths fs empty_report in
      (
        fs',
        record r { over_max_bytes = ltb_ℤ (pos 0) s.max_bytes && ltb_ℤ s.max_bytes (pos r.bytes) },
      )
