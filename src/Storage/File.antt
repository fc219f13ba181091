-- ===== src/Storage/File.antt =====
-- internal/storage/file.go: identifiers as files under a root directory. What the system answers
-- about links and files, SHA-256 in hex, the extension and the table of MIME types are parameters.
pub mod Contained
pub mod Tests
use triplet.Common.{
  ℕ, Bool, true, false, ◌||◌, Option, none, some, Result, ok, err, ◌>>=◌, [], ◌∷◌, ◌++◌,
  if◌then◌else◌,
}
use triplet.Common.Int.{ℤ, pos}
use triplet.Text.{Bytes, codes, bytes_eq, contains_byte, has_prefix, itoa}
use triplet.Filepath.{separator, clean, join_path, rel, escapes}
use triplet.Storage.{Meta, OpenError}

pub record FileOpener : Type 0 where
  pub root : Bytes

pub record FileInfo : Type 0 where
  pub size : ℕ
  pub mod_time : ℕ

-- Why the system refuses: `fs.ErrNotExist` or another reason.
pub data SystemError : Type 0 where
  not_exist refused : SystemError

-- `filepath.EvalSymlinks`, `os.Stat`, `os.Open` (as the bytes of the file), the type for the
-- extension of a path, and SHA-256 in hex.
pub record System : Type 0 where
  pub eval_symlinks : Bytes → Result SystemError Bytes
  pub stat : Bytes → Result SystemError FileInfo
  pub open_file : Bytes → Result SystemError Bytes
  pub type_of_path : Bytes → Bytes
  pub sha256_hex : Bytes → Bytes

-- `errors.Is(err, fs.ErrNotExist)` gives `ErrNotFound`.
unfoldable pub open_error : SystemError → OpenError
open_error SystemError.not_exist = OpenError.not_found
open_error SystemError.refused = OpenError.failed

unfoldable pub or_open_error {ℓ} : {A : Type ℓ} → Result SystemError A → Result OpenError A
unfolding open_error
or_open_error (ok a) = ok a
or_open_error (err e) = err (open_error e)

-- An error that is not looked into.
unfoldable pub or_failed {ℓ} : {A : Type ℓ} → Result SystemError A → Result OpenError A
or_failed (ok a) = ok a
or_failed (err e) = err OpenError.failed

-- A path that is under the root.
unfoldable pub contained_in : Bytes → Bytes → Result OpenError Bytes
contained_in root path = if escapes (rel root path) then err OpenError.not_found else ok path

unfoldable pub safe_join : Bytes → Bytes → Result OpenError Bytes
unfolding contained_in
safe_join root identifier =
    if bytes_eq identifier [] || contains_byte identifier 0
    then err OpenError.not_found
    else if has_prefix identifier (separator ∷ [])
    then err OpenError.not_found
    else contained_in root (clean (join_path root identifier))

unfoldable pub file_version : System → Bytes → FileInfo → Bytes
unfolding itoa
file_version system path info =
    codes "file:"
    ++ system.sha256_hex path
    ++ b':' ∷ itoa (pos info.size)
    ++ b':' ∷ itoa (pos info.mod_time)

unfoldable pub meta_of : System → (clean_path real_path : Bytes) → FileInfo → Bytes × Meta
unfolding file_version
meta_of system clean_path real_path info = (
  real_path,
  record {
    content_type = system.type_of_path clean_path;
    size = info.size;
    mod_time = info.mod_time;
    version = file_version system real_path info;
  },
)

-- `meta`.
unfoldable pub resolve_meta : System → FileOpener → Bytes → Result OpenError (Bytes × Meta)
unfolding safe_join or_open_error or_failed contained_in meta_of
resolve_meta system f identifier = do
  joined ← safe_join f.root identifier
  real_root ← or_failed (system.eval_symlinks f.root)
  linked ← or_open_error (system.eval_symlinks joined)
  real_path ← contained_in real_root linked
  info ← or_failed (system.stat real_path)
  ok (meta_of system joined real_path info)

unfoldable pub with_meta : Meta → Bytes → Bytes × Meta
with_meta m body = (body, m)

-- `Open`; a reader stands for the bytes that it gives.
unfoldable pub open_identifier : System → FileOpener → Bytes → Result OpenError (Bytes × Meta)
unfolding resolve_meta or_open_error with_meta
open_identifier system f identifier = do
  found ← resolve_meta system f identifier
  body ← or_open_error (system.open_file found.0)
  ok (with_meta found.1 body)

-- `Meta`.
unfoldable pub read_meta : System → FileOpener → Bytes → Result OpenError Meta
unfolding resolve_meta
read_meta system f identifier = resolve_meta system f identifier >>= λ found. ok found.1
