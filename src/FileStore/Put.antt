-- ===== src/FileStore/Put.antt =====
-- `Put` and `Delete`. Each step of `Put` that the system can refuse has its outcome as an argument.
use triplet.Common.{ℕ, Bool, true, Option, none, some, if◌then◌else◌}
use triplet.Text.{Bytes, codes}
use triplet.FileStore.{FileStore, Codec}
use triplet.FileStore.Files.{Fs, File, update, try_remove, rename_file}
use triplet.FileStore.Paths.{data_path, meta_path}

pub data PutError : Type 0 where
  mkdir create copy close rename write_meta : PutError

-- How `os.WriteFile` ends: it may fail before it opens the file or leave a part of the text.
pub data WriteOutcome : Type 0 where
  written : WriteOutcome
  untouched : WriteOutcome
  partial : Bytes → WriteOutcome

-- Which of the steps the system refuses. The last two are the removals of the temporary file and of
-- the payload, whose errors are ignored.
pub record Faults : Type 0 where
  pub mkdir : Bool
  pub create : Bool
  pub copy : Bool
  pub close : Bool
  pub rename : Bool
  pub meta : WriteOutcome
  pub remove_temp : Bool
  pub remove_data : Bool

abbrev pub file_of : Bytes → ℕ → File
file_of content now = record { content = content; mod_time = now; regular = true; readable = true }

abbrev pub temp_prefix : Bytes
temp_prefix = codes ".tmp-"

module _ (c : Codec) where
  -- `installWithMeta`.
  unfoldable pub install_with_meta :
      Faults → ℕ → Fs → (tmp data_p meta_p content_type : Bytes) → Fs × Option PutError
  unfolding update try_remove rename_file
  install_with_meta faults now fs tmp data_p meta_p content_type =
      if faults.rename
      then (try_remove faults.remove_temp fs tmp, some PutError.rename)
      else let installed = rename_file fs tmp data_p in
        elim faults.meta [
          | WriteOutcome.written ↦
              (update installed meta_p (some (file_of (c.encode content_type) now)), none)
          | WriteOutcome.untouched ↦
              (try_remove faults.remove_data installed data_p, some PutError.write_meta)
          | WriteOutcome.partial text ↦ (
            try_remove faults.remove_data (update installed meta_p (some (file_of text now)))
                data_p,
            some PutError.write_meta,
          )
        ]

  -- The rename of a store without metadata, which takes no lock: one step of the system.
  unfoldable pub install_payload : Faults → Fs → (tmp data_p : Bytes) → Fs × Option PutError
  unfolding try_remove rename_file
  install_payload faults fs tmp data_p =
      if faults.rename
      then (try_remove faults.remove_temp fs tmp, some PutError.rename)
      else (rename_file fs tmp data_p, none)

  -- `tmp` is the name that `os.CreateTemp` makes.
  unfoldable pub put :
      FileStore → Faults → ℕ → Fs → (tmp key content_type value : Bytes) → Fs × Option PutError
  unfolding install_with_meta install_payload
  put s faults now fs tmp key content_type value =
      let data_p = data_path (c.hex key) in
      let meta_p = meta_path (c.hex key) in
      if faults.mkdir
      then (fs, some PutError.mkdir)
      else if faults.create
      then (fs, some PutError.create)
      else if faults.copy
      then (try_remove faults.remove_temp fs tmp, some PutError.copy)
      else if faults.close
      then (try_remove faults.remove_temp fs tmp, some PutError.close)
      else let copied = update fs tmp (some (file_of value now)) in
        if s.store_content_type
        then install_with_meta faults now copied tmp data_p meta_p content_type
        else install_payload faults copied tmp data_p

  -- `Delete`; the system may refuse each removal.
  unfoldable pub delete : FileStore → (refused_data refused_meta : Bool) → Fs → Bytes → Fs
  unfolding try_remove
  delete s refused_data refused_meta fs key =
      let gone = try_remove refused_data fs (data_path (c.hex key)) in
      if s.store_content_type then try_remove refused_meta gone (meta_path (c.hex key)) else gone
