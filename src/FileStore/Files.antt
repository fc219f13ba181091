-- ===== src/FileStore/Files.antt =====
-- A file system as a function from paths; directories exist where they are needed.
use triplet.Common.{ℕ, ◌≡◌, refl, ◌≢◌, Bool, Option, none, if◌then◌else◌}
use triplet.Text.{Bytes, bytes_eq}
use triplet.Text.Cut.{bytes_eq_refl, bytes_eq_of_ne}

-- `readable` is false where opening fails otherwise than by absence.
pub record File : Type 0 where
  pub content : Bytes
  pub mod_time : ℕ
  pub regular : Bool
  pub readable : Bool

abbrev pub Fs : Type 0
Fs = Bytes → Option File

unfoldable pub update : Fs → Bytes → Option File → Fs
update fs p f q = if bytes_eq q p then f else fs q

-- `os.Remove(p)` of a file that the system removes.
unfoldable pub remove : Fs → Bytes → Fs
unfolding update
remove fs p = update fs p none

-- `os.Remove(p)` with its error ignored: where the system refuses, nothing changes.
unfoldable pub try_remove : (refused : Bool) → Fs → Bytes → Fs
unfolding remove
try_remove refused fs p = if refused then fs else remove fs p

-- `os.Rename(from, to)` of a file that is there.
unfoldable pub rename_file : Fs → Bytes → Bytes → Fs
unfolding update
rename_file fs from to = update (update fs from none) to (fs from)

pub update_self : (fs : Fs) (p : Bytes) (f : Option File) → update fs p f p ≡ f
unfolding update
update_self fs p f = rw (bytes_eq_refl p) refl

pub update_ne : (fs : Fs) (p : Bytes) (f : Option File) (q : Bytes) → q ≢ p → update fs p f q ≡ fs q
unfolding update
update_ne fs p f q h = rw (bytes_eq_of_ne q p h) refl
