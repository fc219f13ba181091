-- ===== src/Storage/File/Contained.antt =====
-- What an identifier can reach.
use mathlib.Core.Path.{subst}
use triplet.Common.{>>=-eq-ok, ◌≡◌, sym, ap, ◌∙◌, false, Result, ok, err, arith}
use triplet.Text.{Bytes}
use triplet.Filepath.{clean, join_path, rel, escapes}
use triplet.Filepath.Contained.{Under, Under-rel, clean-clean}
use triplet.Storage.{Meta}
use triplet.Storage.File.{
  FileOpener, System, SystemError, safe_join, contained_in, resolve_meta, open_identifier,
  or_failed, or_open_error, meta_of, with_meta,
}

contained_in-eq :
    (root path : Bytes) {p : Bytes}
    → contained_in root path ≡ ok p
    → (p ≡ path) × (escapes (rel root path) ≡ false)
unfolding contained_in
contained_in-eq root path e = ground arith

safe_join-eq :
    (root identifier : Bytes) {path : Bytes}
    → safe_join root identifier ≡ ok path
    → contained_in root (clean (join_path root identifier)) ≡ ok path
unfolding safe_join
safe_join-eq root identifier e = ground arith

or_failed-eq {ℓ} : {A : Type ℓ} (r : Result SystemError A) {a : A} → or_failed r ≡ ok a → r ≡ ok a
unfolding or_failed
or_failed-eq (ok a) e = ground arith
or_failed-eq (err x) e = absurd (ground arith)

or_open_error-eq {ℓ} :
    {A : Type ℓ} (r : Result SystemError A) {a : A} → or_open_error r ≡ ok a → r ≡ ok a
unfolding or_open_error
or_open_error-eq (ok a) e = ground arith
or_open_error-eq (err x) e = absurd (ground arith)

-- A path that an identifier is joined to lies under the root: it is the path of the root's names
-- followed by names of entries, none of which is `..`.
pub safe_join-Under :
    (root identifier : Bytes) {path : Bytes} → safe_join root identifier ≡ ok path → Under root path
safe_join-Under root identifier {path = path} e =
    let joined = clean (join_path root identifier) in
    let (same, stays) = contained_in-eq root joined (safe_join-eq root identifier e) in
    subst (Under root) (clean-clean (join_path root identifier) ∙ sym same)
      (Under-rel root joined stays)

-- The path is that of the identifier below the root once the links are followed, and lies under that
-- of the root once its own links are.
abbrev pub IsResolved : System → FileOpener → (identifier path : Bytes) → Type 0
IsResolved system f identifier path =
    (joined real_root : Bytes) × (safe_join f.root identifier ≡ ok joined)
    × (system.eval_symlinks joined ≡ ok path)
    × (system.eval_symlinks f.root ≡ ok real_root)
    × Under real_root (clean path)

-- The file whose metadata is read.
resolve_meta-IsResolved :
    (system : System) (f : FileOpener) (identifier : Bytes) {found : Bytes × Meta}
    → resolve_meta system f identifier ≡ ok found
    → IsResolved system f identifier found.0
unfolding resolve_meta meta_of
resolve_meta-IsResolved system f identifier e =
    let (joined, e0, e1) = >>=-eq-ok (safe_join f.root identifier) _ e in
    let (real_root, e2, e3) = >>=-eq-ok (or_failed (system.eval_symlinks f.root)) _ e1 in
    let (linked, e8, e4) = >>=-eq-ok (or_open_error (system.eval_symlinks joined)) _ e3 in
    let (real_path, e5, e6) = >>=-eq-ok (contained_in real_root linked) _ e4 in
    let (info, _, e7) = >>=-eq-ok (or_failed (system.stat real_path)) _ e6 in
    let (same, stays) = contained_in-eq real_root linked e5 in
    (
      joined,
      real_root,
      e0,
      or_open_error-eq _ e8 ∙ ap ok (sym same ∙ ground arith),
      or_failed-eq _ e2,
      subst (λ p. Under real_root (clean p)) (sym same ∙ ground arith)
          (Under-rel real_root linked stays),
    )

-- Every byte that is served is of the file to which the links lead from the path that the identifier
-- is joined to, and this file lies under the one to which the links lead from the root.
pub open_identifier-Under :
    (system : System) (f : FileOpener) (identifier : Bytes) {opened : Bytes × Meta}
    → open_identifier system f identifier ≡ ok opened
    → (path : Bytes) × (system.open_file path ≡ ok opened.0) × IsResolved system f identifier path
unfolding open_identifier with_meta
open_identifier-Under system f identifier e =
    let (found, e1, e2) = >>=-eq-ok (resolve_meta system f identifier) _ e in
    let (body, e3, e4) = >>=-eq-ok (or_open_error (system.open_file found.0)) _ e2 in
    (found.0, or_open_error-eq _ e3 ∙ ground arith, resolve_meta-IsResolved system f identifier e1)
