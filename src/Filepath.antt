-- ===== src/Filepath.antt =====
-- Go's `path/filepath` on rooted slash-separated paths, as internal/storage and
-- internal/iiif/presentation/v3/store use it. A path is its bytes; `elements` are its names.
pub mod Contained
use triplet.Common.{ℕ, Bool, true, false, ◌&&◌, ◌||◌, not, List, [], ◌∷◌, ◌++◌, map, if◌then◌else◌}
use triplet.Text.{Bytes, codes, bytes_eq, split, join, has_prefix}

abbrev pub separator : ℕ
separator = b'/'

abbrev pub dot_dot : Bytes
dot_dot = codes ".."

abbrev pub drop_last : List Bytes → List Bytes
drop_last [] = []
drop_last (p ∷ []) = []
drop_last (p ∷ q ∷ ps) = p ∷ drop_last (q ∷ ps)

-- The names so far after one more element: `.` and an empty one are dropped, `..` goes up.
unfoldable pub enter : List Bytes → Bytes → List Bytes
enter names p =
    if bytes_eq p [] || bytes_eq p (codes ".")
    then names
    else if bytes_eq p dot_dot
    then drop_last names
    else names ++ p ∷ []

unfoldable pub resolve : List Bytes → List Bytes → List Bytes
resolve names [] = names
resolve names (p ∷ ps) = resolve (enter names p) ps

unfoldable pub elements : Bytes → List Bytes
elements path = resolve [] (split path separator)

-- The rooted path of the names.
abbrev pub rooted : List Bytes → Bytes
rooted names = separator ∷ join names separator

-- `filepath.Clean(path)` of a rooted path.
unfoldable pub clean : Bytes → Bytes
unfolding elements
clean path = rooted (elements path)

-- `filepath.Join(root, path)` for a rooted root.
unfoldable pub join_path : Bytes → Bytes → Bytes
unfolding clean
join_path root path = clean (root ++ separator ∷ path)

unfoldable pub rel_names : List Bytes → List Bytes → List Bytes
rel_names [] names = names
rel_names (b ∷ bs) [] = map (λ _. dot_dot) (b ∷ bs)
rel_names (b ∷ bs) (t ∷ ts) =
    let deeper = rel_names bs ts in
    if bytes_eq b t then deeper else map (λ _. dot_dot) (b ∷ bs) ++ t ∷ ts

abbrev pub rel_text : List Bytes → Bytes
rel_text [] = codes "."
rel_text (p ∷ ps) = join (p ∷ ps) separator

-- `filepath.Rel(base, target)` of rooted paths, for which it has no error.
unfoldable pub rel : Bytes → Bytes → Bytes
unfolding elements rel_names
rel base target = rel_text (rel_names (elements base) (elements target))

-- `rel == ".." || strings.HasPrefix(rel, "../")`.
unfoldable pub escapes : Bytes → Bool
escapes path = bytes_eq path dot_dot || has_prefix path (codes "../")
