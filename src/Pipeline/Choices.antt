-- ===== src/Pipeline/Choices.antt =====
-- What the pipeline chooses by options and names: the access to the source, and the JP2 loader.
use triplet.Common.{Bool, true, false, ◌||◌, not, [], ◌∷◌, List, if◌then◌else◌, ◌==◌, map}
use triplet.Floats.{FloatOps}
use triplet.Text.{Bytes, codes, bytes_eq, contains, lower, trim_space}
use triplet.FileStore.Paths.{ext}
use triplet.Parse.Types.{RegionKind, Request}

pub data Access : Type 0 where
  sequential random : Access

abbrev is_boxed : RegionKind → Bool
is_boxed RegionKind.pixels = true
is_boxed RegionKind.percent = true
is_boxed _ = false

module _ {Float : Type 0} (F : FloatOps Float) where
  -- `loadAccess`, by the option of that name.
  unfoldable pub load_access : Bytes → Request Float → Access
  load_access option req =
      if bytes_eq option (codes "sequential")
      then Access.sequential
      else if bytes_eq option (codes "random")
      then Access.random
      else if is_boxed req.region.kind
      then Access.random
      else if req.rotation.mirror || not (F.eq req.rotation.degrees F.zero)
      then Access.random
      else Access.sequential

-- The path before the first `?` or `#`.
unfoldable pub before_query : Bytes → Bytes
before_query [] = []
before_query (c ∷ s) = let rest = before_query s in if c == b'?' || c == b'#' then [] else c ∷ rest

abbrev pub jp2_extensions : List Bytes
jp2_extensions =
    codes ".jp2"
    ∷ codes ".j2k"
    ∷ codes ".j2c"
    ∷ codes ".jpf"
    ∷ codes ".jpx"
    ∷ codes ".jpm"
    ∷ codes ".mj2"
    ∷ []

unfoldable pub is_listed : List Bytes → Bytes → Bool
is_listed [] s = false
is_listed (x ∷ xs) s = bytes_eq s x || is_listed xs s

-- `isJP2Source`, for text in ASCII: `strings.ToLower` also maps the letters of other alphabets.
unfoldable pub is_jp2_source : (identifier content_type : Bytes) → Bool
unfolding before_query is_listed
is_jp2_source identifier content_type =
    let ct = map lower (trim_space content_type) in
    if contains ct (codes "jp2")
      || (contains ct (codes "jpeg2000") || contains ct (codes "jpeg-2000"))
    then true
    else is_listed jp2_extensions (map lower (ext (before_query identifier)))
