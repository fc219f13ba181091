-- ===== src/Parse.antt =====
-- internal/iiif/image/v3/parse/parse.go: a request URL becomes a `Request`, or a syntax error.
pub mod Types
pub mod Segments
pub mod Operations
pub mod Safety
pub mod Unordered
pub mod Sound
pub mod Tests
use triplet.Common.{
  ℕ, ◌+◌, ◌-◌, Bool, true, false, ◌&&◌, ◌||◌, List, [], ◌∷◌, Option, none, some, Result, ok, err,
  ◌>>=◌, ltb, leb, ◌==◌, if◌then◌else◌, length, take, drop, get_or,
}
use triplet.Floats.{FloatOps}
use triplet.Text.{Bytes, codes, bytes_eq, contains_byte, trim_prefix, split, join, last_index_byte}
use Types.{Request, SyntaxError, Quality, Format, Kind}
use Segments.{decode_identifier, decode_all}
use Operations.{
  parse_region, parse_size, parse_rotation, parse_quality, parse_format, region_full, size_max,
  no_rotation,
}

abbrev pub slash : ℕ
slash = b'/'

abbrev pub last : List Bytes → Bytes
last parts = get_or parts (length parts - 1) []

-- The `{quality}.{format}` segment, cut at its last dot.
unfoldable pub parse_quality_format : Bytes → Result SyntaxError (Quality × Format)
parse_quality_format s = elim (last_index_byte s b'.') [
  | none ↦ err (SyntaxError.quality_format s)
  | some dot ↦
      if ltb dot 1 || dot == length s - 1
      then err (SyntaxError.quality_format s)
      else parse_quality (take dot s) >>= λ q. parse_format (drop (dot + 1) s) >>= λ f. ok (q, f)
]

module _ {Float : Type 0} (F : FloatOps Float) where
  -- A `Request` whose other fields have their zero values.
  abbrev pub bare : Kind → Bytes → Request Float
  bare kind id = record {
    kind = kind;
    identifier = id;
    region = region_full F;
    size = size_max F;
    rotation = no_rotation F;
    quality = [];
    format = [];
  }

  abbrev bare_ok : Kind → Bytes → Result SyntaxError (Request Float)
  bare_ok kind id = ok (bare kind id)

  unfoldable pub parse_image : List Bytes → Result SyntaxError (Request Float)
  parse_image parts = do
    id ← decode_identifier (join (take (length parts - 4) parts) slash)
    tail ← decode_all (drop (length parts - 4) parts)
    region ← parse_region F (get_or tail 0 [])
    size ← parse_size F (get_or tail 1 [])
    rotation ← parse_rotation F (get_or tail 2 [])
    qf ← parse_quality_format (get_or tail 3 [])
    ok record {
      kind = Kind.image;
      identifier = id;
      region = region;
      size = size;
      rotation = rotation;
      quality = qf.0;
      format = qf.1;
    }

  -- `Parse` behind the leading slash, with the path cut at its slashes.
  unfoldable pub parse_parts : Bytes → List Bytes → Result SyntaxError (Request Float)
  parse_parts rest parts =
      if leb 2 (length parts) && bytes_eq (last parts) (codes "info.json")
      then decode_identifier (join (take (length parts - 1) parts) slash) >>= bare_ok Kind.info
      else if leb 5 (length parts) && contains_byte (last parts) b'.'
      then parse_image parts
      else if leb 5 (length parts)
      then err (SyntaxError.quality_format (last parts))
      else if length parts == 2
      then err (SyntaxError.not_info (get_or parts 1 []))
      else if ltb 1 (length parts) && ltb (length parts) 5
      then err (SyntaxError.segment_count (length parts))
      else decode_identifier rest >>= bare_ok Kind.base

  unfoldable pub parse : Bytes → Result SyntaxError (Request Float)
  unfolding parse_parts
  parse rest =
      let path = trim_prefix rest (codes "/") in
      if bytes_eq path [] then err SyntaxError.empty_path else parse_parts path (split path slash)
