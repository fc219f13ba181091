-- ===== src/Parse/Operations.antt =====
-- The parsers of the region, size, rotation, quality and format segments.
use triplet.Common.{
  ℕ, Bool, true, false, ◌&&◌, ◌||◌, not, List, [], ◌∷◌, Option, none, some, Result, ok, err,
  if◌then◌else◌,
}
use triplet.Common.Int.{ℤ, pos, ltb_ℤ}
use triplet.Floats.{FloatOps}
use triplet.Text.{Bytes, codes, bytes_eq, has_prefix, trim_prefix, cut_prefix, split, atoi}
use triplet.Parse.Types.{Region, RegionKind, Size, SizeKind, Rotation, Quality, Format, SyntaxError}

abbrev pub max_parsed_dimension : ℤ
max_parsed_dimension = pos 1_000_000

abbrev pub max_parsed_percent : ℤ
max_parsed_percent = pos 10_000

abbrev comma : ℕ
comma = b','

-- `if a > b` at integers.
abbrev gtb_ℤ : ℤ → ℤ → Bool
gtb_ℤ a b = ltb_ℤ b a

-- `none` is the error of `strconv.Atoi`, "must be > 0" or "must be <= 1000000".
unfoldable pub parse_pos_int : Bytes → Option ℤ
parse_pos_int s = elim (atoi s) [
  | none ↦ none
  | some v ↦ if ltb_ℤ v (pos 1) then none else if gtb_ℤ v max_parsed_dimension then none else some v
]

unfoldable pub parse_dims : Bytes → Bytes → Option (ℤ × ℤ)
parse_dims w h = elim (parse_pos_int w) [
  | none ↦ none
  | some wi ↦ elim (parse_pos_int h) [ none ↦ none | some hi ↦ some (wi, hi) ]
]

module _ {Float : Type 0} (F : FloatOps Float) where
  abbrev pub region_full : Region Float
  region_full = record { kind = RegionKind.full; x = F.zero; y = F.zero; w = F.zero; h = F.zero }

  abbrev pub size_max : Size Float
  size_max = record { kind = SizeKind.max; w = pos 0; h = pos 0; percent = F.zero; upscale = false }

  abbrev pub no_rotation : Rotation Float
  no_rotation = record { degrees = F.zero; mirror = false }

  -- The loop over the four values.
  unfoldable pub parse_floats : List Bytes → Option (List Float)
  parse_floats [] = some []
  parse_floats (p ∷ ps) = elim (F.parse_float p) [
    | none ↦ none
    | some v ↦ elim (parse_floats ps) [ none ↦ none | some vs ↦ some (v ∷ vs) ]
  ]

  abbrev hundred : Float
  hundred = F.of_int (pos 100)

  -- The checks on the four values, in the order of the code.
  unfoldable pub check_region : Bytes → Bool → (x y w h : Float) → Result SyntaxError (Region Float)
  check_region s pct x y w h =
      if F.le w F.zero || F.le h F.zero
      then err (SyntaxError.region_extent s)
      else if F.lt x F.zero || F.lt y F.zero
      then err (SyntaxError.region_origin s)
      else if pct && (F.lt hundred x || F.lt hundred y || F.lt hundred w || F.lt hundred h)
      then err (SyntaxError.region_percent s)
      else ok record {
        kind = if pct then RegionKind.percent else RegionKind.pixels;
        x = x;
        y = y;
        w = w;
        h = h;
      }

  -- `len(parts) != 4`, then the values.
  unfoldable pub region_of_parts : Bytes → Bool → List Bytes → Result SyntaxError (Region Float)
  region_of_parts s pct (a ∷ b ∷ c ∷ d ∷ []) = elim (parse_floats (a ∷ b ∷ c ∷ d ∷ [])) [
    | some (x ∷ y ∷ w ∷ h ∷ []) ↦ check_region s pct x y w h
    | _ ↦ err (SyntaxError.region_number s)
  ]
  region_of_parts s pct _ = err (SyntaxError.region_count s)

  unfoldable pub parse_region : Bytes → Result SyntaxError (Region Float)
  unfolding region_of_parts
  parse_region s =
      if bytes_eq s []
      then err SyntaxError.empty_region
      else if bytes_eq s (codes "full")
      then ok region_full
      else if bytes_eq s (codes "square")
      then ok (record region_full { kind = RegionKind.square })
      else region_of_parts s (has_prefix s (codes "pct:"))
          (split (trim_prefix s (codes "pct:")) comma)

  unfoldable pub size_percent : Bool → Bytes → Result SyntaxError (Size Float)
  size_percent upscale digits = elim (F.parse_float digits) [
    | none ↦ err (SyntaxError.size_percent digits)
    | some v ↦
        if F.le v F.zero
        then err (SyntaxError.size_percent digits)
        else if F.lt (F.of_int max_parsed_percent) v
        then err (SyntaxError.size_percent_max digits)
        else ok
            record { kind = SizeKind.percent; w = pos 0; h = pos 0; percent = v; upscale = upscale }
  ]

  abbrev pub sized : SizeKind → ℤ → ℤ → Bool → Size Float
  sized kind w h upscale = record { kind = kind; w = w; h = h; percent = F.zero; upscale = upscale }

  -- An exact `w,h` or a best fit `!w,h`.
  unfoldable pub size_both : SizeKind → Bool → Bytes → Bytes → Result SyntaxError (Size Float)
  size_both kind upscale w h = elim (parse_dims w h) [
    | none ↦ err (SyntaxError.size_number w)
    | some d ↦ ok (sized kind d.0 d.1 upscale)
  ]

  -- The `switch` on which of `w` and `h` is empty.
  unfoldable pub size_of_dims : Bool → Bytes → Bytes → Result SyntaxError (Size Float)
  unfolding size_both
  size_of_dims upscale w h =
      if not (bytes_eq w []) && bytes_eq h []
      then elim (parse_pos_int w) [
        | none ↦ err (SyntaxError.size_number w)
        | some wi ↦ ok (sized SizeKind.width wi (pos 0) upscale)
      ]
      else if bytes_eq w [] && not (bytes_eq h [])
      then elim (parse_pos_int h) [
        | none ↦ err (SyntaxError.size_number h)
        | some hi ↦ ok (sized SizeKind.height (pos 0) hi upscale)
      ]
      else if not (bytes_eq w []) && not (bytes_eq h [])
      then size_both SizeKind.wh upscale w h
      else err SyntaxError.size_unspecified

  unfoldable pub size_of_parts : Bytes → Bool → Bool → List Bytes → Result SyntaxError (Size Float)
  unfolding size_of_dims
  size_of_parts s upscale best_fit (w ∷ h ∷ []) =
      if best_fit then size_both SizeKind.best_fit upscale w h else size_of_dims upscale w h
  size_of_parts s upscale best_fit _ = err (SyntaxError.size_parts s)

  -- The body behind an optional `^`.
  unfoldable pub parse_size_body : Bool → Bytes → Result SyntaxError (Size Float)
  unfolding size_of_parts size_percent
  parse_size_body upscale s =
      if bytes_eq s (codes "max")
      then ok (
          if upscale
          then sized SizeKind.max_up (pos 0) (pos 0) true
          else sized SizeKind.max (pos 0) (pos 0) false)
      else elim (cut_prefix s (codes "pct:")) [
        | some digits ↦ size_percent upscale digits
        | none ↦ elim (cut_prefix s (codes "!")) [
          | some dims ↦ size_of_parts dims upscale true (split dims comma)
          | none ↦ size_of_parts s upscale false (split s comma)
        ]
      ]

  unfoldable pub parse_size : Bytes → Result SyntaxError (Size Float)
  unfolding parse_size_body
  parse_size s =
      if bytes_eq s [] then err SyntaxError.empty_size else elim (cut_prefix s (codes "^")) [
        | some body ↦ parse_size_body true body
        | none ↦ parse_size_body false s
      ]

  unfoldable pub rotation_of : Bool → Bytes → Result SyntaxError (Rotation Float)
  rotation_of mirror s = elim (F.parse_float s) [
    | none ↦ err (SyntaxError.rotation_number s)
    | some v ↦
        if F.lt v F.zero || F.lt (F.of_int (pos 360)) v
        then err (SyntaxError.rotation_range s)
        else ok (record { degrees = v; mirror = mirror })
  ]

  unfoldable pub parse_rotation : Bytes → Result SyntaxError (Rotation Float)
  unfolding rotation_of
  parse_rotation s =
      if bytes_eq s [] then err SyntaxError.empty_rotation else elim (cut_prefix s (codes "!")) [
        | some angle ↦ rotation_of true angle
        | none ↦ rotation_of false s
      ]

-- The values that the specification defines.
abbrev pub qualities : List Bytes
qualities = codes "default" ∷ codes "color" ∷ codes "gray" ∷ codes "bitonal" ∷ []

abbrev pub formats : List Bytes
formats =
    codes "jpg"
    ∷ codes "tif"
    ∷ codes "png"
    ∷ codes "gif"
    ∷ codes "jp2"
    ∷ codes "pdf"
    ∷ codes "webp"
    ∷ []

-- A `switch` with one case of several values.
unfoldable pub one_of : List Bytes → Bytes → Bool
one_of [] s = false
one_of (v ∷ vs) s = bytes_eq s v || one_of vs s

unfoldable pub parse_quality : Bytes → Result SyntaxError Quality
unfolding one_of
parse_quality s = if one_of qualities s then ok s else err (SyntaxError.unknown_quality s)

unfoldable pub parse_format : Bytes → Result SyntaxError Format
unfolding one_of
parse_format s = if one_of formats s then ok s else err (SyntaxError.unknown_format s)
