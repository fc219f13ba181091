-- ===== src/Parse/Safety.antt =====
-- What every request that parse.go accepts satisfies.
use triplet.Common.{
  ℕ, ◌≡◌, ◌==◌, ◌&&◌, refl, ◌≢◌, ◌⊎◌, inl, inr, Bool, true, false, List, [], ◌∷◌, Option, none,
  some, ok, err, Bool-cases, Option-cases, arith, All, OnSome, OnOk, if◌then◌else◌,
}
use triplet.Common.Int.{ℤ, pos, ◌≤ℤ◌}
use mathlib.Core.Option
use triplet.Floats.{FloatOps}
use triplet.Text.{Bytes, codes, bytes_eq, contains_any, path_unescape, is_hex, cut_prefix}
use triplet.Text.Cut.{bytes_eq_iff}
use triplet.Parse.Types.{Request, Region, RegionKind, Size, SizeKind, Rotation, SyntaxError}
use triplet.Parse.Segments.{decode_identifier, control}
use triplet.Parse.Operations.{
  parse_region, region_full, check_region, region_of_parts, parse_floats, parse_size,
  parse_size_body, size_percent, size_both, size_of_dims, size_of_parts, parse_pos_int, parse_dims,
  parse_rotation, rotation_of, parse_quality, parse_format, one_of, qualities, formats,
  max_parsed_dimension, max_parsed_percent,
}

-- An identifier that cannot split a header line or end a C string.
abbrev pub IsIdentifier : Bytes → Type 0
IsIdentifier id = (id ≢ []) × All (λ c. (c ≢ 0) × (c ≢ 10) × (c ≢ 13)) id

abbrev pub IsListed : List Bytes → Bytes → Type 0
IsListed [] s = ⊥
IsListed (v ∷ vs) s = (s ≡ v) ⊎ IsListed vs s

-- A dimension in the range that the parser admits.
abbrev pub IsDim : ℤ → Type 0
IsDim n = (pos 1 ≤ℤ n) × (n ≤ℤ max_parsed_dimension)

module _ {Float : Type 0} (F : FloatOps Float) where
  abbrev IsExtent : Float → Type 0
  IsExtent v = F.le v F.zero ≡ false

  abbrev IsAtMost : ℤ → Float → Type 0
  IsAtMost n v = F.lt (F.of_int n) v ≡ false

  abbrev pub IsRectangle : Region Float → Type 0
  IsRectangle r =
      IsExtent r.w × IsExtent r.h × (F.lt r.x F.zero ≡ false) × (F.lt r.y F.zero ≡ false)

  -- What the fields hold, by the kind: those that the kind does not use are zero.
  abbrev pub IsRegionOf : RegionKind → Region Float → Type 0
  IsRegionOf RegionKind.full r = r ≡ region_full F
  IsRegionOf RegionKind.square r = r ≡ record (region_full F) { kind = RegionKind.square }
  IsRegionOf RegionKind.pixels r = IsRectangle r
  IsRegionOf RegionKind.percent r =
      IsRectangle r
      × IsAtMost (pos 100) r.x
      × IsAtMost (pos 100) r.y
      × IsAtMost (pos 100) r.w
      × IsAtMost (pos 100) r.h

  abbrev pub IsRegion : Region Float → Type 0
  IsRegion r = IsRegionOf r.kind r

  abbrev pub IsSizeOf : SizeKind → Size Float → Type 0
  IsSizeOf SizeKind.max s =
      (s.w ≡ pos 0) × (s.h ≡ pos 0) × (s.percent ≡ F.zero) × (s.upscale ≡ false)
  IsSizeOf SizeKind.max_up s =
      (s.w ≡ pos 0) × (s.h ≡ pos 0) × (s.percent ≡ F.zero) × (s.upscale ≡ true)
  IsSizeOf SizeKind.width s = IsDim s.w × (s.h ≡ pos 0) × (s.percent ≡ F.zero)
  IsSizeOf SizeKind.height s = (s.w ≡ pos 0) × IsDim s.h × (s.percent ≡ F.zero)
  IsSizeOf SizeKind.percent s =
      IsExtent s.percent × IsAtMost max_parsed_percent s.percent × (s.w ≡ pos 0) × (s.h ≡ pos 0)
  IsSizeOf SizeKind.wh s = IsDim s.w × IsDim s.h × (s.percent ≡ F.zero)
  IsSizeOf SizeKind.best_fit s = IsDim s.w × IsDim s.h × (s.percent ≡ F.zero)

  abbrev pub IsSize : Size Float → Type 0
  IsSize s = IsSizeOf s.kind s

  abbrev pub IsRotation : Rotation Float → Type 0
  IsRotation r = (F.lt r.degrees F.zero ≡ false) × IsAtMost (pos 360) r.degrees

  pub record IsImageRequest (req : Request Float) : Type 0 where
    pub identifier : IsIdentifier req.identifier
    pub region : IsRegion req.region
    pub size : IsSize req.size
    pub rotation : IsRotation req.rotation
    pub quality : IsListed qualities req.quality
    pub format : IsListed formats req.format

contains_any-control :
    (s : Bytes) → contains_any s control ≡ false → All (λ c. (c ≢ 0) × (c ≢ 10) × (c ≢ 13)) s
unfolding contains_any
contains_any-control [] h = tt
contains_any-control (c ∷ s) h = ground (arith, contains_any-control s)

map_cons-ne-nil : (c : ℕ) (o : Option Bytes) → Option.map (λ r. c ∷ r) o ≢ some []
map_cons-ne-nil c none e = cc
map_cons-ne-nil c (some r) e = cc

path_unescape-ne-nil : (s : Bytes) → s ≢ [] → path_unescape s ≢ some []
unfolding path_unescape
path_unescape-ne-nil [] h e = h refl
path_unescape-ne-nil (c ∷ []) h e = ground arith
path_unescape-ne-nil (c ∷ a ∷ []) h e = ground arith
path_unescape-ne-nil (c ∷ a ∷ b ∷ s) h e = elim (Bool-cases (c == b'%')) [
  | inr plain ↦ map_cons-ne-nil c (path_unescape (a ∷ b ∷ s)) (rw plain at e)
  | inl escape ↦ elim (Bool-cases (is_hex a && is_hex b)) [
    | inl hex ↦ map_cons-ne-nil _ (path_unescape s) (rw escape at (rw hex at e))
    | inr bad ↦ ground arith
  ]
]

pub decode_identifier-IsIdentifier : (s : Bytes) → OnOk IsIdentifier (decode_identifier s)
unfolding decode_identifier bytes_eq
decode_identifier-IsIdentifier [] = tt
decode_identifier-IsIdentifier (c ∷ s) =
    found (path_unescape (c ∷ s)) (path_unescape-ne-nil (c ∷ s) (cc))
  where
    found :
        (o : Option Bytes)
        → o ≢ some []
        → OnOk IsIdentifier (elim o [
          | none ↦ err SyntaxError.identifier_escape
          | some id ↦ if contains_any id control then err SyntaxError.identifier_illegal else ok id
        ])
    found none h = tt
    found (some id) h = ground (arith, contains_any-control id)

pub one_of-IsListed : (vs : List Bytes) (s : Bytes) → one_of vs s ≡ true → IsListed vs s
unfolding one_of
one_of-IsListed [] s h = cc
one_of-IsListed (v ∷ vs) s h = ground (arith, bytes_eq_iff s v, one_of-IsListed vs s)

parse_pos_int-IsDim : (s : Bytes) → OnSome IsDim (parse_pos_int s)
unfolding parse_pos_int
parse_pos_int-IsDim s = ground arith

parse_dims-IsDim : (w h : Bytes) → OnSome (λ d. IsDim d.0 × IsDim d.1) (parse_dims w h)
unfolding parse_dims
parse_dims-IsDim w h = ground (arith, parse_pos_int-IsDim w, parse_pos_int-IsDim h)

module _ {Float : Type 0} (F : FloatOps Float) where
  check_region-IsRegion :
      (s : Bytes) (pct : Bool) (x y w h : Float) → OnOk (IsRegion F) (check_region F s pct x y w h)
  unfolding check_region
  check_region-IsRegion s true x y w h = ground arith
  check_region-IsRegion s false x y w h = ground arith

  region_of_parts-IsRegion :
      (s : Bytes) (pct : Bool) (ps : List Bytes) → OnOk (IsRegion F) (region_of_parts F s pct ps)
  unfolding region_of_parts
  region_of_parts-IsRegion s pct [] = tt
  region_of_parts-IsRegion s pct (a ∷ []) = tt
  region_of_parts-IsRegion s pct (a ∷ b ∷ []) = tt
  region_of_parts-IsRegion s pct (a ∷ b ∷ c ∷ []) = tt
  region_of_parts-IsRegion s pct (a ∷ b ∷ c ∷ d ∷ []) = values (parse_floats F (a ∷ b ∷ c ∷ d ∷ []))
    where
      values :
          (vs : Option (List Float))
          → OnOk (IsRegion F) (elim vs [
            | some (x ∷ y ∷ w ∷ h ∷ []) ↦ check_region F s pct x y w h
            | _ ↦ err (SyntaxError.region_number s)
          ])
      values (some (x ∷ y ∷ w ∷ h ∷ [])) = check_region-IsRegion s pct x y w h
      values _ = tt
  region_of_parts-IsRegion s pct (a ∷ b ∷ c ∷ d ∷ e ∷ ps) = tt

  pub parse_region-IsRegion : (s : Bytes) → OnOk (IsRegion F) (parse_region F s)
  unfolding parse_region
  parse_region-IsRegion s = elim (Bool-cases (bytes_eq s [])) [
    | inl h ↦ rw h tt
    | inr h ↦ elim (Bool-cases (bytes_eq s (codes "full"))) [
      | inl h1 ↦ rw (h, h1) refl
      | inr h1 ↦ elim (Bool-cases (bytes_eq s (codes "square"))) [
        | inl h2 ↦ rw (h, h1, h2) refl
        | inr h2 ↦ rw (h, h1, h2) (region_of_parts-IsRegion s _ _)
      ]
    ]
  ]

  rotation_of-IsRotation : (m : Bool) (s : Bytes) → OnOk (IsRotation F) (rotation_of F m s)
  unfolding rotation_of
  rotation_of-IsRotation m s = ground arith

  pub parse_rotation-IsRotation : (s : Bytes) → OnOk (IsRotation F) (parse_rotation F s)
  unfolding parse_rotation
  parse_rotation-IsRotation s = ground arith

  size_percent-IsSize : (u : Bool) (s : Bytes) → OnOk (IsSize F) (size_percent F u s)
  unfolding size_percent
  size_percent-IsSize u s = ground arith

  size_both-IsSize :
      (k : SizeKind) (u : Bool) (w h : Bytes)
      → (k ≡ SizeKind.wh) ⊎ (k ≡ SizeKind.best_fit)
      → OnOk (IsSize F) (size_both F k u w h)
  unfolding size_both
  size_both-IsSize k u w h k' = ground (arith, parse_dims-IsDim w h)

  size_of_dims-IsSize : (u : Bool) (w h : Bytes) → OnOk (IsSize F) (size_of_dims F u w h)
  unfolding size_of_dims
  size_of_dims-IsSize u w h =
      ground (arith, parse_pos_int-IsDim w, parse_pos_int-IsDim h, parse_dims-IsDim w h)

  size_of_parts-IsSize :
      (s : Bytes) (u fit : Bool) (ps : List Bytes) → OnOk (IsSize F) (size_of_parts F s u fit ps)
  unfolding size_of_parts
  size_of_parts-IsSize s u fit [] = tt
  size_of_parts-IsSize s u fit (w ∷ []) = tt
  size_of_parts-IsSize s u true (w ∷ h ∷ []) = size_both-IsSize SizeKind.best_fit u w h (inr refl)
  size_of_parts-IsSize s u false (w ∷ h ∷ []) = size_of_dims-IsSize u w h
  size_of_parts-IsSize s u fit (w ∷ h ∷ p ∷ ps) = tt

  parse_size_body-IsSize : (u : Bool) (s : Bytes) → OnOk (IsSize F) (parse_size_body F u s)
  unfolding parse_size_body
  parse_size_body-IsSize u s = elim (Bool-cases (bytes_eq s (codes "max"))) [
    | inl h ↦ elim (Bool-cases u) [
      | inl up ↦ rw (h, up) (refl, refl, refl, refl)
      | inr plain ↦ rw (h, plain) (refl, refl, refl, refl)
    ]
    | inr h ↦ elim (Option-cases (cut_prefix s (codes "pct:"))) [
      | inr (d, h1) ↦ rw (h, h1) (size_percent-IsSize u d)
      | inl h1 ↦ elim (Option-cases (cut_prefix s (codes "!"))) [
        | inr (d, h2) ↦ rw (h, h1, h2) (size_of_parts-IsSize d u true _)
        | inl h2 ↦ rw (h, h1, h2) (size_of_parts-IsSize s u false _)
      ]
    ]
  ]

  pub parse_size-IsSize : (s : Bytes) → OnOk (IsSize F) (parse_size F s)
  unfolding parse_size
  parse_size-IsSize s = elim (Bool-cases (bytes_eq s [])) [
    | inl h ↦ rw h tt
    | inr h ↦ elim (Option-cases (cut_prefix s (codes "^"))) [
      | inr (d, h2) ↦ rw (h, h2) (parse_size_body-IsSize true d)
      | inl h2 ↦ rw (h, h2) (parse_size_body-IsSize false s)
    ]
  ]

pub parse_quality-IsListed : (s : Bytes) → OnOk (IsListed qualities) (parse_quality s)
unfolding parse_quality
parse_quality-IsListed s = ground (arith, one_of-IsListed qualities s)

pub parse_format-IsListed : (s : Bytes) → OnOk (IsListed formats) (parse_format s)
unfolding parse_format
parse_format-IsListed s = ground (arith, one_of-IsListed formats s)
