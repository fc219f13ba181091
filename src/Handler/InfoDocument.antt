-- ===== src/Handler/InfoDocument.antt =====
-- internal/iiif/image/v3/types/info.go: the info document of an image. Widths and heights are those
-- of an image that is open: positive int64.
use native.Mathlib.Nat.{div-eq_of_lt, pow-suc}
use triplet.Common.{
  ℕ, zero, suc, ◌*◌, ◌/◌, ◌^◌, ◌<◌, ◌≤◌, ◌≡◌, refl, ap, inl, inr, false, Option, none, some, List,
  [], ◌∷◌, arith, ltb, Bool-cases, if◌then◌else◌,
}
use triplet.Common.Int.{ℤ, pos, ltb_ℤ}
use triplet.Text.{Bytes, codes}
use mathlib.Core.Option

pub record Limits : Type 0 where
  pub max_area : ℤ
  pub max_width : ℤ
  pub max_height : ℤ

-- `Info`, with the fields that are always the same in one.
pub record Info : Type 0 where
  pub id : Bytes
  pub width : ℕ
  pub height : ℕ
  pub tile_width : ℕ
  pub scale_factors : List ℕ
  pub max_area : Option ℤ
  pub max_width : Option ℤ
  pub max_height : Option ℤ
  pub profile : Bytes
  pub extra_qualities : List Bytes
  pub extra_formats : List Bytes
  pub extra_features : List Bytes

abbrev pub level2_features : List Bytes
level2_features =
    codes "baseUriRedirect"
    ∷ codes "canonicalLinkHeader"
    ∷ codes "cors"
    ∷ codes "jsonldMediaType"
    ∷ codes "mirroring"
    ∷ codes "profileLinkHeader"
    ∷ codes "regionByPct"
    ∷ codes "regionByPx"
    ∷ codes "regionSquare"
    ∷ codes "rotationArbitrary"
    ∷ codes "rotationBy90s"
    ∷ codes "sizeByConfinedWh"
    ∷ codes "sizeByH"
    ∷ codes "sizeByPct"
    ∷ codes "sizeByW"
    ∷ codes "sizeByWh"
    ∷ codes "sizeUpscaling"
    ∷ []

abbrev pub level2_qualities : List Bytes
level2_qualities = codes "color" ∷ codes "gray" ∷ codes "bitonal" ∷ codes "default" ∷ []

abbrev pub level2_formats : List Bytes
level2_formats =
    codes "jpg"
    ∷ codes "png"
    ∷ codes "gif"
    ∷ codes "webp"
    ∷ codes "tif"
    ∷ codes "jp2"
    ∷ codes "pdf"
    ∷ []

-- The loop of `pyramidScaleFactors`; `none` is that the fuel ran out.
unfoldable pub scale_factors_from : (fuel max tile f : ℕ) → Option (List ℕ)
scale_factors_from zero max tile f = none
scale_factors_from (suc fuel) max tile f =
    let rest = Option.map (λ fs. f ∷ fs) (scale_factors_from fuel max tile (f * 2)) in
    if ltb tile (max / f) then rest else some []

abbrev pub larger : ℕ → ℕ → ℕ
larger width height = if ltb width height then height else width

-- `pyramidScaleFactors`, with fuel for any int64.
unfoldable pub pyramid_scale_factors : (width height tile : ℕ) → Option (List ℕ)
unfolding scale_factors_from
pyramid_scale_factors width height tile =
    Option.map (λ fs. 1 ∷ fs) (scale_factors_from 64 (larger width height) tile 2)

abbrev pub if_positive : ℤ → Option ℤ
if_positive limit = if ltb_ℤ (pos 0) limit then some limit else none

-- `BuildLevel2Info`, at the factors of the pyramid.
unfoldable pub build_level2_info : Bytes → (width height : ℕ) → List ℕ → Limits → Info
build_level2_info id width height factors limits = record {
  id = id;
  width = width;
  height = height;
  tile_width = 512;
  scale_factors = factors;
  max_area = if_positive limits.max_area;
  max_width = if_positive limits.max_width;
  max_height = if_positive limits.max_height;
  profile = codes "level2";
  extra_qualities = level2_qualities;
  extra_formats = level2_formats;
  extra_features = level2_features;
}

-- The powers of two from `f` on, as long as the image at that scale is larger than a tile.
abbrev pub IsPyramid : (max tile f : ℕ) → List ℕ → Type 0
IsPyramid max tile f [] = max / f ≤ tile
IsPyramid max tile f (g ∷ gs) = (g ≡ f) × (tile < max / f) × IsPyramid max tile (f * 2) gs

ltb-zero : (tile : ℕ) → ltb tile 0 ≡ false
ltb-zero tile = ground arith

scale_factors_total :
    (fuel max tile f : ℕ)
    → 0 < f
    → max < f * 2 ^ fuel
    → (factors : List ℕ) × (scale_factors_from (suc fuel) max tile f ≡ some factors)
      × IsPyramid max tile f factors
unfolding scale_factors_from
scale_factors_total zero max tile f p h =
    let nothing : max / f ≡ 0 = div-eq_of_lt (omega (arith, h)) in
    ([], rw (nothing, ltb-zero tile) refl, omega (arith, nothing))
scale_factors_total (suc fuel) max tile f p h = elim (Bool-cases (ltb tile (max / f))) [
  | inr covered ↦ ([], rw covered refl, ground arith)
  | inl larger_still ↦
      let (factors, e, shape) =
        scale_factors_total fuel max tile (f * 2) (omega (arith, p)) (doubled f fuel h) in
      (f ∷ factors, rw (larger_still, e) refl, (refl, ground arith, shape))
]
  where
    regrouped : (a p : ℕ) → max < a * (p * 2) → max < a * 2 * p
    regrouped a p q = grind arith

    doubled : (a n : ℕ) → max < a * 2 ^ suc n → max < a * 2 * 2 ^ n
    doubled a n q = regrouped a (2 ^ n) (rw (pow-suc 2 n) at q)

-- The loop ends for every image with sides below 2^63: the scale factors are 1 and the powers of two
-- from 2 on, up to the last at which the larger side is still more than a tile.
pub pyramid_scale_factors_total :
    (width height tile : ℕ)
    → width < 2 ^ 63
    → height < 2 ^ 63
    → (factors : List ℕ) × (pyramid_scale_factors width height tile ≡ some (1 ∷ factors))
      × IsPyramid (larger width height) tile 2 factors
unfolding pyramid_scale_factors
pyramid_scale_factors_total width height tile hw hh =
    let (factors, e, shape) =
      scale_factors_total 63 (larger width height) tile 2 (omega arith) (ground arith) in
    (factors, ap (Option.map (λ fs. 1 ∷ fs)) e, shape)
