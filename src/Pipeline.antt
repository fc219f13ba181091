-- ===== src/Pipeline.antt =====
-- internal/iiif/image/v3/pipeline/pipeline.go: the numbers of a transformation. An `int` is an int64
-- whose sums wrap; floats are a parameter.
pub mod Wrap
pub mod Inside
pub mod Choices
pub mod Pdf
pub mod Tests
use triplet.Common.{
  ℕ, zero, suc, ◌+◌, ◌-◌, ◌*◌, ◌<◌, Bool, true, false, ◌&&◌, ◌||◌, not, Option, none, some, Result,
  ok, err, [], ltb, leb, if◌then◌else◌,
}
use triplet.Common.Int.{ℤ, pos, negsuc, ltb_ℤ, ◌+ℤ◌, ◌-ℤ◌}
use triplet.Floats.{FloatOps}
use triplet.Text.{Bytes, codes, bytes_eq, contains, contains_any, lower, trim_space, cut_prefix}
use triplet.Parse.Types.{Region, RegionKind, Size, SizeKind, Request}
use Wrap.{add64, sub64, div64}

pub data GeometryError : Type 0 where
  outside empty_region width_exceeds height_exceeds percent_exceeds dims_exceed fit_exceeds
        invalid_source source_pixels :
      GeometryError

pub record Box : Type 0 where
  pub left : ℤ
  pub top : ℤ
  pub width : ℤ
  pub height : ℤ

-- The end of `resolveRegion`: a box within the source.
unfoldable pub clip : Box → (src_w src_h : ℤ) → Result GeometryError Box
unfolding add64 sub64
clip b src_w src_h =
    if not (ltb_ℤ b.left src_w) || not (ltb_ℤ b.top src_h)
    then err GeometryError.outside
    else let w = if ltb_ℤ src_w (add64 b.left b.width) then sub64 src_w b.left else b.width in
      let h = if ltb_ℤ src_h (add64 b.top b.height) then sub64 src_h b.top else b.height in
      if not (ltb_ℤ (pos 0) w) || not (ltb_ℤ (pos 0) h)
      then err GeometryError.empty_region
      else ok (record b { width = w; height = h })

unfoldable pub max1 : ℤ → ℤ
max1 v = if ltb_ℤ v (pos 1) then pos 1 else v

unfoldable pub clamp_int : (v low high : ℤ) → ℤ
clamp_int v low high = if ltb_ℤ v low then low else if ltb_ℤ high v then high else v

-- `CheckSourcePixels`: the error, if any.
unfoldable pub check_source_pixels : (width height max_pixels : ℤ) → Option GeometryError
unfolding div64
check_source_pixels width height max_pixels =
    if not (ltb_ℤ (pos 0) max_pixels)
    then none
    else if not (ltb_ℤ (pos 0) width) || not (ltb_ℤ (pos 0) height)
    then some GeometryError.invalid_source
    else if ltb_ℤ (div64 max_pixels height) width
    then some GeometryError.source_pixels
    else none

module _ {Float : Type 0} (F : FloatOps Float) where
  -- `int(math.Round(share / 100 * float64(side)))`.
  unfoldable pub percent_of : Float → ℤ → Float → ℤ
  percent_of share side hundred = F.to_int (F.round (F.mul (F.div share hundred) (F.of_int side)))

  unfoldable pub square_box : (src_w src_h : ℤ) → Box
  unfolding div64 sub64
  square_box src_w src_h =
      let side = if ltb_ℤ src_h src_w then src_h else src_w in
      record {
        left = div64 (sub64 src_w side) (pos 2);
        top = div64 (sub64 src_h side) (pos 2);
        width = side;
        height = side;
      }

  unfoldable pub region_box :
      RegionKind → Region Float → (src_w src_h : ℤ) → Result GeometryError Box
  unfolding clip percent_of square_box
  region_box RegionKind.full r src_w src_h =
      ok (record { left = pos 0; top = pos 0; width = src_w; height = src_h })
  region_box RegionKind.square r src_w src_h = ok (square_box src_w src_h)
  region_box RegionKind.pixels r src_w src_h =
      clip
        (record {
          left = F.to_int r.x;
          top = F.to_int r.y;
          width = F.to_int r.w;
          height = F.to_int r.h;
        })
        src_w src_h
  region_box RegionKind.percent r src_w src_h =
      let hundred = F.of_int (pos 100) in
      clip
        (record {
          left = percent_of r.x src_w hundred;
          top = percent_of r.y src_h hundred;
          width = percent_of r.w src_w hundred;
          height = percent_of r.h src_h hundred;
        })
        src_w src_h

  -- `resolveRegion`.
  unfoldable pub resolve_region : Region Float → (src_w src_h : ℤ) → Result GeometryError Box
  unfolding region_box
  resolve_region r src_w src_h = region_box r.kind r src_w src_h

  -- `int(math.Round(float64(side) * float64(of) / float64(by)))`.
  unfoldable pub scaled : (side of_side by : ℤ) → ℤ
  scaled side of_side by =
      F.to_int (F.round (F.div (F.mul (F.of_int side) (F.of_int of_side)) (F.of_int by)))

  -- The largest size of the region's shape within the requested one.
  unfoldable pub best_fit : (want_w want_h region_w region_h : ℤ) → ℤ × ℤ
  best_fit want_w want_h region_w region_h =
      let shape = F.div (F.of_int region_w) (F.of_int region_h) in
      let h = F.to_int (F.round (F.div (F.of_int want_w) shape)) in
      if ltb_ℤ want_h h
      then (F.to_int (F.round (F.mul (F.of_int want_h) shape)), want_h)
      else (want_w, h)

  unfoldable pub size_of_kind :
      SizeKind → Size Float → (region_w region_h : ℤ) → Result GeometryError (ℤ × ℤ)
  unfolding max1 scaled best_fit
  size_of_kind SizeKind.max s region_w region_h = ok (region_w, region_h)
  size_of_kind SizeKind.max_up s region_w region_h = ok (region_w, region_h)
  size_of_kind SizeKind.width s region_w region_h =
      if not s.upscale && ltb_ℤ region_w s.w
      then err GeometryError.width_exceeds
      else ok (s.w, max1 (scaled s.w region_h region_w))
  size_of_kind SizeKind.height s region_w region_h =
      if not s.upscale && ltb_ℤ region_h s.h
      then err GeometryError.height_exceeds
      else ok (max1 (scaled s.h region_w region_h), s.h)
  size_of_kind SizeKind.percent s region_w region_h =
      let scale = F.div s.percent (F.of_int (pos 100)) in
      if not s.upscale && F.lt (F.of_int (pos 1)) scale
      then err GeometryError.percent_exceeds
      else ok (
        max1 (F.to_int (F.round (F.mul (F.of_int region_w) scale))),
        max1 (F.to_int (F.round (F.mul (F.of_int region_h) scale))),
      )
  size_of_kind SizeKind.wh s region_w region_h =
      if not s.upscale && (ltb_ℤ region_w s.w || ltb_ℤ region_h s.h)
      then err GeometryError.dims_exceed
      else ok (s.w, s.h)
  size_of_kind SizeKind.best_fit s region_w region_h =
      let (w, h) = best_fit s.w s.h region_w region_h in
      if not s.upscale && (ltb_ℤ region_w w || ltb_ℤ region_h h)
      then err GeometryError.fit_exceeds
      else ok (max1 w, max1 h)

  -- `resolveSize`.
  unfoldable pub resolve_size : Size Float → (region_w region_h : ℤ) → Result GeometryError (ℤ × ℤ)
  unfolding size_of_kind
  resolve_size s region_w region_h = size_of_kind s.kind s region_w region_h

  -- One side of `scaleRegionToLoadedPage`: the start, and the length.
  unfoldable pub scale_side : (start side full page : ℤ) → ℤ × ℤ
  unfolding clamp_int add64 sub64
  scale_side start side full page =
      let scale = F.div (F.of_int page) (F.of_int full) in
      let low =
        clamp_int (F.to_int (F.floor (F.mul (F.of_int start) scale))) (pos 0)
          (sub64 page (pos 1)) in
      let high =
        clamp_int (F.to_int (F.ceil (F.mul (F.of_int (add64 start side)) scale)))
          (add64 low (pos 1)) page in
      (low, sub64 high low)

  -- `scaleRegionToLoadedPage`.
  unfoldable pub scale_region_to_loaded_page : Box → (full_w full_h page_w page_h : ℤ) → Box
  unfolding scale_side
  scale_region_to_loaded_page b full_w full_h page_w page_h =
      if not (ltb_ℤ (pos 0) full_w)
        || not (ltb_ℤ (pos 0) full_h)
        || (not (ltb_ℤ (pos 0) page_w) || not (ltb_ℤ (pos 0) page_h))
      then b
      else let (left, width) = scale_side b.left b.width full_w page_w in
        let (top, height) = scale_side b.top b.height full_h page_h in
        record { left = left; top = top; width = width; height = height }

  -- The loop of `chooseJP2Page` over the candidates that are left.
  unfoldable pub choose_page : Float → (rounds candidate page : ℕ) → ℕ
  choose_page shrink zero candidate page = page
  choose_page shrink (suc rounds) candidate page =
      let rest = choose_page shrink rounds (candidate + 1) candidate in
      if F.lt shrink (F.ldexp1 (pos candidate)) then page else rest

  -- `chooseJP2Page`, for a number of pages that is not negative.
  unfoldable pub choose_jp2_page : ℕ → (region_w region_h out_w out_h : ℤ) → ℕ
  unfolding choose_page
  choose_jp2_page pages region_w region_h out_w out_h =
      if leb pages 1
        || (not (ltb_ℤ (pos 0) region_w) || not (ltb_ℤ (pos 0) region_h))
        || (not (ltb_ℤ (pos 0) out_w) || not (ltb_ℤ (pos 0) out_h))
      then 0
      else let shrink =
          F.minimum (F.div (F.of_int region_w) (F.of_int out_w))
            (F.div (F.of_int region_h) (F.of_int out_h)) in
        if F.lt shrink (F.of_int (pos 2)) then 0 else choose_page shrink (pages - 1) 1 0
