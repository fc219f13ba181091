-- ===== src/Pipeline/Inside.antt =====
-- The boxes and sizes that the geometry of the pipeline answers stay within the image.
use native.Mathlib.Nat.{le-div_iff_mul-le}
use triplet.Common.{
  ℕ, zero, suc, ◌+◌, ◌-◌, ◌*◌, ◌≤◌, ◌<◌, ◌≡◌, refl, ◌⊎◌, inl, inr, false, none, some, ok, err,
  arith, OnOk, ltb, if◌then◌else◌, Bool-cases,
}
use triplet.Common.Int.{ℤ, pos, negsuc, ◌≤ℤ◌, ◌+ℤ◌, ◌-ℤ◌}
use triplet.Floats.{FloatOps}
use triplet.Parse.Types.{Size, SizeKind}
use triplet.Pipeline.{
  Box, GeometryError, clip, max1, clamp_int, scale_side, choose_page, choose_jp2_page, resolve_size,
  size_of_kind, check_source_pixels, scaled, best_fit,
}
use triplet.Pipeline.Wrap.{half64, full64, wrap64, add64, sub64, div64}

add64_pos : (a b : ℕ) → a + b < half64 → add64 (pos a) (pos b) ≡ pos (a + b)
unfolding add64 wrap64 ◌+ℤ◌
add64_pos a b h = ground arith

add64_over :
    (a b : ℕ)
    → a < half64
    → b < half64
    → half64 ≤ a + b
    → add64 (pos a) (pos b) ≡ negsuc (full64 - 1 - (a + b))
unfolding add64 wrap64 ◌+ℤ◌
add64_over a b ha hb h = ground arith

sub64_pos : (a b : ℕ) → b ≤ a → a < half64 → sub64 (pos a) (pos b) ≡ pos (a - b)
unfolding sub64 wrap64 ◌-ℤ◌
sub64_pos a b h k = ground arith

abbrev natural_box : (l t w h : ℕ) → Box
natural_box l t w h = record { left = pos l; top = pos t; width = pos w; height = pos h }

-- The smaller of a length and what is left of the side.
abbrev pub within : (side start length : ℕ) → ℕ
within side start length = if ltb side (start + length) then side - start else length

-- A box with no negative number, whose ends are int64, is cut off at the ends of the source, or
-- refused where it starts outside the source or has an empty side.
pub clip-within :
    (l t w h src_w src_h : ℕ)
    → l + w < half64
    → t + h < half64
    → src_w < half64
    → src_h < half64
    → ((l < src_w)
        × (t < src_h)
        × (0 < w)
        × (0 < h)
        × (clip (natural_box l t w h) (pos src_w) (pos src_h)
            ≡ ok (natural_box l t (within src_w l w) (within src_h t h))))
      ⊎ (((src_w ≤ l) ⊎ (src_h ≤ t))
          × (clip (natural_box l t w h) (pos src_w) (pos src_h) ≡ err GeometryError.outside))
      ⊎ (((w ≡ 0) ⊎ (h ≡ 0))
          × (clip (natural_box l t w h) (pos src_w) (pos src_h) ≡ err GeometryError.empty_region))
unfolding clip
clip-within l t w h src_w src_h right bottom iw ih =
    let r = add64_pos l w right in
    let b = add64_pos t h bottom in
    let x = sub64_pos src_w l in let y = sub64_pos src_h t in ground (arith, r, b, x, y)

-- A box whose right end is no int64 keeps its width where it starts inside the source.
pub clip_overflow :
    (l t w h src_w src_h : ℕ)
    → l < half64
    → w < half64
    → half64 ≤ l + w
    → t + h < half64
    → src_w < half64
    → src_h < half64
    → l < src_w
    → t < src_h
    → 0 < h
    → clip (natural_box l t w h) (pos src_w) (pos src_h) ≡ ok (natural_box l t w (within src_h t h))
unfolding clip
clip_overflow l t w h src_w src_h il iw over bottom isw ish inside_l inside_t h0 =
    let r = add64_over l w il iw over in
    let b = add64_pos t h bottom in let y = sub64_pos src_h t in ground (arith, r, b, y)

-- A start clamped to 0 .. page - 1.
clamp_low : (v : ℤ) (high : ℕ) → (l : ℕ) × (clamp_int v (pos 0) (pos high) ≡ pos l) × (l ≤ high)
unfolding clamp_int
clamp_low (pos n) high = elim (Bool-cases (ltb high n)) [
  | inl over ↦ (high, ground arith, omega arith)
  | inr under ↦ (n, ground arith, ground arith)
]
clamp_low (negsuc n) high = (0, ground arith, omega arith)

clamp_high :
    (v : ℤ) (low high : ℕ)
    → low ≤ high
    → (r : ℕ) × (clamp_int v (pos low) (pos high) ≡ pos r) × (low ≤ r) × (r ≤ high)
unfolding clamp_int
clamp_high (pos n) low high h = elim (Bool-cases (ltb n low)) [
  | inl under ↦ (low, ground arith, omega arith, omega arith)
  | inr above ↦ elim (Bool-cases (ltb high n)) [
    | inl over ↦ (high, ground arith, omega arith, omega arith)
    | inr inside ↦ (n, ground arith, ground arith, ground arith)
  ]
]
clamp_high (negsuc n) low high h = (low, ground arith, omega arith, omega arith)

module _ {Float : Type 0} (F : FloatOps Float) where
  -- Whatever the floats compute, the side of a region on a smaller page starts on the page, is not
  -- empty and ends on the page.
  scale_side_inside :
      (start side full : ℤ) (page : ℕ)
      → 0 < page
      → page < half64
      → (low : ℕ) × (length : ℕ) × (scale_side F start side full (pos page) ≡ (pos low, pos length))
        × (0 < length)
        × (low + length ≤ page)
  unfolding scale_side
  scale_side_inside start side full page h k =
      let scale = F.div (F.of_int (pos page)) (F.of_int full) in
      let from = F.to_int (F.floor (F.mul (F.of_int start) scale)) in
      let to = F.to_int (F.ceil (F.mul (F.of_int (add64 start side)) scale)) in
      let one = sub64_pos page 1 h k in
      let (low, is_low, low_le) = clamp_low from (page - 1) in
      let next = add64_pos low 1 (omega arith) in
      let (high, is_high, above, below) = clamp_high to (low + 1) page (omega arith) in
      let rest = sub64_pos high low (omega arith) (omega arith) in
      (low, high - low, rw (one, is_low, next, is_high, rest) refl, omega arith, omega arith)

  -- The page that the loop ends with is the one it started with, or one that it passed, whose
  -- reduction is not above the shrink.
  choose_page_lem :
      (shrink : Float) (rounds candidate page : ℕ)
      → (choose_page F shrink rounds candidate page ≡ page)
        ⊎ ((candidate ≤ choose_page F shrink rounds candidate page)
            × (choose_page F shrink rounds candidate page < candidate + rounds)
            × (F.lt shrink (F.ldexp1 (pos (choose_page F shrink rounds candidate page))) ≡ false))
  unfolding choose_page
  choose_page_lem shrink zero candidate page = inl refl
  choose_page_lem shrink (suc rounds) candidate page =
      elim (Bool-cases (F.lt shrink (F.ldexp1 (pos candidate)))) [
        | inl above ↦ inl (rw above refl)
        | inr fits ↦ inr (elim (choose_page_lem shrink rounds (candidate + 1) candidate) [
          | inl same ↦ rw fits (rw same (omega arith, omega arith, fits))
          | inr (least, most, ok_shrink) ↦ rw fits (omega arith, omega arith, ok_shrink)
        ])
      ]

  -- The JP2 page that is chosen is one of the source's, and it is the full one, or one whose
  -- reduction by 2 ^ page is not above the shrink that is asked for.
  pub choose_jp2_page_fits :
      (pages : ℕ) (region_w region_h out_w out_h : ℤ)
      → (choose_jp2_page F pages region_w region_h out_w out_h ≡ 0)
        ⊎ ((choose_jp2_page F pages region_w region_h out_w out_h < pages)
            × (F.lt
                  (F.minimum
                    (F.div (F.of_int region_w) (F.of_int out_w))
                    (F.div (F.of_int region_h) (F.of_int out_h)))
                  (F.ldexp1 (pos (choose_jp2_page F pages region_w region_h out_w out_h)))
                ≡ false))
  unfolding choose_jp2_page
  choose_jp2_page_fits pages region_w region_h out_w out_h =
      let shrink =
        F.minimum (F.div (F.of_int region_w) (F.of_int out_w))
          (F.div (F.of_int region_h) (F.of_int out_h)) in
      let loop = choose_page_lem shrink (pages - 1) 1 0 in ground (arith, loop)

  -- Both sides are at least 1.
  abbrev pub IsSized : ℤ × ℤ → Type 0
  IsSized (w, h) = (pos 1 ≤ℤ w) × (pos 1 ≤ℤ h)

  -- The sides that a kind of size asks for.
  abbrev pub IsAsked : SizeKind → Size Float → Type 0
  IsAsked SizeKind.width s = pos 1 ≤ℤ s.w
  IsAsked SizeKind.height s = pos 1 ≤ℤ s.h
  IsAsked SizeKind.wh s = (pos 1 ≤ℤ s.w) × (pos 1 ≤ℤ s.h)
  IsAsked _ s = Unit

  max1_positive : (v : ℤ) → pos 1 ≤ℤ max1 v
  unfolding max1
  max1_positive (pos n) = ground arith
  max1_positive (negsuc n) = ground arith

  size_of_kind-IsSized :
      (k : SizeKind) (s : Size Float) (region_w region_h : ℤ)
      → pos 1 ≤ℤ region_w
      → pos 1 ≤ℤ region_h
      → IsAsked k s
      → OnOk IsSized (size_of_kind F k s region_w region_h)
  unfolding size_of_kind
  size_of_kind-IsSized SizeKind.max s rw_ rh hw hh asked = (hw, hh)
  size_of_kind-IsSized SizeKind.max_up s rw_ rh hw hh asked = (hw, hh)
  size_of_kind-IsSized SizeKind.width s rw_ rh hw hh asked =
      ground (arith, max1_positive (scaled F s.w rh rw_))
  size_of_kind-IsSized SizeKind.height s rw_ rh hw hh asked =
      ground (arith, max1_positive (scaled F s.h rw_ rh))
  size_of_kind-IsSized SizeKind.percent s rw_ rh hw hh asked =
      let scale = F.div s.percent (F.of_int (pos 100)) in
      ground (
        arith,
        max1_positive (F.to_int (F.round (F.mul (F.of_int rw_) scale))),
        max1_positive (F.to_int (F.round (F.mul (F.of_int rh) scale))),
      )
  size_of_kind-IsSized SizeKind.wh s rw_ rh hw hh asked = ground arith
  size_of_kind-IsSized SizeKind.best_fit s rw_ rh hw hh asked =
      let fit = best_fit F s.w s.h rw_ rh in
      ground (arith, max1_positive fit.0, max1_positive fit.1)

  -- A size that is resolved for a region with sides of at least 1 has sides of at least 1, if the
  -- sides that are asked for are, whatever the floats compute.
  pub resolve_size-IsSized :
      (s : Size Float) (region_w region_h : ℤ)
      → pos 1 ≤ℤ region_w
      → pos 1 ≤ℤ region_h
      → IsAsked s.kind s
      → OnOk IsSized (resolve_size F s region_w region_h)
  unfolding resolve_size
  resolve_size-IsSized s region_w region_h w h asked =
      size_of_kind-IsSized s.kind s region_w region_h w h asked

-- A source with sides of at least 1 passes a positive limit exactly if it has no more pixels; a
-- side that is 0 is an error.
pub check_source_pixels_exact :
    (width height max_pixels : ℕ)
    → 0 < max_pixels
    → ((0 < width)
        × (0 < height)
        × (width * height ≤ max_pixels)
        × (check_source_pixels (pos width) (pos height) (pos max_pixels) ≡ none))
      ⊎ ((0 < width)
          × (0 < height)
          × (max_pixels < width * height)
          × (check_source_pixels (pos width) (pos height) (pos max_pixels)
              ≡ some GeometryError.source_pixels))
      ⊎ (((width ≡ 0) ⊎ (height ≡ 0))
          × (check_source_pixels (pos width) (pos height) (pos max_pixels)
              ≡ some GeometryError.invalid_source))
unfolding check_source_pixels div64
check_source_pixels_exact width zero max_pixels h = inr (inr (inr refl, ground arith))
check_source_pixels_exact width (suc height) max_pixels h =
    let div = le-div_iff_mul-le {k = suc height} {x = width} {y = max_pixels} (omega arith) in
    ground (arith, div.0, div.1)
