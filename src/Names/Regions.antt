-- ===== src/Names/Regions.antt =====
-- parse.go reads back the region that Names writes.
use triplet.Common.{
  ◌≡◌, refl, Bool, true, false, [], ◌∷◌, ◌++◌, none, some, ok, arith, if◌then◌else◌,
}
use triplet.Floats.{FloatOps}
use triplet.Text.{Bytes, codes, bytes_eq, contains_byte, cut_prefix, split, is_numeral_byte}
use triplet.Text.Cut.{
  Lacks, bytes_eq_of_contains, contains_byte-append, split_of_Lacks, split-append,
  cut_prefix-append, prefix_of_none, prefix_of_some,
}
use triplet.Text.Decimal.{IsNumeral, IsNumeral-Lacks, cut_numeral}
use triplet.Parse.Types.{Region, RegionKind}
use triplet.Parse.Operations.{parse_region, region_of_parts, check_region, parse_floats}
use triplet.Parse.Safety.{IsRegionOf}
use triplet.Names.{four, region_text_of}

module _ {Float : Type 0} (F : FloatOps Float) (ftoa : Float → Bytes)
    (numeral : (v : Float) → IsNumeral (ftoa v)) where
  -- The text of a float is read back as that float.
  abbrev pub Reads : Float → Type 0
  Reads v = F.parse_float (ftoa v) ≡ some v

  abbrev pub ReadsRegion : Region Float → Type 0
  ReadsRegion r = Reads r.x × Reads r.y × Reads r.w × Reads r.h

  ftoa-Lacks_comma : (v : Float) → Lacks b',' (ftoa v)
  ftoa-Lacks_comma v = IsNumeral-Lacks (ftoa v) b',' (unfold is_numeral_byte in refl) (numeral v)

  split-four :
      (r : Region Float) → split (four ftoa r) b',' ≡ ftoa r.x ∷ ftoa r.y ∷ ftoa r.w ∷ ftoa r.h ∷ []
  unfolding four
  split-four r = rw (
    split-append (ftoa r.x) b',' _ (ftoa-Lacks_comma r.x),
    split-append (ftoa r.y) b',' _ (ftoa-Lacks_comma r.y),
    split-append (ftoa r.w) b',' _ (ftoa-Lacks_comma r.w),
    split_of_Lacks (ftoa r.h) b',' (ftoa-Lacks_comma r.h),
  )

  four-ne :
      (r : Region Float) (t : Bytes)
      → contains_byte t b',' ≡ false
      → bytes_eq (four ftoa r) t ≡ false
  unfolding four
  four-ne r t h = bytes_eq_of_contains _ t b',' (contains_byte-append (ftoa r.x) b',' _) h

  parse_floats-four :
      (r : Region Float)
      → ReadsRegion r
      → parse_floats F (ftoa r.x ∷ ftoa r.y ∷ ftoa r.w ∷ ftoa r.h ∷ [])
        ≡ some (r.x ∷ r.y ∷ r.w ∷ r.h ∷ [])
  unfolding parse_floats
  parse_floats-four r (x, y, w, h) =
      rw (x, parse_floats) (rw (y, parse_floats) (rw (w, parse_floats) (rw (h, parse_floats) refl)))

  cut-four : (r : Region Float) → cut_prefix (four ftoa r) (codes "pct:") ≡ none
  unfolding four
  cut-four r =
      cut_numeral (ftoa r.x) b',' _ b'p' _ (numeral r.x) (unfold is_numeral_byte in refl)
        (λ e. absurd (omega arith))

  region_of_four :
      (s : Bytes) (pct : Bool) (r : Region Float)
      → ReadsRegion r
      → region_of_parts F s pct (split (four ftoa r) b',') ≡ check_region F s pct r.x r.y r.w r.h
  unfolding region_of_parts
  region_of_four s pct r reads =
      rw (split-four r) (rw (parse_floats-four r reads, region_of_parts) refl)

  check_region_of :
      (s : Bytes) (r : Region Float) (pct : Bool)
      → r.kind ≡ (if pct then RegionKind.percent else RegionKind.pixels)
      → IsRegionOf F (if pct then RegionKind.percent else RegionKind.pixels) r
      → check_region F s pct r.x r.y r.w r.h ≡ ok r
  unfolding check_region
  check_region_of s r true e h = ground arith
  check_region_of s r false e h = ground arith

  parse-pixels :
      (r : Region Float)
      → r.kind ≡ RegionKind.pixels
      → IsRegionOf F RegionKind.pixels r
      → ReadsRegion r
      → parse_region F (four ftoa r) ≡ ok r
  unfolding parse_region
  parse-pixels r e h reads =
      let (no_prefix, whole) = prefix_of_none (four ftoa r) (codes "pct:") (cut-four r) in
      rw
        (
          four-ne r [] (unfold contains_byte in refl),
          four-ne r (codes "full") (unfold contains_byte in refl),
          four-ne r (codes "square") (unfold contains_byte in refl),
          no_prefix,
          whole,
          region_of_four _ false r reads,
        )
        (check_region_of _ r false e h)

  parse-percent :
      (r : Region Float)
      → r.kind ≡ RegionKind.percent
      → IsRegionOf F RegionKind.percent r
      → ReadsRegion r
      → parse_region F (codes "pct:" ++ four ftoa r) ≡ ok r
  unfolding parse_region bytes_eq
  parse-percent r e h reads =
      let text : Bytes = codes "pct:" ++ four ftoa r in
      let (prefixed, body) =
        prefix_of_some text (codes "pct:") (four ftoa r)
          (cut_prefix-append (codes "pct:") (four ftoa r)) in
      rw (prefixed, body, region_of_four _ true r reads) (check_region_of _ r true e h)

  pub parse-region_text :
      (k : RegionKind) (r : Region Float)
      → r.kind ≡ k
      → IsRegionOf F k r
      → ReadsRegion r
      → parse_region F (region_text_of ftoa k r) ≡ ok r
  unfolding parse_region region_text_of
  parse-region_text RegionKind.full r e h reads = unfold bytes_eq in rw h refl
  parse-region_text RegionKind.square r e h reads = unfold bytes_eq in rw h refl
  parse-region_text RegionKind.pixels r e h reads = parse-pixels r e h reads
  parse-region_text RegionKind.percent r e h reads = parse-percent r e h reads
