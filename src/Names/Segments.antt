-- ===== src/Names/Segments.antt =====
-- The segments that Names writes hold no byte that decoding or cutting would touch.
use triplet.Common.{
  ℕ, ◌≡◌, refl, ◌≢◌, inl, inr, Bool, true, false, List, [], ◌∷◌, ◌++◌, ok, arith, All, All-append,
  if◌then◌else◌,
}
use triplet.Common.Int.{ℤ}
use triplet.Text.{Bytes, codes, itoa, is_numeral_byte, contains_any}
use triplet.Text.Cut.{Lacks}
use triplet.Text.Decimal.{IsNumeral, itoa-IsNumeral}
use triplet.Text.Escape.{path_unescape_of_Lacks}
use triplet.Parse.Types.{Region, RegionKind, Size, SizeKind, Rotation}
use triplet.Parse.Segments.{decode_operation_segment, decode_all, control_or_slash}
use triplet.Parse.Operations.{qualities, formats}
use triplet.Parse.Safety.{IsListed}
use triplet.Names.{four, region_text_of, size_text_of, size_text, rotation_text}

-- No control byte, percent sign or slash.
abbrev pub IsPlain : ℕ → Type 0
IsPlain c = (c ≢ 0) × (c ≢ 10) × (c ≢ 13) × (c ≢ b'%') × (c ≢ b'/')

abbrev pub IsPlainText : Bytes → Type 0
IsPlainText = All IsPlain

plain_numeral : (s : Bytes) → IsNumeral s → IsPlainText s
plain_numeral [] h = tt
plain_numeral (c ∷ s) h = (byte c h.0, plain_numeral s h.1)
  where
    byte : (c : ℕ) → is_numeral_byte c ≡ true → IsPlain c
    byte c k = unfold is_numeral_byte in ground arith

pub plain-Lacks_slash : (s : Bytes) → IsPlainText s → Lacks b'/' s
plain-Lacks_slash [] h = tt
plain-Lacks_slash (c ∷ s) h = (h.0.4, plain-Lacks_slash s h.1)

plain-Lacks_percent : (s : Bytes) → IsPlainText s → Lacks b'%' s
plain-Lacks_percent [] h = tt
plain-Lacks_percent (c ∷ s) h = (h.0.3, plain-Lacks_percent s h.1)

plain_legal : (s : Bytes) → IsPlainText s → contains_any s control_or_slash ≡ false
unfolding contains_any
plain_legal [] h = refl
plain_legal (c ∷ s) h = ground (arith, plain_legal s)

pub decode_plain : (s : Bytes) → IsPlainText s → decode_operation_segment s ≡ ok s
unfolding decode_operation_segment
decode_plain s h =
    rw (path_unescape_of_Lacks s (plain-Lacks_percent s h), decode_operation_segment)
      (rw (plain_legal s h) refl)

pub decode_all-plain : (ss : List Bytes) → All IsPlainText ss → decode_all ss ≡ ok ss
unfolding decode_all
decode_all-plain [] h = refl
decode_all-plain (s ∷ ss) h = rw (decode_plain s h.0, decode_all-plain ss h.1) refl

pub plain_listed :
    (vs : List Bytes) (s : Bytes) → All IsPlainText vs → IsListed vs s → IsPlainText s
plain_listed [] s h k = elim k [ ]
plain_listed (v ∷ vs) s h (inl e) = rw e h.0
plain_listed (v ∷ vs) s h (inr k) = plain_listed vs s h.1 k

pub plain_quality_format :
    (q f : Bytes) → IsListed qualities q → IsListed formats f → IsPlainText (q ++ b'.' ∷ f)
plain_quality_format q f hq hf =
    All-append IsPlain q (b'.' ∷ f) (plain_listed qualities q (omega arith) hq)
      (omega arith, plain_listed formats f (omega arith) hf)

module _ {Float : Type 0} (ftoa : Float → Bytes) (numeral : (v : Float) → IsNumeral (ftoa v)) where
  number : (v : Float) → IsPlainText (ftoa v)
  number v = plain_numeral (ftoa v) (numeral v)

  integer : (n : ℤ) → IsPlainText (itoa n)
  integer n = plain_numeral (itoa n) (itoa-IsNumeral n)

  -- Two pieces of plain text with a comma between them.
  comma : (s t : Bytes) → IsPlainText s → IsPlainText t → IsPlainText (s ++ b',' ∷ t)
  comma s t h k = All-append IsPlain s (b',' ∷ t) h (omega arith, k)

  plain_four : (r : Region Float) → IsPlainText (four ftoa r)
  unfolding four
  plain_four r =
      comma _ _ (number r.x) (comma _ _ (number r.y) (comma _ _ (number r.w) (number r.h)))

  pub plain_region : (k : RegionKind) (r : Region Float) → IsPlainText (region_text_of ftoa k r)
  unfolding region_text_of
  plain_region RegionKind.full r = omega arith
  plain_region RegionKind.square r = omega arith
  plain_region RegionKind.pixels r = plain_four r
  plain_region RegionKind.percent r =
      All-append IsPlain (codes "pct:") _ (omega arith) (plain_four r)

  plain_size_of : (k : SizeKind) (s : Size Float) → IsPlainText (size_text_of ftoa itoa k s)
  unfolding size_text_of
  plain_size_of SizeKind.max s = omega arith
  plain_size_of SizeKind.max_up s = omega arith
  plain_size_of SizeKind.width s = comma (itoa s.w) [] (integer s.w) tt
  plain_size_of SizeKind.height s = (omega arith, integer s.h)
  plain_size_of SizeKind.wh s = comma (itoa s.w) (itoa s.h) (integer s.w) (integer s.h)
  plain_size_of SizeKind.best_fit s =
      (omega arith, comma (itoa s.w) (itoa s.h) (integer s.w) (integer s.h))
  plain_size_of SizeKind.percent s =
      All-append IsPlain (codes "pct:") _ (omega arith) (number s.percent)

  flagged :
      (b : Bool) (c : ℕ) (t : Bytes)
      → IsPlain c
      → IsPlainText t
      → IsPlainText ((if b then c ∷ [] else []) ++ t)
  flagged true c t h k = (h, k)
  flagged false c t h k = k

  pub plain_size : (s : Size Float) → IsPlainText (size_text ftoa itoa s)
  unfolding size_text
  plain_size s = flagged s.upscale b'^' _ (omega arith) (plain_size_of s.kind s)

  pub plain_rotation : (r : Rotation Float) → IsPlainText (rotation_text ftoa r)
  unfolding rotation_text
  plain_rotation r = flagged r.mirror b'!' _ (omega arith) (number r.degrees)
