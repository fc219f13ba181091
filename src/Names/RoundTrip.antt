-- ===== src/Names/RoundTrip.antt =====
-- parse.go reads back the size, the rotation and the last segment that Names writes.
use mathlib.Core.List.{cons-ne-nil}
use native.Mathlib.Numerals.{add-one}
use triplet.Common.{
  ◌<◌, ◌||◌, ◌+◌, ◌-◌, ◌≡◌, refl, ◌∙◌, ◌≢◌, Bool, true, false, List, [], ◌∷◌, ◌++◌, none, some, ok,
  arith, All, inl, inr, if◌then◌else◌, length, length-append, drop, ltb, ◌==◌,
}
use triplet.Floats.{FloatOps}
use triplet.Text.{Bytes, codes, bytes_eq, cut_prefix, itoa, is_numeral_byte}
use triplet.Text.Cut.{
  Lacks, bytes_eq_of_ne, cut_prefix-append, last_index_byte-append, take-append_length,
  drop-append_length, bytes_eq_iff,
}
use triplet.Text.Decimal.{IsNumeral, cut_numeral, cut_numeral_end, itoa-IsNumeral, itoa-ne-nil}
use triplet.Parse.{parse_quality_format}
use triplet.Parse.Types.{Size, SizeKind, Rotation}
use triplet.Parse.Operations.{
  parse_size, parse_size_body, parse_rotation, rotation_of, parse_quality, parse_format, one_of,
  qualities, formats,
}
use triplet.Parse.Safety.{IsSizeOf, IsRotation, IsListed}
use triplet.Names.{size_text_of, size_text, rotation_text}
use triplet.Names.Sizes.{body-width, body-height, body-wh, body-best_fit, body-percent}

one_of_of_IsListed : (vs : List Bytes) (s : Bytes) → IsListed vs s → one_of vs s ≡ true
unfolding one_of
one_of_of_IsListed [] s h = elim h [ ]
one_of_of_IsListed (v ∷ vs) s h = ground (arith, bytes_eq_iff s v, one_of_of_IsListed vs s)

append-ne-nil : (s t : Bytes) → s ≢ [] → s ++ t ≢ []
append-ne-nil [] t h = absurd (h refl)
append-ne-nil (c ∷ s) t h = cons-ne-nil c (s ++ t)

-- What the cut at the last dot needs of the two texts, by the lists of values.
quality_length : (q : Bytes) → IsListed qualities q → 0 < length q
quality_length [] h = absurd (ground arith)
quality_length (c ∷ q) h = omega arith

IsExtension : Bytes → Type 0
IsExtension f = Lacks b'.' f × (0 < length f)

extensions : (fs : List Bytes) → All IsExtension fs → (f : Bytes) → IsListed fs f → IsExtension f
extensions [] h f k = elim k [ ]
extensions (g ∷ fs) h f (inl e) = rw e h.0
extensions (g ∷ fs) h f (inr k) = extensions fs h.1 f k

formats-IsExtension : All IsExtension formats
unfolding IsExtension
formats-IsExtension = omega arith

format_extension : (f : Bytes) → IsListed formats f → Lacks b'.' f × (0 < length f)
format_extension f h = unfold IsExtension in extensions formats formats-IsExtension f h

dot_between :
    (q f : Bytes)
    → 0 < length q
    → 0 < length f
    → (ltb (length q) 1 || length q == length (q ++ b'.' ∷ f) - 1) ≡ false
dot_between q f hq hf = ground (arith, length-append q (b'.' ∷ f))

parse_quality_of : (q : Bytes) → IsListed qualities q → parse_quality q ≡ ok q
unfolding parse_quality
parse_quality_of q h = rw (one_of_of_IsListed qualities q h)

parse_format_of : (f : Bytes) → IsListed formats f → parse_format f ≡ ok f
unfolding parse_format
parse_format_of f h = rw (one_of_of_IsListed formats f h)

drop_dot : (q f : Bytes) → drop (length q + 1) (q ++ b'.' ∷ f) ≡ f
drop_dot q f = rw (add-one (length q)) (drop-append_length q b'.' f)

pub parse-quality_format :
    (q f : Bytes)
    → IsListed qualities q
    → IsListed formats f
    → parse_quality_format (q ++ b'.' ∷ f) ≡ ok (q, f)
unfolding parse_quality_format
parse-quality_format q f hq hf =
    let (no_dot, some_format) = format_extension f hf in
    rw (last_index_byte-append q b'.' f no_dot, parse_quality_format)
      (rw
        (
          dot_between q f (quality_length q hq) some_format,
          take-append_length q (b'.' ∷ f),
          drop_dot q f,
          parse_quality_of q hq,
          parse_format_of f hf,
        )
        refl)

module _ {Float : Type 0} (F : FloatOps Float) (ftoa : Float → Bytes)
    (numeral : (v : Float) → IsNumeral (ftoa v)) (written : (v : Float) → ftoa v ≢ []) where
  body_no_caret :
      (k : SizeKind) (s : Size Float) → cut_prefix (size_text_of ftoa itoa k s) (codes "^") ≡ none
  unfolding size_text_of cut_prefix
  body_no_caret SizeKind.max s = refl
  body_no_caret SizeKind.max_up s = refl
  body_no_caret SizeKind.width s =
      cut_numeral (itoa s.w) b',' [] b'^' [] (itoa-IsNumeral s.w) (unfold is_numeral_byte in refl)
        (λ e. absurd (omega arith))
  body_no_caret SizeKind.height s = refl
  body_no_caret SizeKind.wh s =
      cut_numeral (itoa s.w) b',' (itoa s.h) b'^' [] (itoa-IsNumeral s.w)
        (unfold is_numeral_byte in refl) (λ e. absurd (omega arith))
  body_no_caret SizeKind.best_fit s = refl
  body_no_caret SizeKind.percent s = refl

  body-ne-nil : (k : SizeKind) (s : Size Float) → bytes_eq (size_text_of ftoa itoa k s) [] ≡ false
  unfolding size_text_of bytes_eq
  body-ne-nil SizeKind.max s = refl
  body-ne-nil SizeKind.max_up s = refl
  body-ne-nil SizeKind.width s =
      bytes_eq_of_ne _ [] (λ e. append-ne-nil (itoa s.w) _ (itoa-ne-nil s.w) e)
  body-ne-nil SizeKind.height s = refl
  body-ne-nil SizeKind.wh s =
      bytes_eq_of_ne _ [] (λ e. append-ne-nil (itoa s.w) _ (itoa-ne-nil s.w) e)
  body-ne-nil SizeKind.best_fit s = refl
  body-ne-nil SizeKind.percent s = refl

  parse_body :
      (k : SizeKind) (s : Size Float)
      → s.kind ≡ k
      → IsSizeOf F k s
      → F.parse_float (ftoa s.percent) ≡ some s.percent
      → parse_size_body F s.upscale (size_text_of ftoa itoa k s) ≡ ok s
  unfolding size_text_of
  parse_body SizeKind.max s e h r = unfold parse_size_body bytes_eq in ground arith
  parse_body SizeKind.max_up s e h r = unfold parse_size_body bytes_eq in ground arith
  parse_body SizeKind.width s e h r = body-width F s.upscale s.w h.0 ∙ ground arith
  parse_body SizeKind.height s e h r = body-height F s.upscale s.h h.1 ∙ ground arith
  parse_body SizeKind.wh s e h r = body-wh F s.upscale s.w s.h h.0 h.1 ∙ ground arith
  parse_body SizeKind.best_fit s e h r = body-best_fit F s.upscale s.w s.h h.0 h.1 ∙ ground arith
  parse_body SizeKind.percent s e h r =
      body-percent F s.upscale (ftoa s.percent) s.percent r h.0 h.1 ∙ ground arith

  parse_behind_caret :
      (u : Bool) (body : Bytes)
      → bytes_eq body [] ≡ false
      → cut_prefix body (codes "^") ≡ none
      → parse_size F ((if u then codes "^" else []) ++ body) ≡ parse_size_body F u body
  unfolding parse_size bytes_eq
  parse_behind_caret true body h k = rw (cut_prefix-append (codes "^") body)
  parse_behind_caret false body h k = rw (h, k)

  pub parse-size_text :
      (s : Size Float)
      → IsSizeOf F s.kind s
      → F.parse_float (ftoa s.percent) ≡ some s.percent
      → parse_size F (size_text ftoa itoa s) ≡ ok s
  unfolding size_text
  parse-size_text s h r =
      parse_behind_caret s.upscale (size_text_of ftoa itoa s.kind s) (body-ne-nil s.kind s)
        (body_no_caret s.kind s)
      ∙ parse_body s.kind s refl h r

  behind_bang :
      (m : Bool) (t : Bytes)
      → IsNumeral t
      → t ≢ []
      → parse_rotation F ((if m then codes "!" else []) ++ t) ≡ rotation_of F m t
  unfolding parse_rotation
  behind_bang true t k ne =
      rw (bytes_eq_of_ne (codes "!" ++ t) [] (cons-ne-nil b'!' t), cut_prefix-append (codes "!") t)
        refl
  behind_bang false t k ne =
      rw (bytes_eq_of_ne t [] ne, cut_numeral_end t b'!' [] k (unfold is_numeral_byte in refl)) refl

  rotation_of_self :
      (r : Rotation Float)
      → IsRotation F r
      → F.parse_float (ftoa r.degrees) ≡ some r.degrees
      → rotation_of F r.mirror (ftoa r.degrees) ≡ ok r
  unfolding rotation_of
  rotation_of_self r h e = ground arith

  pub parse-rotation_text :
      (r : Rotation Float)
      → IsRotation F r
      → F.parse_float (ftoa r.degrees) ≡ some r.degrees
      → parse_rotation F (rotation_text ftoa r) ≡ ok r
  unfolding rotation_text
  parse-rotation_text r h e =
      behind_bang r.mirror (ftoa r.degrees) (numeral r.degrees) (written r.degrees)
      ∙ rotation_of_self r h e
