-- ===== src/Keys/Injective.antt =====
-- Two accepted image requests share a cache key only if they are the same request.
use triplet.Common.{
  ◌≡◌, refl, sym, ap, ap₂, ◌∙◌, ◌≢◌, List, [], ◌∷◌, ◌++◌, ok, arith, Result, length, length-append,
  append_assoc,
}
use triplet.Common.Int.{ℤ, pos, negsuc}
use triplet.Floats.{FloatOps}
use triplet.Text.{Bytes, codes, split, join}
use triplet.Text
use triplet.Text.Cut.{split-append_any, join-split}
use triplet.Text.Decimal.{IsNumeral}
use triplet.Parse.{slash}
use triplet.Parse.Types.{Request, Kind, Size, SizeKind}
use triplet.Parse.Operations.{parse_region, parse_size, parse_rotation}
use triplet.Parse.{parse_quality_format}
use triplet.Parse.Safety.{IsImageRequest, IsSizeOf, IsDim}
use triplet.Names.{size_text, size_text_of, operations_text}
use triplet.Names.Regions.{parse-region_text}
use triplet.Names.RoundTrip.{parse-size_text, parse-rotation_text, parse-quality_format}
use triplet.Handler.Canonical.{ReadsBack, segments, split-operations_text}
use triplet.Keys.{itoa, ftoa, derivative_key, region_string, size_string, rotation_string}

cons_eq {ℓ} : {A : Type ℓ} (x y : A) (xs ys : List A) → x ∷ xs ≡ y ∷ ys → (x ≡ y) × (xs ≡ ys)
cons_eq x y xs ys e = (cc, cc)

append_same_length :
    (xs ys us vs : List Bytes) → length us ≡ length vs → xs ++ us ≡ ys ++ vs → (xs ≡ ys) × (us ≡ vs)
append_same_length [] [] us vs n e = (refl, e)
append_same_length [] (y ∷ ys) us vs n e =
    absurd (omega (arith, ap length e, length-append (y ∷ ys) vs))
append_same_length (x ∷ xs) [] us vs n e =
    absurd (omega (arith, ap length e, length-append (x ∷ xs) us))
append_same_length (x ∷ xs) (y ∷ ys) us vs n e =
    let (head, rest) = cons_eq x y (xs ++ us) (ys ++ vs) e in
    let (tail, last) = append_same_length xs ys us vs n rest in (ap₂ (λ c r. c ∷ r) head tail, last)

same_result : {E A : Type 0} (r : Result E A) (a b : A) → r ≡ ok a → r ≡ ok b → a ≡ b
same_result r a b p q = cc

-- The two formatters of integers differ at the least int64 only.
itoa_dim : (n : ℤ) → IsDim n → itoa n ≡ Text.itoa n
unfolding itoa Text.itoa
itoa_dim (pos n) h = refl
itoa_dim (negsuc n) h = absurd (omega arith)

module _ {Float : Type 0} (F : FloatOps Float) where
  size_string-text :
      (k : SizeKind) (s : Size Float)
      → IsSizeOf F k s
      → size_text_of (ftoa F) itoa k s ≡ size_text_of (ftoa F) Text.itoa k s
  unfolding size_text_of
  size_string-text SizeKind.max s h = refl
  size_string-text SizeKind.max_up s h = refl
  size_string-text SizeKind.width s h = rw (itoa_dim s.w h.0)
  size_string-text SizeKind.height s h = rw (itoa_dim s.h h.1)
  size_string-text SizeKind.percent s h = refl
  size_string-text SizeKind.wh s h = rw (itoa_dim s.w h.0, itoa_dim s.h h.1)
  size_string-text SizeKind.best_fit s h = rw (itoa_dim s.w h.0, itoa_dim s.h h.1)

  derivative_key-text :
      (req : Request Float)
      → IsImageRequest F req
      → derivative_key F req
        ≡ codes "iiif/3/" ++ (req.identifier ++ b'/' ∷ operations_text (ftoa F) Text.itoa req)
  unfolding derivative_key operations_text size_text region_string size_string rotation_string
  derivative_key-text req h = rw (size_string-text req.size.kind req.size h.size) refl

module _ {Float : Type 0} (F : FloatOps Float) (numeral : (v : Float) → IsNumeral (ftoa F v))
    (written : (v : Float) → ftoa F v ≢ []) where
  -- The last four segments of the key and what stands before them.
  split-key :
      (req : Request Float)
      → IsImageRequest F req
      → split (derivative_key F req) slash
        ≡ split (codes "iiif/3/" ++ req.identifier) slash ++ segments F (ftoa F) numeral written req
  split-key req h =
      ap (λ k. split k slash)
        (derivative_key-text F req h ∙ sym (append_assoc (codes "iiif/3/") req.identifier _))
      ∙ split-append_any (codes "iiif/3/" ++ req.identifier) slash _
      ∙ ap (λ ps. split (codes "iiif/3/" ++ req.identifier) slash ++ ps)
          (split-operations_text F (ftoa F) numeral written req h)

  -- Equal segments are parsed to equal requests.
  segments_injective :
      (a b : Request Float)
      → a.kind ≡ b.kind
      → a.identifier ≡ b.identifier
      → IsImageRequest F a
      → IsImageRequest F b
      → ReadsBack F (ftoa F) numeral written a
      → ReadsBack F (ftoa F) numeral written b
      → segments F (ftoa F) numeral written a ≡ segments F (ftoa F) numeral written b
      → a ≡ b
  segments_injective a b kinds ids ha hb ra rb e =
      let (r, e1) = cons_eq _ _ _ _ e in
      let (s, e2) = cons_eq _ _ _ _ e1 in
      let (o, e3) = cons_eq _ _ _ _ e2 in
      let (q, e4) = cons_eq _ _ _ _ e3 in
      let regions : a.region ≡ b.region =
        same_result _ _ _
          (ap (parse_region F) (sym r)
            ∙ parse-region_text F (ftoa F) numeral a.region.kind a.region refl ha.region ra.region)
          (parse-region_text F (ftoa F) numeral b.region.kind b.region refl hb.region rb.region) in
      let sizes : a.size ≡ b.size =
        same_result _ _ _
          (ap (parse_size F) (sym s)
            ∙ parse-size_text F (ftoa F) numeral written a.size ha.size ra.percent)
          (parse-size_text F (ftoa F) numeral written b.size hb.size rb.percent) in
      let rotations : a.rotation ≡ b.rotation =
        same_result _ _ _
          (ap (parse_rotation F) (sym o)
            ∙ parse-rotation_text F (ftoa F) numeral written a.rotation ha.rotation ra.degrees)
          (parse-rotation_text F (ftoa F) numeral written b.rotation hb.rotation rb.degrees) in
      let names : (a.quality, a.format) ≡ (b.quality, b.format) =
        same_result _ _ _
          (ap parse_quality_format (sym q)
            ∙ parse-quality_format a.quality a.format ha.quality ha.format)
          (parse-quality_format b.quality b.format hb.quality hb.format) in
      λ i. record {
        kind = kinds i;
        identifier = ids i;
        region = regions i;
        size = sizes i;
        rotation = rotations i;
        quality = (names i).0;
        format = (names i).1;
      }

  -- Two image requests that the parser can accept have the same cache key only if they are equal:
  -- identifiers with slashes of their own cannot run into the segments. The formatter is assumed to
  -- write numerals, and to write the floats of both requests so that they are read back.
  pub derivative_key_injective :
      (a b : Request Float)
      → a.kind ≡ Kind.image
      → b.kind ≡ Kind.image
      → IsImageRequest F a
      → IsImageRequest F b
      → ReadsBack F (ftoa F) numeral written a
      → ReadsBack F (ftoa F) numeral written b
      → derivative_key F a ≡ derivative_key F b
      → a ≡ b
  derivative_key_injective a b ka kb ha hb ra rb e =
      let parts = sym (split-key a ha) ∙ ap (λ k. split k slash) e ∙ split-key b hb in
      let (fronts, tails) = append_same_length _ _ _ _ refl parts in
      let whole =
        sym (join-split (codes "iiif/3/" ++ a.identifier) slash)
        ∙ ap (λ ps. join ps slash) fronts
        ∙ join-split (codes "iiif/3/" ++ b.identifier) slash in
      segments_injective a b (ka ∙ sym kb) (drop_prefix whole) ha hb ra rb tails
    where
      drop_prefix :
          codes "iiif/3/" ++ a.identifier ≡ codes "iiif/3/" ++ b.identifier
          → a.identifier ≡ b.identifier
      drop_prefix p = cc p
