-- ===== src/Handler/Canonical.antt =====
-- The canonical URL of a request parses to that request.
use triplet.Common.{
  ◌≡◌, refl, sym, ap, ◌∙◌, ◌≢◌, false, List, [], ◌∷◌, ◌++◌, some, ok, arith, All, Result,
}
use triplet.Floats.{FloatOps}
use triplet.Text.{
  Bytes, codes, itoa, bytes_eq, contains_byte, split, join, trim_prefix, path_unescape,
  contains_any, last_index_byte,
}
use triplet.Text.Cut.{
  bytes_eq_of_ne, bytes_eq_of_contains, contains_byte-append, split-append, split_of_Lacks,
  prefix_of_some, cut_prefix-append,
}
use triplet.Text.Decimal.{IsNumeral}
use triplet.Text.Escape.{AreBytes, unescape_nil, unescape-escape, escape-Lacks_slash}
use triplet.Parse.{parse, parse_parts, parse_image, parse_quality_format, slash}
use triplet.Parse.Types.{Request, Kind, Quality, Format, SyntaxError}
use triplet.Parse.Segments.{decode_identifier, control}
use triplet.Parse.Operations.{parse_quality, qualities, formats}
use triplet.Parse.Safety.{IsImageRequest, IsIdentifier, IsListed}
use triplet.Names.{
  region_text_of, size_text, rotation_text, operations_text, escape_identifier_path_segment,
}
use triplet.Names.Regions.{ReadsRegion, parse-region_text}
use triplet.Names.RoundTrip.{parse-size_text, parse-rotation_text, parse-quality_format}
use triplet.Names.Segments.{
  IsPlainText, plain-Lacks_slash, decode_all-plain, plain_region, plain_size, plain_rotation,
  plain_quality_format,
}
use triplet.Handler.Urls.{canonical_path, canonical_image_url}

legal_identifier :
    (id : Bytes) → All (λ c. (c ≢ 0) × (c ≢ 10) × (c ≢ 13)) id → contains_any id control ≡ false
unfolding contains_any
legal_identifier [] h = refl
legal_identifier (c ∷ id) h = ground (arith, legal_identifier id)

some_eq : (s t : Bytes) → some s ≡ some t → s ≡ t
some_eq s t e = cc

escape-ne-nil : (id : Bytes) → id ≢ [] → AreBytes id → escape_identifier_path_segment id ≢ []
unfolding escape_identifier_path_segment
escape-ne-nil id ne h e =
    ne (some_eq id [] (sym (unescape-escape id h) ∙ (ap path_unescape e ∙ unescape_nil)))

decode-escape :
    (id : Bytes)
    → IsIdentifier id
    → AreBytes id
    → decode_identifier (escape_identifier_path_segment id) ≡ ok id
unfolding decode_identifier escape_identifier_path_segment
decode-escape id h bytes =
    rw
      (
        bytes_eq_of_ne _ [] (unfold escape_identifier_path_segment in escape-ne-nil id h.0 bytes),
        unescape-escape id bytes,
        legal_identifier id h.1,
      )
      refl

-- No quality and format spell `info.json`.
not_info :
    (q f : Bytes)
    → IsListed qualities q
    → IsListed formats f
    → bytes_eq (q ++ b'.' ∷ f) (codes "info.json") ≡ false
not_info q f hq hf =
    bytes_eq_of_ne _ _ λ e. clash (sym (parse-quality_format q f hq hf) ∙ ap parse_quality_format e)
  where
    clash :
        Path
          (Result SyntaxError (Quality × Format))
          (ok (q, f))
          (parse_quality_format (codes "info.json"))
        → ⊥
    clash e =
        unfold parse_quality_format last_index_byte parse_quality bytes_eq in ground (arith, e)

module _ {Float : Type 0} (F : FloatOps Float) (ftoa : Float → Bytes)
    (numeral : (v : Float) → IsNumeral (ftoa v)) (written : (v : Float) → ftoa v ≢ []) where
  -- The text of each float of the request is read back as that float.
  pub record ReadsBack (req : Request Float) : Type 0 where
    pub region : ReadsRegion F ftoa numeral req.region
    pub percent : F.parse_float (ftoa req.size.percent) ≡ some req.size.percent
    pub degrees : F.parse_float (ftoa req.rotation.degrees) ≡ some req.rotation.degrees

  abbrev pub segments : Request Float → List Bytes
  segments req =
      region_text_of ftoa req.region.kind req.region
      ∷ size_text ftoa itoa req.size
      ∷ rotation_text ftoa req.rotation
      ∷ (req.quality ++ b'.' ∷ req.format)
      ∷ []

  segments-plain : (req : Request Float) → IsImageRequest F req → All IsPlainText (segments req)
  segments-plain req h = (
    plain_region ftoa numeral req.region.kind req.region,
    (
      plain_size ftoa numeral req.size,
      (
        plain_rotation ftoa numeral req.rotation,
        (plain_quality_format req.quality req.format h.quality h.format, tt),
      ),
    ),
  )

  pub split-operations_text :
      (req : Request Float)
      → IsImageRequest F req
      → split (operations_text ftoa itoa req) slash ≡ segments req
  unfolding operations_text
  split-operations_text req h =
      let (r, (s, (o, (q, _)))) = segments-plain req h in
      rw
        (
          split-append _ slash _ (plain-Lacks_slash _ r),
          split-append _ slash _ (plain-Lacks_slash _ s),
          split-append _ slash _ (plain-Lacks_slash _ o),
          split_of_Lacks _ slash (plain-Lacks_slash _ q),
        )
        refl

  parse_image-segments :
      (esc : Bytes) (req : Request Float)
      → decode_identifier esc ≡ ok req.identifier
      → req.kind ≡ Kind.image
      → IsImageRequest F req
      → ReadsBack req
      → parse_image F (esc ∷ segments req) ≡ ok req
  unfolding parse_image join
  parse_image-segments esc req decoded k h reads =
      rw
        (
          decoded,
          decode_all-plain (segments req) (segments-plain req h),
          parse-region_text F ftoa numeral req.region.kind req.region refl h.region reads.region,
          parse-size_text F ftoa numeral written req.size h.size reads.percent,
          parse-rotation_text F ftoa numeral written req.rotation h.rotation reads.degrees,
          parse-quality_format req.quality req.format h.quality h.format,
        )
        (ap (λ kind. ok (record req { kind = kind })) (sym k))

  parse_parts-segments :
      (rest esc : Bytes) (req : Request Float)
      → decode_identifier esc ≡ ok req.identifier
      → req.kind ≡ Kind.image
      → IsImageRequest F req
      → ReadsBack req
      → parse_parts F rest (esc ∷ segments req) ≡ ok req
  unfolding parse_parts
  parse_parts-segments rest esc req decoded k h reads =
      rw
        (
          not_info req.quality req.format h.quality h.format,
          contains_byte-append req.quality b'.' req.format,
        )
        (parse_image-segments esc req decoded k h reads)

  -- The path of a request behind the prefix, as the handler writes it.
  abbrev path_of : Request Float → Bytes
  path_of req =
      b'/' ∷ (escape_identifier_path_segment req.identifier ++ b'/' ∷ operations_text ftoa itoa req)

  pub parse-path_of :
      (req : Request Float)
      → req.kind ≡ Kind.image
      → IsImageRequest F req
      → AreBytes req.identifier
      → ReadsBack req
      → parse F (path_of req) ≡ ok req
  unfolding parse
  parse-path_of req k h bytes reads =
      let esc : Bytes = escape_identifier_path_segment req.identifier in
      let rest : Bytes = esc ++ b'/' ∷ operations_text ftoa itoa req in
      let trimmed =
        (prefix_of_some (path_of req) (codes "/") rest (cut_prefix-append (codes "/") rest)).1 in
      rw
        (
          trimmed,
          bytes_eq_of_contains rest [] b'/' (contains_byte-append esc b'/' _)
              (unfold contains_byte in refl),
          split-append esc slash _
              (unfold escape_identifier_path_segment in escape-Lacks_slash req.identifier bytes),
          split-operations_text req h,
        )
        (parse_parts-segments rest esc req (decode-escape req.identifier h.identifier bytes) k h
          reads)

module _ {Float : Type 0} (F : FloatOps Float) (numeral : (v : Float) → IsNumeral (F.format_f v))
    (written : (v : Float) → F.format_f v ≢ []) where
  -- The `rel="canonical"` URL of an image request that the parser can accept, requested from the
  -- handler behind its prefix, is parsed to the same request: identifier, region, size, rotation,
  -- quality and format. The formatter of floats is assumed to write numerals, and to write the
  -- request's own floats so that they are read back.
  pub parse-canonical_path :
      (prefix : Bytes) (req : Request Float)
      → req.kind ≡ Kind.image
      → IsImageRequest F req
      → AreBytes req.identifier
      → ReadsBack F F.format_f numeral written req
      → parse F (trim_prefix (canonical_image_url F [] prefix req) prefix) ≡ ok req
  unfolding canonical_image_url
  parse-canonical_path prefix req k h bytes reads =
      rw ((prefix_of_some _ prefix _ (cut_prefix-append prefix (canonical_path F req))).1)
        (parse-path_of F F.format_f numeral written req k h bytes reads)
