-- ===== src/Parse/Sound.antt =====
-- The whole of `Parse`: what each kind of accepted request looks like.
use triplet.Common.{
  ◌-◌, ◌+◌, ◌≡◌, refl, inl, inr, ◌||◌, List, ok, ◌>>=◌, Bool-cases, Option-cases, arith, OnOk,
  OnOk-bind, OnOk-elim, OnOk-any, length, take, drop, ltb, ◌==◌,
}
use triplet.Floats.{FloatOps}
use triplet.Text.{Bytes, codes, last_index_byte, trim_prefix, split, join}
use triplet.Parse.{parse, parse_parts, parse_image, parse_quality_format, bare, bare_ok, slash}
use triplet.Parse.Types.{Kind, Request, Quality, Format}
use triplet.Parse.Segments.{decode_identifier, decode_all}
use triplet.Parse.Operations.{
  parse_region, parse_size, parse_rotation, parse_quality, parse_format, qualities, formats,
}
use triplet.Parse.Safety.{
  IsIdentifier, IsListed, IsImageRequest, decode_identifier-IsIdentifier, parse_region-IsRegion,
  parse_size-IsSize, parse_rotation-IsRotation, parse_quality-IsListed, parse_format-IsListed,
}

parse_quality_format-IsListed :
    (s : Bytes)
    → OnOk
        (λ (qf : Quality × Format). IsListed qualities qf.0 × IsListed formats qf.1)
        (parse_quality_format s)
unfolding parse_quality_format
parse_quality_format-IsListed s = elim (Option-cases (last_index_byte s b'.')) [
  | inl e ↦ rw (e, parse_quality_format) tt
  | inr (dot, e) ↦ elim (Bool-cases (ltb dot 1 || dot == length s - 1)) [
    | inl h ↦ rw (e, parse_quality_format) (rw h tt)
    | inr h ↦
        rw (e, parse_quality_format)
          (rw h (
            OnOk-bind _ _ (parse_quality (take dot s)) _ (parse_quality-IsListed (take dot s))
              (λ q hq.
                OnOk-bind _ _ (parse_format (drop (dot + 1) s)) _
                  (parse_format-IsListed (drop (dot + 1) s)) (λ f hf. (hq, hf)))))
  ]
]

module _ {Float : Type 0} (F : FloatOps Float) where
  -- An image request that the specification allows; the other two kinds carry an identifier only.
  abbrev IsRequestOf : Kind → Request Float → Type 0
  IsRequestOf Kind.image req = IsImageRequest F req
  IsRequestOf Kind.info req = IsIdentifier req.identifier × (req ≡ bare F Kind.info req.identifier)
  IsRequestOf Kind.base req = IsIdentifier req.identifier × (req ≡ bare F Kind.base req.identifier)

  abbrev pub IsRequest : Request Float → Type 0
  IsRequest req = IsRequestOf req.kind req

  parse_image-IsRequest : (parts : List Bytes) → OnOk IsRequest (parse_image F parts)
  unfolding parse_image
  parse_image-IsRequest parts =
      OnOk-bind _ _ (decode_identifier _) _ (decode_identifier-IsIdentifier _) λ id h.
        OnOk-bind _ _ (decode_all (drop (length parts - 4) parts)) _ (OnOk-any _) λ tail _.
          OnOk-bind _ _ (parse_region F _) _ (parse_region-IsRegion F _) λ region hr.
            OnOk-bind _ _ (parse_size F _) _ (parse_size-IsSize F _) λ size hs.
              OnOk-bind _ _ (parse_rotation F _) _ (parse_rotation-IsRotation F _) λ rot hrot.
                OnOk-bind _ _ (parse_quality_format _) _ (parse_quality_format-IsListed _) λ qf hq.
                  record {
                    identifier = h;
                    region = hr;
                    size = hs;
                    rotation = hrot;
                    quality = hq.0;
                    format = hq.1;
                  }

  info-IsRequest : (s : Bytes) → OnOk IsRequest (decode_identifier s >>= bare_ok F Kind.info)
  info-IsRequest s =
      OnOk-bind _ _ (decode_identifier s) _ (decode_identifier-IsIdentifier s) (λ id h. (h, refl))

  base-IsRequest : (s : Bytes) → OnOk IsRequest (decode_identifier s >>= bare_ok F Kind.base)
  base-IsRequest s =
      OnOk-bind _ _ (decode_identifier s) _ (decode_identifier-IsIdentifier s) (λ id h. (h, refl))

  parse_parts-IsRequest :
      (rest : Bytes) (parts : List Bytes) → OnOk IsRequest (parse_parts F rest parts)
  unfolding parse_parts
  parse_parts-IsRequest rest parts = ground (
    arith,
    info-IsRequest (join (take (length parts - 1) parts) slash),
    base-IsRequest rest,
    parse_image-IsRequest parts,
  )

  parse-IsRequest : (rest : Bytes) → OnOk IsRequest (parse F rest)
  unfolding parse
  parse-IsRequest rest = ground (
    arith,
    parse_parts-IsRequest (trim_prefix rest (codes "/"))
        (split (trim_prefix rest (codes "/")) slash),
  )

  -- Whatever path is accepted: the identifier is not empty and holds no NUL, LF or CR; an info or
  -- base request holds nothing else; an image request has a positive rectangle at no negative
  -- offset (each percentage at most 100), dimensions from 1 to 1000000, a percentage above 0 and at
  -- most 10000, an angle from 0 to 360, and a listed quality and format. An order between floats
  -- is stated as the failure of the test that the code makes, which NaN passes.
  pub parse_sound : (rest : Bytes) (req : Request Float) → parse F rest ≡ ok req → IsRequest req
  parse_sound rest req e = OnOk-elim IsRequest (parse F rest) (parse-IsRequest rest) e
