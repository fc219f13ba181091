-- ===== src/Storage/Http/Ranges/Laws.antt =====
-- Which ranges are read, and from where.
use mathlib.Core.Path.{subst}
use triplet.Common.{
  ℕ, zero, suc, ◌/◌, ◌%◌, ◌==◌, All, All-append, if_elim, ◌+◌, ◌≤◌, ◌<◌, ◌≡◌, refl, ap, ◌∙◌, inl,
  inr, true, false, ◌||◌, Option, none, some, [], ◌∷◌, ◌++◌, arith, Bool-cases, OnSome,
}
use triplet.Common.Int.{ℤ, pos, negsuc}
use triplet.Text.{
  Bytes, codes, bytes_eq, trim_space, trim_left, trim_right, trim_prefix, has_prefix, cut, atoi,
  itoa, emit, is_space, is_numeral_byte,
}
use triplet.Text.Cut.{Lacks, cut-append, cut_prefix-append, bytes_eq_of_ne, prefix_of_some}
use triplet.Text.Decimal.{
  IsNumeral, IsInt64, atoi-itoa, itoa-ne-nil, itoa-IsNumeral, IsNumeral-Lacks,
}
use triplet.Storage.Http.Ranges.{
  ContentRange, checked_range, range_of_numbers, range_of_ends, range_of_parts, parse_content_range,
}

-- A range of the whole, not empty.
abbrev pub IsInside : ContentRange → Type 0
IsInside range = (range.start ≤ range.end) × (range.end < range.size)

checked_range-IsInside : (s e n : ℤ) → OnSome IsInside (checked_range s e n)
unfolding checked_range
checked_range-IsInside (pos s) (pos e) (pos n) = ground arith
checked_range-IsInside (pos s) (pos e) (negsuc n) = tt
checked_range-IsInside (pos s) (negsuc e) n = tt
checked_range-IsInside (negsuc s) e n = tt

range_of_numbers-IsInside : (s e n : Option ℤ) → OnSome IsInside (range_of_numbers s e n)
unfolding range_of_numbers
range_of_numbers-IsInside none e n = tt
range_of_numbers-IsInside (some s) none n = tt
range_of_numbers-IsInside (some s) (some e) none = tt
range_of_numbers-IsInside (some s) (some e) (some n) = checked_range-IsInside s e n

range_of_ends-IsInside :
    (size_part : Bytes) (ends : Option (Bytes × Bytes))
    → OnSome IsInside (range_of_ends size_part ends)
unfolding range_of_ends
range_of_ends-IsInside size_part none = tt
range_of_ends-IsInside size_part (some (start_part, end_part)) =
    if_elim (OnSome IsInside) (bytes_eq start_part [] || bytes_eq end_part []) (λ _. tt)
      (λ _. range_of_numbers-IsInside (atoi start_part) (atoi end_part) (atoi size_part))

range_of_parts-IsInside : (parts : Option (Bytes × Bytes)) → OnSome IsInside (range_of_parts parts)
unfolding range_of_parts
range_of_parts-IsInside none = tt
range_of_parts-IsInside (some (range_part, size_part)) =
    if_elim (OnSome IsInside) (bytes_eq size_part [] || bytes_eq size_part (codes "*")) (λ _. tt)
      (λ _. range_of_ends-IsInside size_part (cut range_part b'-'))

-- Every `Content-Range` that is accepted is a range of the whole that is not empty.
pub parse_content_range-IsInside : (v : Bytes) → OnSome IsInside (parse_content_range v)
unfolding parse_content_range
parse_content_range-IsInside v =
    if_elim (OnSome IsInside) (has_prefix (trim_space v) (codes "bytes "))
      (λ _. range_of_parts-IsInside _) (λ _. tt)

-- Text without space is not trimmed.
abbrev HasNoSpace : Bytes → Type 0
HasNoSpace = All (λ c. is_space c ≡ false)

trim_right_self : (s : Bytes) → HasNoSpace s → trim_right s ≡ s
unfolding trim_right
trim_right_self [] h = refl
trim_right_self (c ∷ []) h = rw h.0 refl
trim_right_self (c ∷ d ∷ s) h = rw (trim_right_self (d ∷ s) h.1) refl

trim_right-append :
    (s : Bytes) (c : ℕ) (t : Bytes) → HasNoSpace (c ∷ t) → trim_right (s ++ c ∷ t) ≡ s ++ c ∷ t
unfolding trim_right
trim_right-append [] c t h = trim_right_self (c ∷ t) h
trim_right-append (b ∷ []) c t h = rw (trim_right_self (c ∷ t) h) refl
trim_right-append (b ∷ d ∷ s) c t h = rw (trim_right-append (d ∷ s) c t h) refl

numeral-HasNoSpace : (s : Bytes) → IsNumeral s → HasNoSpace s
unfolding is_space is_numeral_byte
numeral-HasNoSpace [] h = tt
numeral-HasNoSpace (c ∷ s) h = (ground (arith, h.0), numeral-HasNoSpace s h.1)

emit-Lacks_dash : (room n : ℕ) (out : Bytes) → Lacks b'-' out → Lacks b'-' (emit room n out)
unfolding emit
emit-Lacks_dash zero n out h = h
emit-Lacks_dash (suc room) n out h = elim (Bool-cases (n == 0)) [
  | inl done ↦ rw (done, emit) h
  | inr more ↦
      rw (more, emit) (emit-Lacks_dash room (n / 10) ((b'0' + n % 10) ∷ out) (omega arith, h))
]

itoa-Lacks_dash : (n : ℕ) → Lacks b'-' (itoa (pos n))
unfolding itoa
itoa-Lacks_dash n =
    if_elim (Lacks b'-') (n == 0) (λ _. (omega arith, tt)) (λ _. emit-Lacks_dash 20 n [] tt)

-- What a server writes into `Content-Range`.
abbrev pub content_range_text : (start end size : ℕ) → Bytes
content_range_text start end size =
    codes "bytes " ++ (itoa (pos start) ++ b'-' ∷ itoa (pos end)) ++ b'/' ∷ itoa (pos size)

trim_space_self : (s : Bytes) → HasNoSpace s → trim_space s ≡ s
unfolding trim_space
trim_space_self [] h = unfold trim_left in unfold trim_right in refl
trim_space_self (c ∷ s) h = rw (h.0, trim_left) (trim_right_self (c ∷ s) h)

slash-ne-numeral : is_numeral_byte b'/' ≡ false
unfolding is_numeral_byte
slash-ne-numeral = refl

star-ne-numeral : ¬ IsNumeral (codes "*")
unfolding is_numeral_byte
star-ne-numeral k = cc (k.0)

module _ (start end size : ℕ) (s_small : IsInt64 (pos start)) (e_small : IsInt64 (pos end))
    (n_small : IsInt64 (pos size)) (ordered : start ≤ end) (inside : end < size) where
  ends_text : Bytes
  ends_text = itoa (pos start) ++ b'-' ∷ itoa (pos end)

  ends_numeral : IsNumeral ends_text
  unfolding ends_text is_numeral_byte
  ends_numeral =
      All-append _ (itoa (pos start)) (b'-' ∷ itoa (pos end)) (itoa-IsNumeral (pos start))
        (refl, itoa-IsNumeral (pos end))

  digits_space : HasNoSpace (ends_text ++ b'/' ∷ itoa (pos size))
  unfolding is_space
  digits_space =
      All-append (λ c. is_space c ≡ false) ends_text (b'/' ∷ itoa (pos size))
        (numeral-HasNoSpace ends_text ends_numeral)
        (refl, numeral-HasNoSpace (itoa (pos size)) (itoa-IsNumeral (pos size)))

  trimmed :
      trim_space (content_range_text start end size)
      ≡ codes "bytes " ++ ends_text ++ b'/' ∷ itoa (pos size)
  unfolding trim_space trim_left is_space ends_text
  trimmed =
      trim_right-append (codes "bytes " ++ ends_text) b'/' (itoa (pos size))
        (refl, numeral-HasNoSpace (itoa (pos size)) (itoa-IsNumeral (pos size)))

  size-ne-star : bytes_eq (itoa (pos size)) (codes "*") ≡ false
  size-ne-star =
      bytes_eq_of_ne _ _ (λ e. star-ne-numeral (subst IsNumeral e (itoa-IsNumeral (pos size))))

  rest_text : Bytes
  rest_text = ends_text ++ b'/' ∷ itoa (pos size)

  bytes_prefix :
      (has_prefix (codes "bytes " ++ rest_text) (codes "bytes ") ≡ true)
      × (trim_prefix (codes "bytes " ++ rest_text) (codes "bytes ") ≡ rest_text)
  bytes_prefix = prefix_of_some _ _ _ (cut_prefix-append (codes "bytes ") rest_text)

  parts :
      range_of_parts (some (ends_text, itoa (pos size)))
      ≡ range_of_ends (itoa (pos size)) (some (itoa (pos start), itoa (pos end)))
  unfolding range_of_parts ends_text
  parts =
      rw (bytes_eq_of_ne (itoa (pos size)) [] (itoa-ne-nil (pos size)), size-ne-star)
        (ap (range_of_ends (itoa (pos size)))
          (cut-append (itoa (pos start)) b'-' (itoa (pos end)) (itoa-Lacks_dash start)))

  ends :
      range_of_ends (itoa (pos size)) (some (itoa (pos start), itoa (pos end)))
      ≡ some (record { start = start; end = end; size = size })
  unfolding range_of_ends
  ends =
      rw
        (
          bytes_eq_of_ne (itoa (pos start)) [] (itoa-ne-nil (pos start)),
          bytes_eq_of_ne (itoa (pos end)) [] (itoa-ne-nil (pos end)),
          atoi-itoa (pos start) s_small,
          atoi-itoa (pos end) e_small,
          atoi-itoa (pos size) n_small,
        )
        (ground arith)

  -- The numbers that a server writes are read back.
  pub parse-content_range_text :
      parse_content_range (content_range_text start end size)
      ≡ some (record { start = start; end = end; size = size })
  unfolding parse_content_range rest_text
  parse-content_range_text =
      rw (trimmed, bytes_prefix.0, bytes_prefix.1, trim_space_self rest_text digits_space)
        (ap range_of_parts (
            cut-append ends_text b'/' (itoa (pos size))
              (IsNumeral-Lacks ends_text b'/' slash-ne-numeral ends_numeral))
          ∙ parts
          ∙ ends)
