-- ===== src/Names/Sizes.antt =====
-- parse.go reads back the size and the rotation that Names writes.
use triplet.Common.{ℕ, ◌≡◌, refl, ◌∙◌, ◌≢◌, Bool, false, [], ◌∷◌, ◌++◌, none, some, ok, arith}
use triplet.Common.Int.{ℤ, pos, negsuc}
use triplet.Floats.{FloatOps}
use triplet.Text.{Bytes, codes, bytes_eq, contains_byte, cut_prefix, split, itoa, is_numeral_byte}
use triplet.Text.Cut.{
  Lacks, bytes_eq_of_ne, bytes_eq_of_contains, contains_byte-append, split_of_Lacks, split-append,
}
use triplet.Text.Decimal.{IsNumeral-Lacks, cut_numeral, atoi-itoa, itoa-IsNumeral, itoa-ne-nil}
use triplet.Parse.Types.{SizeKind}
use triplet.Parse.Operations.{
  parse_size_body, size_percent, size_both, size_of_dims, size_of_parts, sized, max_parsed_percent,
  parse_pos_int, parse_dims,
}
use triplet.Parse.Safety.{IsDim}

parse_pos_int-itoa : (n : ℤ) → IsDim n → parse_pos_int (itoa n) ≡ some n
unfolding parse_pos_int
parse_pos_int-itoa (pos n) h = rw (atoi-itoa (pos n) (omega arith), parse_pos_int) (ground arith)
parse_pos_int-itoa (negsuc n) h = absurd (omega arith)

parse_dims-itoa : (w h : ℤ) → IsDim w → IsDim h → parse_dims (itoa w) (itoa h) ≡ some (w, h)
unfolding parse_dims
parse_dims-itoa w h p q =
    rw (parse_pos_int-itoa w p, parse_dims) (rw (parse_pos_int-itoa h q, parse_dims) refl)

itoa-Lacks_comma : (n : ℤ) → Lacks b',' (itoa n)
itoa-Lacks_comma n =
    IsNumeral-Lacks (itoa n) b',' (unfold is_numeral_byte in refl) (itoa-IsNumeral n)

split-pair : (w h : ℤ) → split (itoa w ++ b',' ∷ itoa h) b',' ≡ itoa w ∷ itoa h ∷ []
split-pair w h = rw (
  split-append (itoa w) b',' _ (itoa-Lacks_comma w),
  split_of_Lacks (itoa h) b',' (itoa-Lacks_comma h),
)

has_text : (n : ℤ) → bytes_eq (itoa n) [] ≡ false
has_text n = bytes_eq_of_ne (itoa n) [] (itoa-ne-nil n)

-- `s` starts with a byte of a number or with a comma: no keyword, `^` or `!` is before it.
cut_sized :
    (n : ℤ) (t : Bytes) (b : ℕ) (p : Bytes)
    → is_numeral_byte b ≡ false
    → b',' ≢ b
    → cut_prefix (itoa n ++ b',' ∷ t) (b ∷ p) ≡ none
cut_sized n t b p h ne = cut_numeral (itoa n) b',' t b p (itoa-IsNumeral n) h ne

not_max : (s t : Bytes) → bytes_eq (s ++ b',' ∷ t) (codes "max") ≡ false
not_max s t =
    bytes_eq_of_contains _ _ b',' (contains_byte-append s b',' t) (unfold contains_byte in refl)

module _ {Float : Type 0} (F : FloatOps Float) where
  dims-width :
      (u : Bool) (n : ℤ)
      → IsDim n
      → size_of_dims F u (itoa n) [] ≡ ok (sized F SizeKind.width n (pos 0) u)
  unfolding size_of_dims bytes_eq
  dims-width u n h = ground (arith, has_text n, parse_pos_int-itoa n h)

  dims-height :
      (u : Bool) (n : ℤ)
      → IsDim n
      → size_of_dims F u [] (itoa n) ≡ ok (sized F SizeKind.height (pos 0) n u)
  unfolding size_of_dims bytes_eq
  dims-height u n h = ground (arith, has_text n, parse_pos_int-itoa n h)

  both :
      (k : SizeKind) (u : Bool) (w h : ℤ)
      → IsDim w
      → IsDim h
      → size_both F k u (itoa w) (itoa h) ≡ ok (sized F k w h u)
  unfolding size_both
  both k u w h p q = rw (parse_dims-itoa w h p q, size_both) refl

  dims-wh :
      (u : Bool) (w h : ℤ)
      → IsDim w
      → IsDim h
      → size_of_dims F u (itoa w) (itoa h) ≡ ok (sized F SizeKind.wh w h u)
  unfolding size_of_dims
  dims-wh u w h p q = rw (has_text w, has_text h, both SizeKind.wh u w h p q)

  -- A body that starts with a number goes to the two comma-separated parts.
  body_sized :
      (u : Bool) (n : ℤ) (t : Bytes)
      → parse_size_body F u (itoa n ++ b',' ∷ t)
        ≡ size_of_parts F (itoa n ++ b',' ∷ t) u false (itoa n ∷ split t b',')
  unfolding parse_size_body
  body_sized u n t = rw (
    not_max (itoa n) t,
    cut_sized n t b'p' (codes "ct:") (unfold is_numeral_byte in refl) (λ e. absurd (omega arith)),
    cut_sized n t b'!' [] (unfold is_numeral_byte in refl) (λ e. absurd (omega arith)),
    split-append (itoa n) b',' t (itoa-Lacks_comma n),
  )

  pub body-width :
      (u : Bool) (n : ℤ)
      → IsDim n
      → parse_size_body F u (itoa n ++ codes ",") ≡ ok (sized F SizeKind.width n (pos 0) u)
  unfolding size_of_parts split
  body-width u n h = body_sized u n [] ∙ dims-width u n h

  pub body-height :
      (u : Bool) (n : ℤ)
      → IsDim n
      → parse_size_body F u (codes "," ++ itoa n) ≡ ok (sized F SizeKind.height (pos 0) n u)
  unfolding parse_size_body size_of_parts bytes_eq cut_prefix
  body-height u n h = rw (
    split-append [] b',' (itoa n) tt,
    split_of_Lacks (itoa n) b',' (itoa-Lacks_comma n),
    dims-height u n h,
  )

  pub body-wh :
      (u : Bool) (w h : ℤ)
      → IsDim w
      → IsDim h
      → parse_size_body F u (itoa w ++ b',' ∷ itoa h) ≡ ok (sized F SizeKind.wh w h u)
  unfolding size_of_parts
  body-wh u w h p q =
      body_sized u w (itoa h)
      ∙ rw (split_of_Lacks (itoa h) b',' (itoa-Lacks_comma h)) (dims-wh u w h p q)

  pub body-best_fit :
      (u : Bool) (w h : ℤ)
      → IsDim w
      → IsDim h
      → parse_size_body F u (codes "!" ++ (itoa w ++ b',' ∷ itoa h))
        ≡ ok (sized F SizeKind.best_fit w h u)
  unfolding parse_size_body bytes_eq cut_prefix size_of_parts
  body-best_fit u w h p q = rw (split-pair w h, both SizeKind.best_fit u w h p q)

  pub body-percent :
      (u : Bool) (s : Bytes) (v : Float)
      → F.parse_float s ≡ some v
      → F.le v F.zero ≡ false
      → F.lt (F.of_int max_parsed_percent) v ≡ false
      → parse_size_body F u (codes "pct:" ++ s)
        ≡ ok (record { kind = SizeKind.percent; w = pos 0; h = pos 0; percent = v; upscale = u })
  unfolding parse_size_body bytes_eq cut_prefix size_percent
  body-percent u s v e p q = ground arith
