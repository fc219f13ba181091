-- ===== src/Text/Decimal.antt =====
-- `strconv.Itoa` and `strconv.Atoi` are inverse, and decimal text holds numeral bytes only.
use native.Mathlib.Nat.{pow-suc}
use mathlib.Core.List.{cons-ne-nil}
use mathlib.Core.Bool.{false≢true}
use triplet.Text.Cut.{Lacks, cut_prefix_ne}
use triplet.Common.{
  ap, sym, ◌∙◌, ℕ, zero, suc, ◌+◌, ◌/◌, ◌%◌, ◌^◌, ◌≤◌, ◌<◌, ◌≡◌, refl, ◌≢◌, true, false, [], ◌∷◌,
  ◌++◌, none, some, arith, ◌==◌, All, Bool-cases, inl, inr,
}
use triplet.Common.Int.{ℤ, pos, negsuc}
use triplet.Text.{
  Bytes, cut_prefix, emit, itoa, atoi, digits_value, unsigned, max_int64, is_numeral_byte, is_digit,
}

abbrev pub IsNumeral : Bytes → Type 0
IsNumeral = All (λ c. is_numeral_byte c ≡ true)

abbrev pub IsInt64 : ℤ → Type 0
IsInt64 (pos n) = n ≤ max_int64
IsInt64 (negsuc n) = n ≤ max_int64

-- Numeral text lacks every byte that is no numeral byte.
pub IsNumeral-Lacks : (s : Bytes) (b : ℕ) → is_numeral_byte b ≡ false → IsNumeral s → Lacks b s
IsNumeral-Lacks [] b h k = tt
IsNumeral-Lacks (c ∷ s) b h k =
    (λ e. false≢true (sym h ∙ ap is_numeral_byte (sym e) ∙ k.0), IsNumeral-Lacks s b h k.1)

-- Numeral text followed by a byte that starts no keyword starts no keyword.
pub cut_numeral :
    (s : Bytes) (sep : ℕ) (t : Bytes) (b : ℕ) (p : Bytes)
    → IsNumeral s
    → is_numeral_byte b ≡ false
    → sep ≢ b
    → cut_prefix (s ++ sep ∷ t) (b ∷ p) ≡ none
cut_numeral [] sep t b p h k ne = cut_prefix_ne sep t b p ne
cut_numeral (c ∷ s) sep t b p h k ne = cut_prefix_ne c _ b p (IsNumeral-Lacks (c ∷ s) b k h).0

-- The same at the end of the text.
pub cut_numeral_end :
    (s : Bytes) (b : ℕ) (p : Bytes)
    → IsNumeral s
    → is_numeral_byte b ≡ false
    → cut_prefix s (b ∷ p) ≡ none
cut_numeral_end [] b p h k = unfold cut_prefix in refl
cut_numeral_end (c ∷ s) b p h k = cut_prefix_ne c _ b p (IsNumeral-Lacks (c ∷ s) b k h).0

pub digits_value-emit :
    (room n : ℕ) (out : Bytes)
    → n < 10 ^ room
    → digits_value 0 (emit room n out) ≡ digits_value n out
unfolding digits_value emit
digits_value-emit zero n out h = let e : n ≡ 0 = omega arith in rw e
digits_value-emit (suc room) n out h =
    ground (arith, pow-suc 10 room, digits_value-emit room (n / 10) ((b'0' + n % 10) ∷ out))

emit-IsNumeral : (room n : ℕ) (out : Bytes) → IsNumeral out → IsNumeral (emit room n out)
unfolding emit is_numeral_byte
emit-IsNumeral zero n out h = h
emit-IsNumeral (suc room) n out h =
    ground (arith, emit-IsNumeral room (n / 10) ((b'0' + n % 10) ∷ out))

emit-head :
    (room n : ℕ) (c : ℕ) (out : Bytes)
    → is_digit c ≡ true
    → (d : ℕ) × (r : Bytes) × (emit room n (c ∷ out) ≡ d ∷ r) × (is_digit d ≡ true)
unfolding emit is_digit
emit-head zero n c out h = (c, out, refl, h)
emit-head (suc room) n c out h = elim (Bool-cases (n == 0)) [
  | inl z ↦ (c, out, ground arith, h)
  | inr p ↦
      let (d, r, e, k) = emit-head room (n / 10) (b'0' + n % 10) (c ∷ out) (ground arith) in
      (d, r, ground (arith, e), k)
]

emit_nonzero :
    (n : ℕ) → 0 < n → (d : ℕ) × (r : Bytes) × (emit 20 n [] ≡ d ∷ r) × (is_digit d ≡ true)
unfolding emit is_digit
emit_nonzero n h =
    let (d, r, e, k) = emit-head 19 (n / 10) (b'0' + n % 10) [] (ground arith) in
    (d, r, ground (arith, e), k)

unsigned-emit : (n : ℕ) → 0 < n → n < 10 ^ 20 → unsigned (emit 20 n []) ≡ some n
unfolding unsigned digits_value
unsigned-emit n pos_n small =
    let (d, r, e, k) = emit_nonzero n pos_n in
    let read = digits_value-emit 20 n [] small in rw e (rw e at read)

atoi_digit :
    (d n : ℕ) (r : Bytes)
    → is_digit d ≡ true
    → unsigned (d ∷ r) ≡ some n
    → n ≤ max_int64
    → atoi (d ∷ r) ≡ some (pos n)
unfolding atoi is_digit
atoi_digit d n r k e h = ground arith

pub itoa_positive : (n : ℕ) → itoa (pos (suc n)) ≡ emit 20 (suc n) []
unfolding itoa
itoa_positive n = ground arith

atoi-itoa_positive : (n : ℕ) → suc n ≤ max_int64 → atoi (emit 20 (suc n) []) ≡ some (pos (suc n))
atoi-itoa_positive n h =
    let (d, r, e, k) = emit_nonzero (suc n) (omega arith) in
    let read = unsigned-emit (suc n) (omega arith) (omega arith) in
    rw e (atoi_digit d (suc n) r k (rw e at read) h)

atoi-itoa_negative : (n : ℕ) → n ≤ max_int64 → atoi (itoa (negsuc n)) ≡ some (negsuc n)
unfolding atoi itoa
atoi-itoa_negative n h = rw (unsigned-emit (suc n) (omega arith) (omega arith)) (ground arith)

-- Every int64 is read back from its decimal print.
pub atoi-itoa : (n : ℤ) → IsInt64 n → atoi (itoa n) ≡ some n
atoi-itoa (pos zero) h = unfold atoi itoa in refl
atoi-itoa (pos (suc n)) h = rw (itoa_positive n) (atoi-itoa_positive n h)
atoi-itoa (negsuc n) h = atoi-itoa_negative n h

pub itoa-IsNumeral : (n : ℤ) → IsNumeral (itoa n)
unfolding itoa is_numeral_byte
itoa-IsNumeral (pos n) = ground (arith, emit-IsNumeral 20 n [] tt)
itoa-IsNumeral (negsuc n) = (refl, emit-IsNumeral 20 (suc n) [] tt)

pub itoa-ne-nil : (n : ℤ) → itoa n ≢ []
unfolding itoa
itoa-ne-nil (pos zero) e = cc
itoa-ne-nil (pos (suc n)) e =
    let (d, r, e', k) = emit_nonzero (suc n) (omega arith) in
    cons-ne-nil d r (sym e' ∙ sym (itoa_positive n) ∙ e)
itoa-ne-nil (negsuc n) e = cc
