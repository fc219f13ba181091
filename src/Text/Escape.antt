-- ===== src/Text/Escape.antt =====
-- `url.PathUnescape` undoes `url.PathEscape`, and leaves text without a percent sign alone.
use mathlib.Core.Option
use triplet.Common.{
  ℕ, ◌⊎◌, ==_iff, append_assoc, ◌+◌, ◌*◌, ◌/◌, ◌%◌, ◌<◌, ◌≡◌, refl, ◌≢◌, true, [], ◌∷◌, ◌++◌, some,
  arith, ◌==◌, All, All-append, Bool-cases, inl, inr, if◌then◌else◌,
}
use triplet.Text.{
  Bytes, codes, contains_byte, path_unescape, path_escape, escape_byte, is_unreserved, replace_byte,
  upper_hex, is_hex, unhex,
}
use triplet.Text.Cut.{Lacks}

unescape_plain :
    (c : ℕ) (s : Bytes)
    → c ≢ b'%'
    → path_unescape (c ∷ s) ≡ Option.map (λ r. c ∷ r) (path_unescape s)
unfolding path_unescape
unescape_plain c [] h = ground arith
unescape_plain c (a ∷ []) h = ground arith
unescape_plain c (a ∷ b ∷ s) h = ground arith

is_hex-upper_hex : (d : ℕ) → d < 16 → is_hex (upper_hex d) ≡ true
unfolding is_hex upper_hex
is_hex-upper_hex d h = ground arith

unhex-upper_hex : (d : ℕ) → d < 16 → unhex (upper_hex d) ≡ d
unfolding unhex upper_hex
unhex-upper_hex d h = ground arith

unescape_byte :
    (c : ℕ) (s : Bytes)
    → c < 256
    → path_unescape (escape_byte c ++ s) ≡ Option.map (λ r. c ∷ r) (path_unescape s)
unfolding path_unescape escape_byte
unescape_byte c s h =
    let hi : c / 16 < 16 = omega arith in
    let lo : c % 16 < 16 = omega arith in
    let whole : c / 16 * 16 + c % 16 ≡ c = omega arith in
    rw
      (
        is_hex-upper_hex (c / 16) hi,
        is_hex-upper_hex (c % 16) lo,
        unhex-upper_hex (c / 16) hi,
        unhex-upper_hex (c % 16) lo,
        whole,
      )
      refl

pub unescape_nil : path_unescape [] ≡ some []
unfolding path_unescape
unescape_nil = refl

pub path_unescape_of_Lacks : (s : Bytes) → Lacks b'%' s → path_unescape s ≡ some s
path_unescape_of_Lacks [] h = unfold path_unescape in refl
path_unescape_of_Lacks (c ∷ s) h = rw (unescape_plain c s h.0, path_unescape_of_Lacks s h.1)

abbrev pub AreBytes : Bytes → Type 0
AreBytes = All (λ c. c < 256)

replace_byte-append :
    (b : ℕ) (new s t : Bytes)
    → replace_byte b new (s ++ t) ≡ replace_byte b new s ++ replace_byte b new t
unfolding replace_byte
replace_byte-append b new [] t = refl
replace_byte-append b new (c ∷ s) t = simp (replace_byte-append b new s t, append_assoc)

upper_hex-ne-colon : (d : ℕ) → d < 16 → upper_hex d ≢ b':'
unfolding upper_hex
upper_hex-ne-colon d h = ground arith

abbrev pub colon_escaped : Bytes
colon_escaped = codes "%3A"

-- What becomes of one byte of an identifier: itself or its escape.
escaped : ℕ → Bytes
escaped c = replace_byte b':' colon_escaped (if is_unreserved c then c ∷ [] else escape_byte c)

escaped-cases :
    (c : ℕ)
    → c < 256
    → ((escaped c ≡ c ∷ []) × (is_unreserved c ≡ true)) ⊎ (escaped c ≡ escape_byte c)
unfolding escaped replace_byte
escaped-cases c h = elim (Bool-cases (is_unreserved c)) [
  | inl plain ↦ elim (Bool-cases (c == b':')) [
    | inl colon ↦
        let e : c ≡ b':' = (==_iff c b':').0 colon in
        inr (rw e (unfold escape_byte upper_hex is_unreserved contains_byte in refl))
    | inr other ↦ inl (rw (plain, other) refl, plain)
  ]
  | inr reserved ↦ inr (
      rw reserved (
        unfold escape_byte in
        ground (arith, upper_hex-ne-colon (c / 16), upper_hex-ne-colon (c % 16))))
]

unreserved-ne-percent : (c : ℕ) → is_unreserved c ≡ true → c ≢ b'%'
unfolding is_unreserved
unreserved-ne-percent c h = ground arith

unreserved-ne-slash : (c : ℕ) → is_unreserved c ≡ true → c ≢ b'/'
unfolding is_unreserved
unreserved-ne-slash c h = ground arith

upper_hex-ne-slash : (d : ℕ) → d < 16 → upper_hex d ≢ b'/'
unfolding upper_hex
upper_hex-ne-slash d h = ground arith

replace-escape_cons :
    (c : ℕ) (s : Bytes)
    → replace_byte b':' colon_escaped (path_escape (c ∷ s))
      ≡ escaped c ++ replace_byte b':' colon_escaped (path_escape s)
unfolding escaped path_escape
replace-escape_cons c s = replace_byte-append b':' colon_escaped _ (path_escape s)

unescape-escaped :
    (c : ℕ) (s : Bytes)
    → c < 256
    → path_unescape (escaped c ++ s) ≡ Option.map (λ r. c ∷ r) (path_unescape s)
unescape-escaped c s h = elim (escaped-cases c h) [
  | inl (e, plain) ↦ rw e (unescape_plain c s (unreserved-ne-percent c plain))
  | inr e ↦ rw e (unescape_byte c s h)
]

pub unescape-escape :
    (s : Bytes)
    → AreBytes s
    → path_unescape (replace_byte b':' colon_escaped (path_escape s)) ≡ some s
unescape-escape [] h = unfold path_unescape replace_byte path_escape in refl
unescape-escape (c ∷ s) h =
    rw (replace-escape_cons c s, unescape-escaped c _ h.0, unescape-escape s h.1)

escaped-Lacks_slash : (c : ℕ) → c < 256 → Lacks b'/' (escaped c)
escaped-Lacks_slash c h = elim (escaped-cases c h) [
  | inl (e, plain) ↦ rw e (unreserved-ne-slash c plain, tt)
  | inr e ↦ rw e (
      unfold escape_byte in
      (
        λ k. absurd (omega arith),
        (
          upper_hex-ne-slash (c / 16) (omega arith),
          (upper_hex-ne-slash (c % 16) (omega arith), tt),
        ),
      ))
]

pub escape-Lacks_slash :
    (s : Bytes) → AreBytes s → Lacks b'/' (replace_byte b':' colon_escaped (path_escape s))
escape-Lacks_slash [] h = unfold replace_byte path_escape in tt
escape-Lacks_slash (c ∷ s) h =
    rw (replace-escape_cons c s)
      (All-append _ (escaped c) _ (escaped-Lacks_slash c h.0) (escape-Lacks_slash s h.1))
