-- ===== src/Presentation/Handler/Canonical.antt =====
-- The key of a document: what it is made of, and that it names one path.
use mathlib.Core.Path.{subst}
use triplet.Common.{
  ℕ, ◌<◌, ◌/◌, ◌%◌, ◌≡◌, ◌≢◌, refl, sym, ap, ap₂, ◌∙◌, ◌⊎◌, inl, inr, true, false, not, Result, ok,
  >>=-eq-ok, else-eq-ok, ok_injective, List, [], ◌∷◌, ◌++◌, map, arith, All, All-append, Bool-cases,
  leb, length, if◌then◌else◌,
}
use triplet.Text.{
  Bytes, bytes_eq, contains_byte, contains_any, split, join, trim_prefix, has_prefix, path_escape,
  replace_byte, path_unescape, is_unreserved, escape_byte, upper_hex,
}
use triplet.Text.Cut.{
  Lacks, bytes_eq-eq, contains_any_of_All, split-join, split-ne-nil, join-split, split-All,
  join-All, trim_prefix-All,
}
use triplet.Text.Escape.{AreBytes, unescape-escape, colon_escaped}
use triplet.Http.{Request}
use triplet.Presentation.Store.{valid_resource_key, max_resource_key_bytes}
use triplet.Presentation.Validate.{Message}
use triplet.Presentation.Handler.{
  Handler, Codec, resource_key, request_resource, canonical_key, all_plain,
}

-- A byte that an escaped segment can have.
record IsUrlByte (c : ℕ) : Type 0 where
  no_slash : c ≢ b'/'
  no_nul : c ≢ 0
  no_line : c ≢ b'\n'
  no_return : c ≢ b'\r'

upper_hex-IsUrlByte : (d : ℕ) → d < 16 → IsUrlByte (upper_hex d)
unfolding upper_hex
upper_hex-IsUrlByte d h = record {
  no_slash = ground arith;
  no_nul = ground arith;
  no_line = ground arith;
  no_return = ground arith;
}

unreserved-IsUrlByte : (c : ℕ) → is_unreserved c ≡ true → IsUrlByte c
unfolding is_unreserved
unreserved-IsUrlByte c h = record {
  no_slash = ground arith;
  no_nul = ground arith;
  no_line = ground arith;
  no_return = ground arith;
}

percent-IsUrlByte : IsUrlByte b'%'
percent-IsUrlByte = record {
  no_slash = omega arith;
  no_nul = omega arith;
  no_line = omega arith;
  no_return = omega arith;
}

path_escape-IsUrlByte : (s : Bytes) → AreBytes s → All IsUrlByte (path_escape s)
unfolding path_escape escape_byte
path_escape-IsUrlByte [] h = tt
path_escape-IsUrlByte (c ∷ s) h = All-append IsUrlByte _ _ here (path_escape-IsUrlByte s h.1)
  where
    here : All IsUrlByte (if is_unreserved c then c ∷ [] else escape_byte c)
    here = elim (Bool-cases (is_unreserved c)) [
      | inl plain ↦ rw plain (unreserved-IsUrlByte c plain, tt)
      | inr reserved ↦ rw reserved (
        percent-IsUrlByte,
        (
          upper_hex-IsUrlByte (c / 16) (omega (arith, h.0)),
          (upper_hex-IsUrlByte (c % 16) (omega arith), tt),
        ),
      )
    ]

path_escape_injective :
    (s t : Bytes) → AreBytes s → AreBytes t → path_escape s ≡ path_escape t → s ≡ t
path_escape_injective s t h k e =
    let both =
      sym (unescape-escape s h)
      ∙ ap (λ u. path_unescape (replace_byte b':' colon_escaped u)) e
      ∙ unescape-escape t k in
    ground arith

map-All {ℓ κ} :
    (P : Bytes → Type ℓ) (Q : Bytes → Type κ) (f : Bytes → Bytes) (ps : List Bytes)
    → ((p : Bytes) → P p → Q (f p))
    → All P ps
    → All Q (map f ps)
map-All P Q f [] k h = tt
map-All P Q f (p ∷ ps) k h = (k p h.0, map-All P Q f ps k h.1)

All-imp {ℓ κ} :
    (P : ℕ → Type ℓ) (Q : ℕ → Type κ) (s : Bytes) → ((c : ℕ) → P c → Q c) → All P s → All Q s
All-imp P Q [] k h = tt
All-imp P Q (c ∷ s) k h = (k c h.0, All-imp P Q s k h.1)

escaped-Lacks : (s : Bytes) → AreBytes s → Lacks b'/' (path_escape s)
escaped-Lacks s h =
    All-imp IsUrlByte (λ c. c ≢ b'/') _ (λ c u. u.no_slash) (path_escape-IsUrlByte s h)

map-escape_injective :
    (ps qs : List Bytes)
    → All AreBytes ps
    → All AreBytes qs
    → map path_escape ps ≡ map path_escape qs
    → ps ≡ qs
map-escape_injective [] [] h k e = refl
map-escape_injective [] (q ∷ qs) h k e = absurd cc
map-escape_injective (p ∷ ps) [] h k e = absurd cc
map-escape_injective (p ∷ ps) (q ∷ qs) h k e =
    ap₂ ◌∷◌ (path_escape_injective p q h.0 k.0 cc) (map-escape_injective ps qs h.1 k.1 cc)

-- The escaped names of a text, from their key.
split-canonical :
    (text : Bytes)
    → AreBytes text
    → split (canonical_key (split text b'/')) b'/' ≡ map path_escape (split text b'/')
unfolding canonical_key
split-canonical text h =
    let (p, ps, e) = split-ne-nil text b'/' in
    let parts =
      map-All AreBytes (Lacks b'/') path_escape (split text b'/') escaped-Lacks
        (split-All (λ c. c < 256) text b'/' h) in
    rw e (
      split-join (path_escape p) (map path_escape ps) b'/'
        (subst (λ l. All (Lacks b'/') (map path_escape l)) e parts))

canonical_key_injective :
    (text other : Bytes)
    → AreBytes text
    → AreBytes other
    → canonical_key (split text b'/') ≡ canonical_key (split other b'/')
    → text ≡ other
canonical_key_injective text other h k e =
    let parts =
      map-escape_injective (split text b'/') (split other b'/')
        (split-All (λ c. c < 256) text b'/' h) (split-All (λ c. c < 256) other b'/' k)
        (sym (split-canonical text h) ∙ ap (λ t. split t b'/') e ∙ split-canonical other k) in
    sym (join-split text b'/') ∙ ap (λ l. join l b'/') parts ∙ join-split other b'/'

line_free : (c : ℕ) → (IsUrlByte c ⊎ (c ≡ b'/')) → contains_byte (0 ∷ b'\n' ∷ b'\r' ∷ []) c ≡ false
unfolding contains_byte
line_free c (inl u) = ground (arith, u.no_nul, u.no_line, u.no_return)
line_free c (inr e) = rw e refl

canonical_key-free :
    (text : Bytes)
    → AreBytes text
    → contains_any (canonical_key (split text b'/')) (0 ∷ b'\n' ∷ b'\r' ∷ []) ≡ false
unfolding canonical_key
canonical_key-free text h = contains_any_of_All _ _ (
    join-All (λ c. contains_byte (0 ∷ b'\n' ∷ b'\r' ∷ []) c ≡ false)
      (map path_escape (split text b'/')) b'/' (line_free b'/' (inr refl))
      (map-All AreBytes (All (λ c. contains_byte (0 ∷ b'\n' ∷ b'\r' ∷ []) c ≡ false)) path_escape
        (split text b'/')
        (λ p k.
          All-imp IsUrlByte (λ c. contains_byte (0 ∷ b'\n' ∷ b'\r' ∷ []) c ≡ false) (path_escape p)
            (λ c u. line_free c (inl u)) (path_escape-IsUrlByte p k))
        (split-All (λ c. c < 256) text b'/' h)))

module _ (c : Codec) (h : Handler) (r : Request) where
  -- What stands behind the prefix, decoded.
  abbrev pub rest_of : Bytes
  rest_of = trim_prefix r.path (h.prefix ++ b'/' ∷ [])

  resource_key-eq :
      (escaped_rest decoded_rest : Bytes) {key : Bytes}
      → resource_key c escaped_rest decoded_rest ≡ ok key
      → (key ≡ canonical_key (split decoded_rest b'/'))
        × (key ≡ escaped_rest)
        × (bytes_eq escaped_rest [] ≡ false)
        × (leb (length key) max_resource_key_bytes ≡ true)
        × (all_plain c (split decoded_rest b'/') ≡ true)
  unfolding resource_key
  resource_key-eq escaped_rest decoded_rest {key = key} e =
      ground (arith, bytes_eq-eq (canonical_key (split decoded_rest b'/')) escaped_rest)

  request_resource-eq :
      {resource : Bytes × Bytes}
      → request_resource c h r ≡ ok resource
      → (escaped_rest : Bytes) × (resource_key c escaped_rest rest_of ≡ ok resource.0)
        × (resource.1 ≡ h.public_base_url ++ h.prefix ++ b'/' ∷ resource.0)
  unfolding request_resource
  request_resource-eq {resource = resource} e =
      let escaped_prefix = c.escape_path h.prefix ++ b'/' ∷ [] in
      let escaped_rest = trim_prefix r.escaped_path escaped_prefix in
      let public : Bytes → Result Message (Bytes × Bytes) =
        λ k. ok (k, h.public_base_url ++ h.prefix ++ b'/' ∷ k) in
      let guarded = (else-eq-ok (not (bytes_eq r.raw_query [])) _ _ e).1 in
      let unguarded = (else-eq-ok (not (has_prefix r.escaped_path escaped_prefix)) _ _ guarded).1 in
      let (key, found, same) = >>=-eq-ok (resource_key c escaped_rest rest_of) public unguarded in
      let pair = ok_injective {E = Message} same in
      (
        escaped_rest,
        found ∙ ap (λ p. ok p.0) pair,
        ap (λ p. p.1) (sym pair) ∙ ap (λ p. h.public_base_url ++ h.prefix ++ b'/' ∷ p.0) pair,
      )

module _ (c : Codec) (h : Handler) where
  -- The key of a request that is accepted is made of the segments of the path behind the prefix,
  -- each escaped, none of them empty, `.` or `..`; the public id ends with it, and it is a key that
  -- the store takes.
  pub request_resource-IsCanonical :
      (r : Request) {resource : Bytes × Bytes}
      → AreBytes r.path
      → request_resource c h r ≡ ok resource
      → (resource.0 ≡ canonical_key (split (rest_of c h r) b'/'))
        × (all_plain c (split (rest_of c h r) b'/') ≡ true)
        × (resource.1 ≡ h.public_base_url ++ h.prefix ++ b'/' ∷ resource.0)
        × (valid_resource_key resource.0 ≡ true)
  unfolding valid_resource_key
  request_resource-IsCanonical r b e =
      let (escaped_rest, found, id) = request_resource-eq c h r e in
      let (key, same, filled, fits, plain) =
        resource_key-eq c h r escaped_rest (rest_of c h r) found in
      let free = canonical_key-free (rest_of c h r) (trim_prefix-All (λ d. d < 256) r.path _ b) in
      (key, plain, id, ground (arith, same, filled, fits, free, key))

  -- Two requests with the same key ask for the same path behind the prefix.
  pub request_resource_injective :
      (r other : Request) {resource other_resource : Bytes × Bytes}
      → AreBytes r.path
      → AreBytes other.path
      → request_resource c h r ≡ ok resource
      → request_resource c h other ≡ ok other_resource
      → resource.0 ≡ other_resource.0
      → rest_of c h r ≡ rest_of c h other
  request_resource_injective r other b k e d same =
      canonical_key_injective (rest_of c h r) (rest_of c h other)
        (trim_prefix-All (λ q. q < 256) r.path _ b) (trim_prefix-All (λ q. q < 256) other.path _ k)
        (sym (request_resource-IsCanonical r b e).0
          ∙ same
          ∙ (request_resource-IsCanonical other k d).0)
