-- ===== src/Cors/Origins.antt =====
-- Which origin a response is opened to.
use triplet.Common.{
  ◌≡◌, ◌≢◌, refl, ◌⊎◌, inl, inr, Bool, true, false, ◌||◌, List, [], ◌∷◌, ◌++◌, Bool-cases,
}
use triplet.Text.{Bytes, codes, bytes_eq, trim_space}
use triplet.Text.Cut.{bytes_eq-eq, bytes_eq_refl, ne_of_bytes_eq}
use triplet.Http.{Header, set_header, add_header}
use triplet.Cors.{
  Policy, set_headers, allow_origin, lists, origin_allowed, allows_any_origin, allow_headers,
  expose, is_empty,
}

-- The text is an entry of the list, without the space around it.
abbrev pub IsListed : Bytes → List Bytes → Type 0
IsListed text [] = ⊥
IsListed text (allowed ∷ rest) = (trim_space allowed ≡ text) ⊎ IsListed text rest

IsListed-of_lists :
    (entries : List Bytes) (text : Bytes) → lists entries text ≡ true → IsListed text entries
unfolding lists
IsListed-of_lists [] text e = absurd cc
IsListed-of_lists (allowed ∷ rest) text e = elim (Bool-cases (bytes_eq (trim_space allowed) text)) [
  | inl same ↦ inl (bytes_eq-eq (trim_space allowed) text same)
  | inr other ↦ inr (IsListed-of_lists rest text (rw other at e))
]

right_false : (a b : Bool) → (a || b) ≡ false → b ≡ false
right_false true b e = absurd cc
right_false false b e = e

left_false : (a b : Bool) → (a || b) ≡ false → a ≡ false
left_false true b e = absurd cc
left_false false b e = refl

allow_headers-any :
    (p : Policy) (origin : Bytes) (h : Header)
    → allows_any_origin p ≡ true
    → expose p (allow_headers p origin h) allow_origin ≡ codes "*" ∷ []
unfolding allow_headers expose set_header add_header bytes_eq
allow_headers-any p origin h e = elim (Bool-cases (bytes_eq p.expose_headers [])) [
  | inl unset ↦ rw (e, unset) refl
  | inr named ↦ rw (e, named) refl
]

allow_headers-one :
    (p : Policy) (origin : Bytes) (h : Header)
    → allows_any_origin p ≡ false
    → expose p (allow_headers p origin h) allow_origin ≡ origin ∷ []
unfolding allow_headers expose set_header add_header bytes_eq
allow_headers-one p origin h e = elim (Bool-cases (bytes_eq p.expose_headers [])) [
  | inl unset ↦ rw (e, unset) refl
  | inr named ↦ rw (e, named) refl
]

right_true : (a b : Bool) → (a || b) ≡ true → a ≡ false → b ≡ true
right_true true b e f = absurd cc
right_true false b e f = e

IsListed-of_allowed :
    (p : Policy) (origin : Bytes)
    → origin_allowed p origin ≡ true
    → allows_any_origin p ≡ false
    → IsListed origin p.allowed_origins
unfolding origin_allowed
IsListed-of_allowed p origin e f =
    IsListed-of_lists p.allowed_origins origin
      (right_true (allows_any_origin p) (lists p.allowed_origins origin) e f)

IsListed-to_lists :
    (entries : List Bytes) (text : Bytes) → lists entries text ≡ false → IsListed text entries → ⊥
unfolding lists
IsListed-to_lists [] text e h = h
IsListed-to_lists (allowed ∷ rest) text e (inl same) = absurd (unlisted (rw same at e))
  where
    unlisted : (bytes_eq text text || lists rest text) ≡ false → ⊥
    unlisted q = cc (bytes_eq_refl text)
IsListed-to_lists (allowed ∷ rest) text e (inr later) =
    IsListed-to_lists rest text
      (right_false (bytes_eq (trim_space allowed) text) (lists rest text) e) later

IsListed-of_refused :
    (p : Policy) (origin : Bytes)
    → origin_allowed p origin ≡ false
    → (IsListed (codes "*") p.allowed_origins → ⊥) × (IsListed origin p.allowed_origins → ⊥)
unfolding origin_allowed allows_any_origin
IsListed-of_refused p origin e = (
  IsListed-to_lists p.allowed_origins (codes "*") (left_false _ _ e),
  IsListed-to_lists p.allowed_origins origin (right_false _ _ e),
)

-- Nothing is listed where there is no list.
IsListed-of_empty :
    (entries : List Bytes) (text : Bytes) → is_empty entries ≡ true → IsListed text entries → ⊥
unfolding is_empty
IsListed-of_empty [] text e h = h
IsListed-of_empty (x ∷ xs) text e h = cc

allow_headers-vary :
    (p : Policy) (origin : Bytes) (h : Header)
    → allows_any_origin p ≡ false
    → expose p (allow_headers p origin h) (codes "Vary") ≡ h (codes "Vary") ++ codes "Origin" ∷ []
unfolding allow_headers expose set_header add_header bytes_eq
allow_headers-vary p origin h e = elim (Bool-cases (bytes_eq p.expose_headers [])) [
  | inl unset ↦ rw (e, unset) refl
  | inr named ↦ rw (e, named) refl
]

-- A response to a request with an origin is opened to every origin exactly where the list has a star;
-- else to that origin alone, with `Vary`, exactly where the list has it; in all other cases the
-- headers are left as they were.
pub set_headers_allowed :
    (p : Policy) (origin : Bytes) (h : Header)
    → ((origin ≢ [])
        × IsListed (codes "*") p.allowed_origins
        × (set_headers p origin h allow_origin ≡ codes "*" ∷ []))
      ⊎ ((origin ≢ [])
          × (IsListed (codes "*") p.allowed_origins → ⊥)
          × IsListed origin p.allowed_origins
          × (set_headers p origin h allow_origin ≡ origin ∷ [])
          × (set_headers p origin h (codes "Vary") ≡ h (codes "Vary") ++ codes "Origin" ∷ []))
      ⊎ (((origin ≡ [])
            ⊎ ((IsListed (codes "*") p.allowed_origins → ⊥)
                × (IsListed origin p.allowed_origins → ⊥)))
          × (set_headers p origin h ≡ h))
unfolding set_headers
set_headers_allowed p origin h =
    elim (Bool-cases (bytes_eq origin [] || is_empty p.allowed_origins)) [
      | inl closed ↦ inr (inr (none_asked closed, rw closed refl))
      | inr asked ↦ elim (Bool-cases (origin_allowed p origin)) [
        | inr refused ↦
            inr (inr (inr (IsListed-of_refused p origin refused), rw (asked, refused) refl))
        | inl allowed ↦ elim (Bool-cases (allows_any_origin p)) [
          | inl any ↦ inl (
            asks asked,
            IsListed-of_lists p.allowed_origins (codes "*") (unfold allows_any_origin in any),
            rw (asked, allowed) (allow_headers-any p origin h any),
          )
          | inr some_only ↦ inr (
              inl (
                asks asked,
                IsListed-to_lists p.allowed_origins (codes "*")
                    (unfold allows_any_origin in some_only),
                IsListed-of_allowed p origin allowed some_only,
                rw (asked, allowed) (allow_headers-one p origin h some_only),
                rw (asked, allowed) (allow_headers-vary p origin h some_only),
              ))
        ]
      ]
    ]
  where
    asks : (bytes_eq origin [] || is_empty p.allowed_origins) ≡ false → origin ≢ []
    asks e =
        ne_of_bytes_eq origin [] (left_false (bytes_eq origin []) (is_empty p.allowed_origins) e)

    none_asked :
        (bytes_eq origin [] || is_empty p.allowed_origins) ≡ true
        → (origin ≡ [])
          ⊎ ((IsListed (codes "*") p.allowed_origins → ⊥) × (IsListed origin p.allowed_origins → ⊥))
    none_asked e = elim (Bool-cases (bytes_eq origin [])) [
      | inl no_origin ↦ inl (bytes_eq-eq origin [] no_origin)
      | inr named ↦
          let empty = right_true (bytes_eq origin []) (is_empty p.allowed_origins) e named in
          inr (
            IsListed-of_empty p.allowed_origins (codes "*") empty,
            IsListed-of_empty p.allowed_origins origin empty,
          )
    ]
