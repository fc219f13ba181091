-- ===== src/Storage/Multiplex.antt =====
-- internal/storage/multiplex.go: the first route that matches an identifier, or the default.
use triplet.Common.{
  ap, sym, ◌∙◌, ◌≡◌, ◌≢◌, ◌⊎◌, inl, inr, refl, Bool, true, false, ◌&&◌, ◌||◌, not, Option, none,
  some, Result, ok, err, List, [], ◌∷◌, ◌++◌, arith, All, if◌then◌else◌, Bool-cases, Option-cases,
}
use triplet.Text.{Bytes, codes, bytes_eq, has_prefix, cut_prefix}
use triplet.Text.Cut.{
  bytes_eq_of_ne, ne_of_bytes_eq, cut_prefix-append, append_of_cut_prefix, prefix_of_none,
  prefix_of_some,
}
use triplet.Storage.{Meta, Opener, OpenError}

pub record Route (World Body : Type 0) : Type 0 where
  pub has_prefix : Bytes
  pub has_scheme : Bytes
  pub opener : Opener World Body

pub record Multiplex (World Body : Type 0) : Type 0 where
  pub routes : List (Route World Body)
  pub default : Option (Opener World Body)

abbrev pub scheme_end : Bytes
scheme_end = codes "://"

-- The text starts with a prefix that is not empty.
abbrev StartsWith : Bytes → Bytes → Bytes → Type 0
StartsWith identifier named prefix = (named ≢ []) × ((rest : Bytes) × (identifier ≡ prefix ++ rest))

starts_of_test :
    (identifier named prefix : Bytes)
    → (not (bytes_eq named []) && has_prefix identifier prefix) ≡ true
    → StartsWith identifier named prefix
starts_of_test identifier named prefix e = elim (Bool-cases (bytes_eq named [])) [
  | inl unset ↦ absurd (unequal (rw unset at e))
  | inr is_set ↦ elim (Option-cases (cut_prefix identifier prefix)) [
    | inl differs ↦
        absurd (unequal (sym (prefix_of_none identifier prefix differs).0 ∙ (rw is_set at e)))
    | inr (rest, cut) ↦
        (ne_of_bytes_eq named [] is_set, (rest, append_of_cut_prefix identifier prefix rest cut))
  ]
]
  where
    unequal : false ≡ true → ⊥
    unequal q = cc

test_of_starts :
    (identifier named prefix : Bytes)
    → StartsWith identifier named prefix
    → (not (bytes_eq named []) && has_prefix identifier prefix) ≡ true
unfolding has_prefix
test_of_starts identifier named prefix (set, (rest, e)) =
    rw (bytes_eq_of_ne named [] set, e)
      (prefix_of_some (prefix ++ rest) prefix rest (cut_prefix-append prefix rest)).0

module _ {World Body : Type 0} where
  unfoldable pub matches : Route World Body → Bytes → Bool
  unfolding bytes_eq
  matches r identifier =
      not (bytes_eq r.has_prefix []) && has_prefix identifier r.has_prefix
      || not (bytes_eq r.has_scheme []) && has_prefix identifier (r.has_scheme ++ scheme_end)

  unfoldable pub first_route : List (Route World Body) → Bytes → Option (Opener World Body)
  first_route [] identifier = none
  first_route (r ∷ rs) identifier =
      let rest = first_route rs identifier in if matches r identifier then some r.opener else rest

  -- `route`.
  unfoldable pub route : Multiplex World Body → Bytes → Result OpenError (Opener World Body)
  unfolding first_route
  route m identifier = elim (first_route m.routes identifier) [
    | some opener ↦ ok opener
    | none ↦ elim m.default [ none ↦ err OpenError.not_found | some opener ↦ ok opener ]
  ]

  -- `Open`.
  unfoldable pub routed_open :
      Multiplex World Body → World → Bytes → World × Result OpenError (Body × Meta)
  routed_open m w identifier = elim (route m identifier) [
    | err e ↦ (w, err e)
    | ok opener ↦ opener.open_source w identifier
  ]

  -- `Meta`.
  unfoldable pub routed_meta : Multiplex World Body → World → Bytes → World × Result OpenError Meta
  routed_meta m w identifier = elim (route m identifier) [
    | err e ↦ (w, err e)
    | ok opener ↦ elim opener.read_meta [
      | none ↦ (w, err OpenError.meta_unavailable)
      | some read ↦ read w identifier
    ]
  ]

  -- What it is for a route to match: by its prefix or by its scheme, one that is set.
  abbrev pub IsMatch : Bytes → Route World Body → Type 0
  IsMatch identifier r =
      StartsWith identifier r.has_prefix r.has_prefix
      ⊎ StartsWith identifier r.has_scheme (r.has_scheme ++ scheme_end)

  matches_of_IsMatch :
      (r : Route World Body) (identifier : Bytes)
      → IsMatch identifier r
      → matches r identifier ≡ true
  unfolding matches
  matches_of_IsMatch r identifier (inl s) =
      rw (test_of_starts identifier r.has_prefix r.has_prefix s) refl
  matches_of_IsMatch r identifier (inr s) =
      let e = test_of_starts identifier r.has_scheme (r.has_scheme ++ scheme_end) s in ground arith

  IsMatch-of_matches :
      (r : Route World Body) (identifier : Bytes)
      → matches r identifier ≡ true
      → IsMatch identifier r
  unfolding matches
  IsMatch-of_matches r identifier e =
      elim (Bool-cases (not (bytes_eq r.has_prefix []) && has_prefix identifier r.has_prefix)) [
        | inl by_prefix ↦ inl (starts_of_test identifier r.has_prefix r.has_prefix by_prefix)
        | inr other ↦
            inr
              (starts_of_test identifier r.has_scheme (r.has_scheme ++ scheme_end) (rw other at e))
      ]

  -- The routes before the first that matches, and it.
  pub record IsFirst (rs : List (Route World Body)) (identifier : Bytes)
      (opener : Opener World Body) : Type 0 where
    before : List (Route World Body)
    chosen : Route World Body
    after : List (Route World Body)
    split : rs ≡ before ++ chosen ∷ after
    earlier : All (λ r. IsMatch identifier r → ⊥) before
    match_chosen : IsMatch identifier chosen
    answer : chosen.opener ≡ opener

  no_match :
      (r : Route World Body) (identifier : Bytes)
      → matches r identifier ≡ false
      → IsMatch identifier r
      → ⊥
  no_match r identifier e m = unequal (sym e ∙ matches_of_IsMatch r identifier m)
    where
      unequal : false ≡ true → ⊥
      unequal q = cc

  first_route_lem :
      (rs : List (Route World Body)) (identifier : Bytes)
      → ((first_route rs identifier ≡ none) × All (λ r. IsMatch identifier r → ⊥) rs)
        ⊎ ((opener : Opener World Body) × (first_route rs identifier ≡ some opener)
            × IsFirst rs identifier opener)
  unfolding first_route
  first_route_lem [] identifier = inl (refl, tt)
  first_route_lem (r ∷ rs) identifier = elim (Bool-cases (matches r identifier)) [
    | inl here ↦ inr (
      r.opener,
      rw here refl,
      record {
        before = [];
        chosen = r;
        after = rs;
        split = refl;
        earlier = tt;
        match_chosen = IsMatch-of_matches r identifier here;
        answer = refl;
      },
    )
    | inr there ↦ elim (first_route_lem rs identifier) [
      | inl (e, none_match) ↦ inl (rw there e, (no_match r identifier there, none_match))
      | inr (opener, e, first) ↦ inr (
        opener,
        rw there e,
        record {
          before = r ∷ first.before;
          chosen = first.chosen;
          after = first.after;
          split = ap (λ l. r ∷ l) first.split;
          earlier = (no_match r identifier there, first.earlier);
          match_chosen = first.match_chosen;
          answer = first.answer;
        },
      )
    ]
  ]

  -- `route` answers with the opener of the first route whose prefix or scheme the identifier starts
  -- with; if there is none, with the default, or by `ErrNotFound` where no default is set.
  pub route-IsFirst :
      (m : Multiplex World Body) (identifier : Bytes)
      → ((opener : Opener World Body) × (route m identifier ≡ ok opener)
          × IsFirst m.routes identifier opener)
        ⊎ (All (λ r. IsMatch identifier r → ⊥) m.routes
            × (((opener : Opener World Body) × (m.default ≡ some opener)
                  × (route m identifier ≡ ok opener))
                ⊎ ((m.default ≡ none) × (route m identifier ≡ err OpenError.not_found))))
  unfolding route
  route-IsFirst m identifier = elim (first_route_lem m.routes identifier) [
    | inr (opener, e, first) ↦ inl (opener, rw (e, route) refl, first)
    | inl (e, none_match) ↦ inr (
      none_match,
      elim (Option-cases m.default) [
        | inl unset ↦ inr (unset, rw (e, route) (rw (unset, route) refl))
        | inr (opener, is_set) ↦ inl (opener, is_set, rw (e, route) (rw (is_set, route) refl))
      ],
    )
  ]
