-- ===== src/Storage/Http/Redirects.antt =====
-- Where a request may be led, and with which credentials.
use triplet.Common.{◌≡◌, refl, ◌⊎◌, inl, inr, true, List, [], ◌∷◌, arith, leb, length, Bool-cases}
use triplet.Text.{Bytes, codes, bytes_eq}
use triplet.Text.Cut.{bytes_eq-eq}
use triplet.Http.{Header}
use triplet.Storage.Http.{
  Url, HttpOpener, Redirect, check_redirect, scoped_header, origin_allowed, is_http, url_origin,
}

-- No credentials.
abbrev pub IsBare : Header → Type 0
IsBare header = (header (codes "Authorization") ≡ []) × (header (codes "Cookie") ≡ [])

scoped_header-IsBare :
    (origin : Bytes) (header : Header) (first : Url) (rest : List Url)
    → (origin ≡ url_origin first) ⊎ IsBare (scoped_header origin header (first ∷ rest))
unfolding scoped_header bytes_eq
scoped_header-IsBare origin header first rest =
    elim (Bool-cases (bytes_eq origin (url_origin first))) [
      | inl same ↦ inl (bytes_eq-eq _ _ same)
      | inr other ↦ inr (rw other (refl, refl))
    ]

-- A redirect that is followed leads to an http or https URL of an allowed origin, and to another
-- origin than that of the first request it takes neither `Authorization` nor `Cookie`.
pub check_redirect-IsBare :
    (h : HttpOpener) (u first : Url) (header followed : Header) (rest : List Url)
    → check_redirect h u header (first ∷ rest) ≡ Redirect.follow followed
    → (is_http u ≡ true)
      × (origin_allowed h u ≡ true)
      × ((url_origin u ≡ url_origin first) ⊎ IsBare followed)
unfolding check_redirect
check_redirect-IsBare h u first header followed rest e =
    let scoped = scoped_header-IsBare (url_origin u) header first rest in
    elim (Bool-cases (leb 10 (length (first ∷ rest)))) [
      | inl many ↦ absurd (used (rw many at e))
      | inr few ↦ elim (Bool-cases (is_http u)) [
        | inr other ↦ absurd (refusal (rw (few, other) at e))
        | inl http ↦ elim (Bool-cases (origin_allowed h u)) [
          | inr unknown ↦ absurd (refusal (rw (few, http, unknown) at e))
          | inl known ↦ (http, known, bare_or_same scoped (rw (few, http, known) at e))
        ]
      ]
    ]
  where
    used : Redirect.use_last ≡ Redirect.follow followed → ⊥
    used q = cc

    refusal : Redirect.refused ≡ Redirect.follow followed → ⊥
    refusal q = cc

    bare_or_same :
        {sent : Header}
        → (url_origin u ≡ url_origin first) ⊎ IsBare sent
        → Redirect.follow sent ≡ Redirect.follow followed
        → (url_origin u ≡ url_origin first) ⊎ IsBare followed
    bare_or_same (inl same) q = inl same
    bare_or_same (inr none_sent) q = inr (ground (arith, none_sent, q))
