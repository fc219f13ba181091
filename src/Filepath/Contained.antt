-- ===== src/Filepath/Contained.antt =====
-- What passes the test on `filepath.Rel` lies under the base.
use mathlib.Core.Path.{subst}
use triplet.Common.{
  ℕ, ◌≡◌, refl, sym, ap, ◌∙◌, inl, inr, true, false, List, [], ◌∷◌, ◌++◌, map, arith, All,
  All-append, Bool-cases, append_assoc, append-nil,
}
use triplet.Text.{Bytes, codes, bytes_eq, split, join, has_prefix, cut_prefix}
use triplet.Text.Cut.{Lacks, bytes_eq-eq, bytes_eq_refl, split-join, split-ne-nil}
use triplet.Filepath.{
  dot_dot, drop_last, enter, resolve, elements, rooted, clean, rel_names, rel_text, rel, escapes,
}

-- The name of one entry of a directory.
pub record IsName (p : Bytes) : Type 0 where
  pub no_slash : Lacks b'/' p
  pub filled : bytes_eq p [] ≡ false
  pub not_dot : bytes_eq p (codes ".") ≡ false
  pub not_dot_dot : bytes_eq p dot_dot ≡ false

-- A path under another one.
abbrev pub Under : Bytes → Bytes → Type 0
Under base path = (rest : List Bytes) × (path ≡ rooted (elements base ++ rest)) × All IsName rest

drop_last-All {ℓ} : (P : Bytes → Type ℓ) (ps : List Bytes) → All P ps → All P (drop_last ps)
drop_last-All P [] h = tt
drop_last-All P (p ∷ []) h = tt
drop_last-All P (p ∷ q ∷ ps) h = (h.0, drop_last-All P (q ∷ ps) h.1)

enter-All :
    (names : List Bytes) (p : Bytes) → All IsName names → Lacks b'/' p → All IsName (enter names p)
unfolding enter
enter-All names p h l = elim (Bool-cases (bytes_eq p [])) [
  | inl e ↦ rw e h
  | inr filled ↦ elim (Bool-cases (bytes_eq p (codes "."))) [
    | inl e ↦ rw (filled, e) h
    | inr not_dot ↦ elim (Bool-cases (bytes_eq p dot_dot)) [
      | inl e ↦ rw (filled, not_dot, e) (drop_last-All IsName names h)
      | inr up ↦
          rw (filled, not_dot, up) (All-append IsName names (p ∷ []) h (name filled not_dot up, tt))
    ]
  ]
]
  where
    name :
        bytes_eq p [] ≡ false
        → bytes_eq p (codes ".") ≡ false
        → bytes_eq p dot_dot ≡ false
        → IsName p
    name f d u = record { no_slash = l; filled = f; not_dot = d; not_dot_dot = u }

resolve-All :
    (names ps : List Bytes) → All IsName names → All (Lacks b'/') ps → All IsName (resolve names ps)
unfolding resolve
resolve-All names [] h l = h
resolve-All names (p ∷ ps) h l = resolve-All (enter names p) ps (enter-All names p h l.0) l.1

split-Lacks : (s : Bytes) → All (Lacks b'/') (split s b'/')
unfolding split
split-Lacks [] = (tt, tt)
split-Lacks (c ∷ s) = let (p, ps, e) = split-ne-nil s b'/' in ground (arith, split-Lacks s, e)

pub elements-IsName : (path : Bytes) → All IsName (elements path)
unfolding elements
elements-IsName path = resolve-All [] (split path b'/') tt (split-Lacks path)

IsName-Lacks : (ps : List Bytes) → All IsName ps → All (Lacks b'/') ps
IsName-Lacks [] h = tt
IsName-Lacks (p ∷ ps) h = (h.0.no_slash, IsName-Lacks ps h.1)

enter-name : (names : List Bytes) (p : Bytes) → IsName p → enter names p ≡ names ++ p ∷ []
unfolding enter
enter-name names p h = ground (arith, h.filled, h.not_dot, h.not_dot_dot)

resolve-names : (names ps : List Bytes) → All IsName ps → resolve names ps ≡ names ++ ps
unfolding resolve
resolve-names names [] h = sym (append-nil names)
resolve-names names (p ∷ ps) h =
    ap (λ r. resolve r ps) (enter-name names p h.0)
    ∙ resolve-names (names ++ p ∷ []) ps h.1
    ∙ append_assoc names (p ∷ []) ps

-- A rooted path of names has these elements.
pub elements-rooted : (ps : List Bytes) → All IsName ps → elements (rooted ps) ≡ ps
unfolding elements split resolve enter bytes_eq join
elements-rooted [] h = refl
elements-rooted (p ∷ ps) h =
    ap (resolve []) (ap (λ r. [] ∷ r) (split-join p ps b'/' (IsName-Lacks (p ∷ ps) h)))
    ∙ resolve-names [] (p ∷ ps) h

rel_text-escapes :
    (bs ts : List Bytes) → escapes (rel_text (dot_dot ∷ map (λ _. dot_dot) bs ++ ts)) ≡ true
unfolding escapes join has_prefix cut_prefix bytes_eq
rel_text-escapes [] [] = refl
rel_text-escapes [] (t ∷ ts) = refl
rel_text-escapes (b ∷ bs) ts = refl

map-append-nil : (bs : List Bytes) → map (λ _. dot_dot) bs ++ [] ≡ map (λ _. dot_dot) bs
map-append-nil bs = append-nil _

unequal : true ≡ false → ⊥
unequal q = cc

-- A relative path that does not go up is what the target adds to the base.
rel_names-stays :
    (bs ts : List Bytes) → escapes (rel_text (rel_names bs ts)) ≡ false → ts ≡ bs ++ rel_names bs ts
unfolding rel_names
rel_names-stays [] ts h = refl
rel_names-stays (b ∷ bs) [] h = absurd (
    unequal (
      sym (rel_text-escapes bs [])
      ∙ ap (λ r. escapes (rel_text (dot_dot ∷ r))) (map-append-nil bs)
      ∙ h))
rel_names-stays (b ∷ bs) (t ∷ ts) h = elim (Bool-cases (bytes_eq b t)) [
  | inr other ↦ absurd (unequal (sym (rel_text-escapes bs (t ∷ ts)) ∙ rw other at h))
  | inl same ↦
      let tail = rel_names-stays bs ts (rw same at h) in rw same (cc (tail, bytes_eq-eq b t same))
]

All-tail {ℓ} : (P : Bytes → Type ℓ) (ps qs : List Bytes) → All P (ps ++ qs) → All P qs
All-tail P [] qs h = h
All-tail P (p ∷ ps) qs h = All-tail P ps qs h.1

-- A path whose relative path does not go up lies under the base.
pub Under-rel : (base path : Bytes) → escapes (rel base path) ≡ false → Under base (clean path)
unfolding rel clean
Under-rel base path h =
    let grown = rel_names-stays (elements base) (elements path) h in
    (
      rel_names (elements base) (elements path),
      ap rooted grown,
      All-tail IsName (elements base) _ (subst (All IsName) grown (elements-IsName path)),
    )

pub clean-clean : (path : Bytes) → clean (clean path) ≡ clean path
unfolding clean
clean-clean path = ap rooted (elements-rooted (elements path) (elements-IsName path))

dot_slash :
    (c : ℕ) (s t : Bytes)
    → Lacks b'/' (c ∷ s)
    → bytes_eq (c ∷ s) dot_dot ≡ false
    → has_prefix (c ∷ s ++ b'/' ∷ t) (codes "../") ≡ false
unfolding has_prefix cut_prefix bytes_eq
dot_slash c [] t l h = ground arith
dot_slash c (d ∷ []) t l h = ground arith
dot_slash c (d ∷ e ∷ s) t l h = ground arith

dot_slash_alone : (s : Bytes) → Lacks b'/' s → has_prefix s (codes "../") ≡ false
unfolding has_prefix cut_prefix
dot_slash_alone [] l = refl
dot_slash_alone (c ∷ []) l = ground arith
dot_slash_alone (c ∷ d ∷ []) l = ground arith
dot_slash_alone (c ∷ d ∷ e ∷ s) l = ground arith

two_names : (s t : Bytes) → Lacks b'/' s → bytes_eq (s ++ b'/' ∷ t) dot_dot ≡ false
unfolding bytes_eq
two_names [] t l = refl
two_names (c ∷ []) t l = ground arith
two_names (c ∷ d ∷ []) t l = ground arith
two_names (c ∷ d ∷ e ∷ s) t l = ground arith

names_stay : (ps : List Bytes) → All IsName ps → escapes (rel_text ps) ≡ false
unfolding escapes join
names_stay [] h = unfold has_prefix in unfold cut_prefix in unfold bytes_eq in refl
names_stay (p ∷ []) h = rw (h.0.not_dot_dot, dot_slash_alone p h.0.no_slash)
names_stay ([] ∷ q ∷ ps) h = unfold has_prefix in unfold cut_prefix in unfold bytes_eq in refl
names_stay ((c ∷ s) ∷ q ∷ ps) h = rw (
  two_names (c ∷ s) (join (q ∷ ps) b'/') h.0.no_slash,
  dot_slash c s (join (q ∷ ps) b'/') h.0.no_slash h.0.not_dot_dot,
)

rel_names-append : (bs cs : List Bytes) → rel_names bs (bs ++ cs) ≡ cs
unfolding rel_names
rel_names-append [] cs = refl
rel_names-append (b ∷ bs) cs = rw (bytes_eq_refl b) (rel_names-append bs cs)

-- A path of names behind those of the base does not go up.
pub rel-stays :
    (base : Bytes) (ps : List Bytes)
    → All IsName ps
    → escapes (rel base (rooted (elements base ++ ps))) ≡ false
unfolding rel
rel-stays base ps h =
    ap (λ r. escapes (rel_text (rel_names (elements base) r)))
      (elements-rooted (elements base ++ ps)
        (All-append IsName (elements base) ps (elements-IsName base) h))
    ∙ ap (λ r. escapes (rel_text r)) (rel_names-append (elements base) ps)
    ∙ names_stay ps h
