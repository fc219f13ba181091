-- ===== src/Text/Cut.antt =====
-- Cutting, joining and testing byte strings: the facts that the proofs about the program share.
use mathlib.Core.List.{cons-ne-nil}
use mathlib.Core.Path.{subst}
use triplet.Common.{
  ℕ, suc, ◌≡◌, ◌∙◌, refl, sym, ap, ◌↔◌, ◌≢◌, true, false, List, [], ◌∷◌, ◌++◌, none, some, arith,
  ◌==◌, ==_iff, All, All-append, Bool-cases, Option-cases, inl, inr, length, take, drop,
}
use triplet.Text.{
  Bytes, bytes_eq, contains_byte, contains_any, split, join, push, cut_prefix, has_prefix,
  trim_prefix, last_index_byte, cut,
}

abbrev pub Lacks : ℕ → Bytes → Type 0
Lacks b = All (λ c. c ≢ b)

pub bytes_eq-eq : (s t : Bytes) → bytes_eq s t ≡ true → s ≡ t
unfolding bytes_eq
bytes_eq-eq [] [] h = refl
bytes_eq-eq [] (b ∷ t) h = cc
bytes_eq-eq (a ∷ s) [] h = cc
bytes_eq-eq (a ∷ s) (b ∷ t) h = ground (arith, bytes_eq-eq s t)

pub bytes_eq_refl : (s : Bytes) → bytes_eq s s ≡ true
unfolding bytes_eq
bytes_eq_refl [] = refl
bytes_eq_refl (a ∷ s) = ground (arith, bytes_eq_refl s)

pub bytes_eq_iff : (s t : Bytes) → (bytes_eq s t ≡ true) ↔ (s ≡ t)
bytes_eq_iff s t = (bytes_eq-eq s t, λ e. rw e (bytes_eq_refl t))

pub ne_of_bytes_eq : (s t : Bytes) → bytes_eq s t ≡ false → s ≢ t
ne_of_bytes_eq s t h e = absurd (unequal (sym h ∙ ap (λ r. bytes_eq r t) e ∙ bytes_eq_refl t))
  where
    unequal : false ≡ true → ⊥
    unequal q = cc

pub bytes_eq_of_ne : (s t : Bytes) → s ≢ t → bytes_eq s t ≡ false
bytes_eq_of_ne s t h = elim (Bool-cases (bytes_eq s t)) [
  | inl e ↦ absurd (h (bytes_eq-eq s t e))
  | inr e ↦ e
]

pub contains_byte_of_Lacks : (s : Bytes) (b : ℕ) → Lacks b s → contains_byte s b ≡ false
unfolding contains_byte
contains_byte_of_Lacks [] b h = refl
contains_byte_of_Lacks (c ∷ s) b h = ground (arith, contains_byte_of_Lacks s b)

pub contains_byte-append : (s : Bytes) (b : ℕ) (t : Bytes) → contains_byte (s ++ b ∷ t) b ≡ true
unfolding contains_byte
contains_byte-append [] b t = ground arith
contains_byte-append (c ∷ s) b t = ground (arith, contains_byte-append s b t)

pub contains_any_of_All :
    (s chars : Bytes) → All (λ c. contains_byte chars c ≡ false) s → contains_any s chars ≡ false
unfolding contains_any
contains_any_of_All [] chars h = refl
contains_any_of_All (c ∷ s) chars h = ground (arith, contains_any_of_All s chars)

-- Text with a byte is no text that lacks it.
pub bytes_eq_of_contains :
    (s t : Bytes) (b : ℕ)
    → contains_byte s b ≡ true
    → contains_byte t b ≡ false
    → bytes_eq s t ≡ false
bytes_eq_of_contains s t b h k = bytes_eq_of_ne s t (λ e. cc (ap (λ u. contains_byte u b) e))

pub split_of_Lacks : (s : Bytes) (sep : ℕ) → Lacks sep s → split s sep ≡ s ∷ []
unfolding split
split_of_Lacks [] sep h = refl
split_of_Lacks (c ∷ s) sep h = ground (arith, split_of_Lacks s sep)

pub split-append :
    (s : Bytes) (sep : ℕ) (t : Bytes) → Lacks sep s → split (s ++ sep ∷ t) sep ≡ s ∷ split t sep
unfolding split
split-append [] sep t h = ground arith
split-append (c ∷ s) sep t h = ground (arith, split-append s sep t)

pub cut_prefix-append : (p s : Bytes) → cut_prefix (p ++ s) p ≡ some s
unfolding cut_prefix
cut_prefix-append [] [] = refl
cut_prefix-append [] (c ∷ s) = refl
cut_prefix-append (b ∷ p) s = ground (arith, cut_prefix-append p s)

pub append_of_cut_prefix : (s p : Bytes) (t : Bytes) → cut_prefix s p ≡ some t → s ≡ p ++ t
unfolding cut_prefix
append_of_cut_prefix [] [] t e = cc
append_of_cut_prefix (c ∷ s) [] t e = cc
append_of_cut_prefix [] (b ∷ p) t e = absurd cc
append_of_cut_prefix (c ∷ s) (b ∷ p) t e = elim (Bool-cases (c == b)) [
  | inr ne ↦ absurd (none_some (rw ne at e))
  | inl same ↦
      let head = (==_iff c b).0 same in let tail = append_of_cut_prefix s p t (rw same at e) in cc
]
  where
    none_some : {q : Bytes} → none ≡ some q → ⊥
    none_some q = cc

pub cut_prefix_ne :
    (c : ℕ) (s : Bytes) (b : ℕ) (p : Bytes) → c ≢ b → cut_prefix (c ∷ s) (b ∷ p) ≡ none
unfolding cut_prefix
cut_prefix_ne c s b p h = ground arith

pub last_index_byte_of_Lacks : (s : Bytes) (b : ℕ) → Lacks b s → last_index_byte s b ≡ none
unfolding last_index_byte
last_index_byte_of_Lacks [] b h = refl
last_index_byte_of_Lacks (c ∷ s) b h = ground (arith, last_index_byte_of_Lacks s b)

pub last_index_byte-append :
    (s : Bytes) (b : ℕ) (t : Bytes) → Lacks b t → last_index_byte (s ++ b ∷ t) b ≡ some (length s)
unfolding last_index_byte
last_index_byte-append [] b t h = ground (arith, last_index_byte_of_Lacks t b)
last_index_byte-append (c ∷ s) b t h = rw (last_index_byte-append s b t h)

pub take-append_length {ℓ} : {A : Type ℓ} (s t : List A) → take (length s) (s ++ t) ≡ s
take-append_length [] t = refl
take-append_length (c ∷ s) t = ap (λ r. c ∷ r) (take-append_length s t)

pub drop-append_length {ℓ} :
    {A : Type ℓ} (s : List A) (b : A) (t : List A) → drop (suc (length s)) (s ++ b ∷ t) ≡ t
drop-append_length [] b [] = refl
drop-append_length [] b (c ∷ t) = refl
drop-append_length (c ∷ s) b t = drop-append_length s b t

pub prefix_of_none :
    (s p : Bytes) → cut_prefix s p ≡ none → (has_prefix s p ≡ false) × (trim_prefix s p ≡ s)
unfolding has_prefix trim_prefix
prefix_of_none s p e = (rw (e, has_prefix), rw (e, trim_prefix))

pub prefix_of_some :
    (s p t : Bytes) → cut_prefix s p ≡ some t → (has_prefix s p ≡ true) × (trim_prefix s p ≡ t)
unfolding has_prefix trim_prefix
prefix_of_some s p t e = (rw (e, has_prefix), rw (e, trim_prefix))

pub split-ne-nil : (s : Bytes) (sep : ℕ) → (p : Bytes) × (ps : List Bytes) × (split s sep ≡ p ∷ ps)
unfolding split
split-ne-nil [] sep = ([], [], refl)
split-ne-nil (c ∷ s) sep =
    let (p, ps, e) = split-ne-nil s sep in
    elim (Bool-cases (c == sep)) [
      | inl same ↦ ([], split s sep, rw same refl)
      | inr other ↦ (c ∷ p, ps, rw other (rw (e, push) refl))
    ]

push-append :
    (c : ℕ) (p : Bytes) (ps qs : List Bytes) → push c ((p ∷ ps) ++ qs) ≡ push c (p ∷ ps) ++ qs
push-append c p ps qs = refl

-- Splitting at a separator splits both sides of it.
pub split-append_any :
    (s : Bytes) (sep : ℕ) (t : Bytes) → split (s ++ sep ∷ t) sep ≡ split s sep ++ split t sep
unfolding split
split-append_any [] sep t = ground arith
split-append_any (c ∷ s) sep t =
    let (p, ps, e) = split-ne-nil s sep in
    elim (Bool-cases (c == sep)) [
      | inl same ↦ rw (same, split-append_any s sep t) refl
      | inr other ↦ rw (other, split-append_any s sep t, e) refl
    ]

join-push :
    (c : ℕ) (p : Bytes) (ps : List Bytes) (sep : ℕ)
    → join (push c (p ∷ ps)) sep ≡ c ∷ join (p ∷ ps) sep
unfolding join
join-push c p [] sep = refl
join-push c p (q ∷ ps) sep = refl

join-nil_cons : (ps : List Bytes) (sep : ℕ) → ps ≢ [] → join ([] ∷ ps) sep ≡ sep ∷ join ps sep
unfolding join
join-nil_cons [] sep h = absurd (h refl)
join-nil_cons (p ∷ ps) sep h = refl

-- Joining the parts of a split gives the text back.
pub join-split : (text : Bytes) (at_byte : ℕ) → join (split text at_byte) at_byte ≡ text
unfolding split
join-split [] sep = unfold join in refl
join-split (c ∷ s) sep =
    let (p, ps, e) = split-ne-nil s sep in
    elim (Bool-cases (c == sep)) [
      | inl same ↦ rw same (
          rw (join-nil_cons (split s sep) sep (rw e (cons-ne-nil p ps)), join-split s sep)
            (ap (λ b. b ∷ s) (sym ((==_iff c sep).0 same))))
      | inr other ↦ rw (other, e) (rw (join-push c p ps sep, ← e, join-split s sep) refl)
    ]

-- Splitting gives back the parts that were joined.
pub split-join :
    (p : Bytes) (ps : List Bytes) (sep : ℕ)
    → All (Lacks sep) (p ∷ ps)
    → split (join (p ∷ ps) sep) sep ≡ p ∷ ps
unfolding join
split-join p [] sep h = split_of_Lacks p sep h.0
split-join p (q ∷ ps) sep h =
    split-append p sep (join (q ∷ ps) sep) h.0 ∙ ap (λ r. p ∷ r) (split-join q ps sep h.1)

-- What holds for every byte of a text holds for those of its parts.
pub split-All {ℓ} : (P : ℕ → Type ℓ) (s : Bytes) (sep : ℕ) → All P s → All (All P) (split s sep)
unfolding split
split-All P [] sep h = (tt, tt)
split-All P (c ∷ s) sep h =
    let (p, ps, e) = split-ne-nil s sep in
    let parts = subst (All (All P)) e (split-All P s sep h.1) in
    elim (Bool-cases (c == sep)) [
      | inl same ↦ rw same (tt, split-All P s sep h.1)
      | inr other ↦ rw (other, e) ((h.0, parts.0), parts.1)
    ]

pub join-All {ℓ} :
    (P : ℕ → Type ℓ) (ps : List Bytes) (sep : ℕ) → P sep → All (All P) ps → All P (join ps sep)
unfolding join
join-All P [] sep k h = tt
join-All P (p ∷ []) sep k h = h.0
join-All P (p ∷ q ∷ ps) sep k h = All-append P p _ h.0 (k, join-All P (q ∷ ps) sep k h.1)

All-back {ℓ} : (P : ℕ → Type ℓ) (front back : Bytes) → All P (front ++ back) → All P back
All-back P [] back h = h
All-back P (c ∷ front) back h = All-back P front back h.1

pub trim_prefix-All {ℓ} : (P : ℕ → Type ℓ) (s p : Bytes) → All P s → All P (trim_prefix s p)
unfolding trim_prefix
trim_prefix-All P s p h = elim (Option-cases (cut_prefix s p)) [
  | inl absent ↦ rw (absent, trim_prefix) h
  | inr (rest, found) ↦
      rw (found, trim_prefix)
        (All-back P p rest (subst (All P) (append_of_cut_prefix s p rest found) h))
]

pub cut-append :
    (s : Bytes) (sep : ℕ) (t : Bytes) → Lacks sep s → cut (s ++ sep ∷ t) sep ≡ some (s, t)
unfolding cut
cut-append [] sep t h = ground arith
cut-append (c ∷ s) sep t h = ground (arith, cut-append s sep t)
