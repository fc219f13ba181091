-- ===== src/FileStore/Paths.antt =====
-- `paths`: where the two files of a key stand.
use triplet.Common.{
  ℕ, ◌≡◌, refl, ◌≢◌, sym, ap, ◌∙◌, true, false, ◌++◌, [], ◌∷◌, arith, none, some, if◌then◌else◌,
  take, drop, length, List, length-append, ◌+◌,
}
use triplet.Text.{Bytes, codes, contains_byte, last_index_byte}
use triplet.Text.Cut.{Lacks, contains_byte_of_Lacks, contains_byte-append, last_index_byte-append}

-- Two levels of directories before the hash.
unfoldable pub data_path : Bytes → Bytes
data_path hex = take 2 hex ++ b'/' ∷ (take 2 (drop 2 hex) ++ b'/' ∷ hex)

abbrev pub meta_suffix : Bytes
meta_suffix = codes ".meta"

unfoldable pub meta_path : Bytes → Bytes
meta_path hex = data_path hex ++ meta_suffix

-- `filepath.Ext(p)`: from the last dot of the last element.
unfoldable pub ext : Bytes → Bytes
ext p = elim (last_index_byte p b'.') [
  | none ↦ []
  | some dot ↦ if contains_byte (drop dot p) b'/' then [] else drop dot p
]

-- The last element of a path.
unfoldable pub base_name : Bytes → Bytes
base_name p = elim (last_index_byte p b'/') [ none ↦ p | some i ↦ drop (i + 1) p ]

-- What is relied on of a SHA-256 sum in hexadecimal.
pub record IsHash (h : Bytes) : Type 0 where
  pub size : length h ≡ 64
  pub no_dot : Lacks b'.' h
  pub no_slash : Lacks b'/' h

drop-append_all {ℓ} : {A : Type ℓ} (s t : List A) → drop (length s) (s ++ t) ≡ t
drop-append_all [] t = refl
drop-append_all (c ∷ s) t = drop-append_all s t

pub ext-meta : (p : Bytes) → ext (p ++ meta_suffix) ≡ meta_suffix
unfolding ext
ext-meta p =
    rw (last_index_byte-append p b'.' (codes "meta") (omega arith), ext)
      (rw (drop-append_all p meta_suffix) (unfold contains_byte in refl))

data_path_cons :
    (a b c d : ℕ) (r : Bytes)
    → data_path (a ∷ b ∷ c ∷ d ∷ r) ≡ a ∷ b ∷ b'/' ∷ c ∷ d ∷ b'/' ∷ a ∷ b ∷ c ∷ d ∷ r
unfolding data_path
data_path_cons a b c d r = refl

-- A data path determines the hash.
pub drop-data_path : (h : Bytes) → IsHash h → drop 6 (data_path h) ≡ h
unfolding data_path
drop-data_path [] i = absurd (omega arith)
drop-data_path (a ∷ []) i = absurd (omega arith)
drop-data_path (a ∷ b ∷ []) i = absurd (omega arith)
drop-data_path (a ∷ b ∷ c ∷ []) i = absurd (omega arith)
drop-data_path (a ∷ b ∷ c ∷ d ∷ r) i = refl

pub data_path-Lacks_dot : (h : Bytes) → IsHash h → Lacks b'.' (data_path h)
unfolding data_path
data_path-Lacks_dot [] i = absurd (omega arith)
data_path-Lacks_dot (a ∷ []) i = absurd (omega arith)
data_path-Lacks_dot (a ∷ b ∷ []) i = absurd (omega arith)
data_path-Lacks_dot (a ∷ b ∷ c ∷ []) i = absurd (omega arith)
data_path-Lacks_dot (a ∷ b ∷ c ∷ d ∷ r) i = ground (arith, i.no_dot)

pub data_path-ne-meta : (h p : Bytes) → IsHash h → data_path h ≢ p ++ meta_suffix
data_path-ne-meta h p i e = false-ne-true (
    sym (contains_byte_of_Lacks (data_path h) b'.' (data_path-Lacks_dot h i))
    ∙ ap (λ q. contains_byte q b'.') e
    ∙ contains_byte-append p b'.' (codes "meta"))
  where
    false-ne-true : false ≡ true → ⊥
    false-ne-true q = cc

pub data_path_injective : (h k : Bytes) → IsHash h → IsHash k → data_path h ≡ data_path k → h ≡ k
data_path_injective h k i j e = sym (drop-data_path h i) ∙ ap (λ q. drop 6 q) e ∙ drop-data_path k j

append_suffix : (p q s : Bytes) → p ++ s ≡ q ++ s → p ≡ q
append_suffix [] [] s e = refl
append_suffix [] (b ∷ q) s e = absurd (omega (arith, ap length e, length-append (b ∷ q) s))
append_suffix (a ∷ p) [] s e = absurd (omega (arith, ap length e, length-append (a ∷ p) s))
append_suffix (a ∷ p) (b ∷ q) s e = cc (append_suffix p q s (cc))

-- Two paths with the same metadata file are the same.
pub meta_suffix_cancel : (p q : Bytes) → p ++ meta_suffix ≡ q ++ meta_suffix → p ≡ q
meta_suffix_cancel p q e = append_suffix p q meta_suffix e

pub meta_path_injective : (h k : Bytes) → IsHash h → IsHash k → meta_path h ≡ meta_path k → h ≡ k
unfolding meta_path
meta_path_injective h k i j e =
    data_path_injective h k i j (meta_suffix_cancel (data_path h) (data_path k) e)

pub data_path-ne-meta_path : (h k : Bytes) → IsHash h → data_path h ≢ meta_path k
unfolding meta_path
data_path-ne-meta_path h k i = data_path-ne-meta h (data_path k) i
