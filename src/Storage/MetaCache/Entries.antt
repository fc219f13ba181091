-- ===== src/Storage/MetaCache/Entries.antt =====
-- The map of `MetaCaching` as an association list, with its lookups.
use mathlib.Core.Path.{subst}
use triplet.Common.{
  ap, ap₂, sym, ◌∙◌, ℕ, suc, ◌≤◌, ◌≡◌, refl, ◌≢◌, inl, inr, Option, none, some, List, [], ◌∷◌, All,
  arith, Bool-cases, length, if◌then◌else◌,
}
use triplet.Text.{Bytes, bytes_eq}
use triplet.Text.Cut.{bytes_eq_of_ne, bytes_eq-eq, ne_of_bytes_eq}
use triplet.Storage.{Meta}

pub record MetaCacheEntry : Type 0 where
  pub meta : Meta
  pub stored_at : ℕ

abbrev pub Items : Type 0
Items = List (Bytes × MetaCacheEntry)

unfoldable pub lookup : Items → Bytes → Option MetaCacheEntry
lookup [] k = none
lookup ((key, entry) ∷ rest) k = if bytes_eq key k then some entry else lookup rest k

unfoldable pub delete : Items → Bytes → Items
delete [] k = []
delete ((key, entry) ∷ rest) k =
    let others = delete rest k in if bytes_eq key k then others else (key, entry) ∷ others

unfoldable pub insert : Items → Bytes → MetaCacheEntry → Items
insert items k entry = (k, entry) ∷ delete items k

abbrev pub LacksKey : Bytes → Items → Type 0
LacksKey k = All (λ item. item.0 ≢ k)

-- One entry to a key.
abbrev pub HasDistinctKeys : Items → Type 0
HasDistinctKeys [] = Unit
HasDistinctKeys ((key, entry) ∷ rest) = LacksKey key rest × HasDistinctKeys rest

pub All-delete {ℓ} :
    (P : Bytes × MetaCacheEntry → Type ℓ) (items : Items) (k : Bytes)
    → All P items
    → All P (delete items k)
unfolding delete
All-delete P [] k h = tt
All-delete P ((key, entry) ∷ rest) k h = elim (Bool-cases (bytes_eq key k)) [
  | inl same ↦ rw same (All-delete P rest k h.1)
  | inr other ↦ rw other (h.0, All-delete P rest k h.1)
]

pub delete-LacksKey : (items : Items) (k : Bytes) → LacksKey k (delete items k)
unfolding delete
delete-LacksKey [] k = tt
delete-LacksKey ((key, entry) ∷ rest) k = elim (Bool-cases (bytes_eq key k)) [
  | inl same ↦ rw same (delete-LacksKey rest k)
  | inr other ↦ rw other (ne_of_bytes_eq key k other, delete-LacksKey rest k)
]

pub delete-HasDistinctKeys :
    (items : Items) (k : Bytes) → HasDistinctKeys items → HasDistinctKeys (delete items k)
unfolding delete
delete-HasDistinctKeys [] k h = tt
delete-HasDistinctKeys ((key, entry) ∷ rest) k h = elim (Bool-cases (bytes_eq key k)) [
  | inl same ↦ rw same (delete-HasDistinctKeys rest k h.1)
  | inr other ↦
      rw other (All-delete (λ item. item.0 ≢ key) rest k h.0, delete-HasDistinctKeys rest k h.1)
]

pub length-delete : (items : Items) (k : Bytes) → length (delete items k) ≤ length items
unfolding delete
length-delete [] k = omega arith
length-delete ((key, entry) ∷ rest) k = ground (arith, length-delete rest k)

pub lookup_of_LacksKey : (items : Items) (k : Bytes) → LacksKey k items → lookup items k ≡ none
unfolding lookup
lookup_of_LacksKey [] k h = refl
lookup_of_LacksKey ((key, entry) ∷ rest) k h =
    rw (bytes_eq_of_ne key k h.0) (lookup_of_LacksKey rest k h.1)

-- A key that is there makes room.
pub length-delete_key :
    (items : Items) (k : Bytes)
    → lookup items k ≢ none
    → suc (length (delete items k)) ≤ length items
unfolding delete lookup
length-delete_key [] k h = absurd (h refl)
length-delete_key ((key, entry) ∷ rest) k h = elim (Bool-cases (bytes_eq key k)) [
  | inl same ↦ rw same (omega (arith, length-delete rest k))
  | inr other ↦ rw other (omega (arith, length-delete_key rest k (rw other at h)))
]

pub lookup-delete_ne :
    (items : Items) (k q : Bytes) → q ≢ k → lookup (delete items k) q ≡ lookup items q
unfolding delete lookup
lookup-delete_ne [] k q h = refl
lookup-delete_ne ((key, entry) ∷ rest) k q h = elim (Bool-cases (bytes_eq key k)) [
  | inl same ↦ rw same (
      rw (bytes_eq_of_ne key q (λ e. h (sym e ∙ bytes_eq-eq key k same)))
        (lookup-delete_ne rest k q h))
  | inr other ↦ rw other (
      ap (λ (o : Option MetaCacheEntry). if bytes_eq key q then some entry else o)
        (lookup-delete_ne rest k q h))
]

pub lookup-delete_self : (items : Items) (k : Bytes) → lookup (delete items k) k ≡ none
lookup-delete_self items k = lookup_of_LacksKey (delete items k) k (delete-LacksKey items k)

pub some_inj : {a b : MetaCacheEntry} → some a ≡ some b → a ≡ b
some_inj e = cc

-- A property of all entries holds of one that a lookup finds.
pub All-lookup {ℓ} :
    (P : Bytes × MetaCacheEntry → Type ℓ) (items : Items) (k : Bytes) (entry : MetaCacheEntry)
    → All P items
    → lookup items k ≡ some entry
    → P (k, entry)
unfolding lookup
All-lookup P [] k entry h e = absurd cc
All-lookup P ((key, found) ∷ rest) k entry h e = elim (Bool-cases (bytes_eq key k)) [
  | inl same ↦
      subst P
        (ap₂ (λ (q : Bytes) (m : MetaCacheEntry). (q, m)) (bytes_eq-eq key k same)
          (some_inj (rw same at e)))
        h.0
  | inr other ↦ All-lookup P rest k entry h.1 (rw other at e)
]
