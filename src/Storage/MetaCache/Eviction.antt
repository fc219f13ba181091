-- ===== src/Storage/MetaCache/Eviction.antt =====
-- Which entry of the map of `MetaCaching` goes, and what a lookup finds after `store`.
use mathlib.Core.Path.{subst}
use triplet.Common.{
  ℕ, ◌≤◌, ◌≡◌, ◌≢◌, ◌⊎◌, inl, inr, sym, ap, ◌∙◌, true, false, some, [], ◌∷◌, All, arith, Bool-cases,
  length, leb, leb→le,
}
use triplet.Common.Int.{ltb_ℤ, pos}
use triplet.Text.{Bytes, bytes_eq}
use triplet.Text.Cut.{bytes_eq_refl, bytes_eq_of_ne, bytes_eq-eq, ne_of_bytes_eq}
use triplet.FileStore.{since}
use triplet.Storage.{Meta}
use triplet.Storage.MetaCache.{MetaCaching, entry_bound, oldest, older, make_room, get, store}
use triplet.Storage.MetaCache.Entries.{
  Items, MetaCacheEntry, lookup, insert, lookup-delete_ne, some_inj,
}
use triplet.Storage.MetaCache.Bounds.{IsBounded, oldest-IsAt, entry_bound-positive}

-- The entry that the loop holds is named, and no later than the one before or the one it looks at.
older-least :
    (key : Bytes) (entry : MetaCacheEntry) (best : Bytes × ℕ)
    → best.0 ≢ []
    → key ≢ []
    → ((older (key, entry) best).0 ≢ [])
      × ((older (key, entry) best).1 ≤ best.1)
      × ((older (key, entry) best).1 ≤ entry.stored_at)
unfolding older
older-least key entry best h k = ground (arith, bytes_eq_of_ne best.0 [] h)

All-le :
    (items : Items) (s t : ℕ)
    → s ≡ t
    → All (λ item. t ≤ item.1.stored_at) items
    → All (λ item. s ≤ item.1.stored_at) items
All-le items s t e h = subst (λ (n : ℕ). All (λ item. n ≤ item.1.stored_at) items) (sym e) h

-- The loop ends with a time that is not after any time of the map.
oldest-least :
    (items : Items) (best : Bytes × ℕ)
    → best.0 ≢ []
    → All (λ item. item.0 ≢ []) items
    → ((oldest items best).1 ≤ best.1)
      × All (λ item. (oldest items best).1 ≤ item.1.stored_at) items
unfolding oldest
oldest-least [] best h named = (omega arith, tt)
oldest-least ((key, entry) ∷ rest) best h named =
    let step = older-least key entry best h named.0 in
    let later = oldest-least rest (older (key, entry) best) step.0 named.1 in
    (omega (arith, step.1, later.0), (omega (arith, step.2, later.0), later.1))

oldest_of_every :
    (items : Items)
    → All (λ item. item.0 ≢ []) items
    → All (λ item. (oldest items ([], 0)).1 ≤ item.1.stored_at) items
unfolding oldest older bytes_eq
oldest_of_every [] named = tt
oldest_of_every ((key, entry) ∷ rest) named =
    let later = oldest-least rest (key, entry.stored_at) named.0 named.1 in (later.0, later.1)

lookup-insert_ne :
    (items : Items) (k : Bytes) (entry : MetaCacheEntry) (q : Bytes)
    → q ≢ k
    → lookup (insert items k entry) q ≡ lookup items q
unfolding lookup insert
lookup-insert_ne items k entry q h =
    rw (bytes_eq_of_ne k q (λ e. h (sym e))) (lookup-delete_ne items k q h)

-- After `store`, with a positive age, a lookup until that age finds the metadata.
get-store :
    (c : MetaCaching) (now later : ℕ) (items : Items) (identifier : Bytes) (meta : Meta)
    → ltb_ℤ (pos 0) c.ttl ≡ true
    → ltb_ℤ c.ttl (pos (since later now)) ≡ false
    → (get c later (store c now items identifier meta) identifier).1 ≡ some meta
unfolding get store lookup insert
get-store c now later items identifier meta on fresh = ground (arith, bytes_eq_refl identifier)

-- Where the map is full, the entry of another key than the picked one stays, and the picked one is
-- as old as any.
lookup-make_room :
    (c : MetaCaching) (items : Items) (other : Bytes) (entry : MetaCacheEntry)
    → IsBounded c items
    → All (λ item. item.0 ≢ []) items
    → lookup items other ≡ some entry
    → (lookup (make_room c items) other ≡ some entry)
      ⊎ ((entry_bound c ≤ length items) × All (λ item. entry.stored_at ≤ item.1.stored_at) items)
unfolding make_room
lookup-make_room c items other entry bounded named there =
    elim (Bool-cases (leb (entry_bound c) (length items))) [
      | inr room ↦ inl (rw room there)
      | inl full ↦
          let at_least = leb→le (entry_bound c) (length items) full in
          let positive = entry_bound-positive c in
          let least = oldest-IsAt items (omega arith) bounded.distinct in
          elim (Bool-cases (bytes_eq other (oldest items ([], 0)).0)) [
            | inr another ↦ inl (
                rw full (
                  lookup-delete_ne items (oldest items ([], 0)).0 other
                    (ne_of_bytes_eq other (oldest items ([], 0)).0 another)
                  ∙ there))
            | inl picked ↦
                let same = bytes_eq-eq other (oldest items ([], 0)).0 picked in
                let time : entry.stored_at ≡ (oldest items ([], 0)).1 =
                  ap (λ (e : MetaCacheEntry). e.stored_at)
                    (some_inj (sym there ∙ ap (lookup items) same ∙ least.found))
                  ∙ least.at_time in
                inr (
                  at_least,
                  All-le items entry.stored_at (oldest items ([], 0)).1 time
                      (oldest_of_every items named),
                )
          ]
    ]

-- `store` keeps the entries of the other keys, or the map is full and the one that goes is as old as
-- any: in a map within its bound, with one entry to a key and no empty key.
pub store_evicts_oldest :
    (c : MetaCaching) (now : ℕ) (items : Items) (identifier other : Bytes) (meta : Meta)
    (entry : MetaCacheEntry)
    → IsBounded c items
    → All (λ item. item.0 ≢ []) items
    → other ≢ identifier
    → lookup items other ≡ some entry
    → (lookup (store c now items identifier meta) other ≡ some entry)
      ⊎ ((entry_bound c ≤ length items) × All (λ item. entry.stored_at ≤ item.1.stored_at) items)
unfolding store
store_evicts_oldest c now items identifier other meta entry bounded named ne there =
    elim (Bool-cases (ltb_ℤ (pos 0) c.ttl)) [
      | inr off ↦ inl (rw off there)
      | inl on ↦ elim (lookup-make_room c items other entry bounded named there) [
        | inr full ↦ inr full
        | inl stays ↦
            inl (rw on (lookup-insert_ne (make_room c items) identifier _ other ne ∙ stays))
      ]
    ]
