-- ===== src/Storage/MetaCache/Bounds.antt =====
-- The map of `MetaCaching` keeps one entry to a key, and no more entries than its bound.
use mathlib.Core.Path.{subst}
use triplet.Common.{
  ℕ, ◌≤◌, ◌<◌, ◌≡◌, refl, ◌⊎◌, sym, ◌∙◌, Option, none, some, [], ◌∷◌, arith, Bool-cases, inl, inr,
  length, leb, leb→le,
}
use triplet.Common.Int.{ltb_ℤ, pos}
use triplet.Text.{Bytes, bytes_eq}
use triplet.Text.Cut.{bytes_eq_refl, bytes_eq-eq}
use triplet.Storage.{Meta}
use triplet.Storage.MetaCache.{MetaCaching, entry_bound, oldest, older, make_room, get, store}
use triplet.Storage.MetaCache.Entries.{
  Items, MetaCacheEntry, lookup, delete, insert, LacksKey, lookup_of_LacksKey, HasDistinctKeys,
  delete-HasDistinctKeys, delete-LacksKey, lookup_of_LacksKey, length-delete, length-delete_key,
}

pub record IsBounded (c : MetaCaching) (items : Items) : Type 0 where
  pub distinct : HasDistinctKeys items
  pub few : length items ≤ entry_bound c

pub entry_bound-positive : (c : MetaCaching) → 0 < entry_bound c
unfolding entry_bound
entry_bound-positive c = ground arith

pub absent : {o : Option MetaCacheEntry} {e : MetaCacheEntry} → o ≡ none → o ≡ some e → ⊥
absent n e = cc

-- The map has the key, with the time.
pub record IsAt (items : Items) (best : Bytes × ℕ) : Type 0 where
  pub entry : MetaCacheEntry
  pub found : lookup items best.0 ≡ some entry
  pub at_time : entry.stored_at ≡ best.1

cons-IsAt :
    (key : Bytes) (entry : MetaCacheEntry) (rest : Items) (best : Bytes × ℕ)
    → LacksKey key rest
    → IsAt rest best
    → IsAt ((key, entry) ∷ rest) best
unfolding lookup
cons-IsAt key entry rest best lacks h = elim (Bool-cases (bytes_eq key best.0)) [
  | inl same ↦ absurd (
      absent
        (lookup_of_LacksKey rest best.0
          (subst (λ (k : Bytes). LacksKey k rest) (bytes_eq-eq key best.0 same) lacks))
        h.found)
  | inr other ↦ record { entry = h.entry; found = rw other h.found; at_time = h.at_time }
]

head-IsAt :
    (key : Bytes) (entry : MetaCacheEntry) (rest : Items)
    → IsAt ((key, entry) ∷ rest) (key, entry.stored_at)
unfolding lookup
head-IsAt key entry rest = record {
  entry = entry;
  found = rw (bytes_eq_refl key) refl;
  at_time = refl;
}

pub older-cases :
    (key : Bytes) (entry : MetaCacheEntry) (best : Bytes × ℕ)
    → (older (key, entry) best ≡ (key, entry.stored_at)) ⊎ (older (key, entry) best ≡ best)
unfolding older
older-cases key entry best = ground arith

-- The key that the loop picks is one of the map, or the one it started with.
oldest-picks :
    (items : Items) (best : Bytes × ℕ)
    → HasDistinctKeys items
    → (oldest items best ≡ best) ⊎ IsAt items (oldest items best)
unfolding oldest
oldest-picks [] best h = inl refl
oldest-picks ((key, entry) ∷ rest) best h =
    from (older (key, entry) best) (oldest-picks rest (older (key, entry) best) h.1)
      (older-cases key entry best)
  where
    from :
        (picked : Bytes × ℕ)
        → (oldest rest picked ≡ picked) ⊎ IsAt rest (oldest rest picked)
        → (picked ≡ (key, entry.stored_at)) ⊎ (picked ≡ best)
        → (oldest rest picked ≡ best) ⊎ IsAt ((key, entry) ∷ rest) (oldest rest picked)
    from picked later which = elim later [
      | inr there ↦ inr (cons-IsAt key entry rest (oldest rest picked) h.0 there)
      | inl same ↦ elim which [
        | inl new ↦
            inr (subst (IsAt ((key, entry) ∷ rest)) (sym (same ∙ new)) (head-IsAt key entry rest))
        | inr old ↦ inl (same ∙ old)
      ]
    ]

-- The loop starts with no key, so it picks one of any map that is not empty.
pub oldest-IsAt :
    (items : Items) → 0 < length items → HasDistinctKeys items → IsAt items (oldest items ([], 0))
unfolding oldest older bytes_eq
oldest-IsAt [] h d = absurd (omega arith)
oldest-IsAt ((key, entry) ∷ rest) h d = elim (oldest-picks rest (key, entry.stored_at) d.1) [
  | inl same ↦ subst (IsAt ((key, entry) ∷ rest)) (sym same) (head-IsAt key entry rest)
  | inr there ↦ cons-IsAt key entry rest (oldest rest (key, entry.stored_at)) d.0 there
]

make_room-fits :
    (c : MetaCaching) (items : Items)
    → IsBounded c items
    → length (make_room c items) < entry_bound c
unfolding make_room
make_room-fits c items h =
    let positive = entry_bound-positive c in
    elim (Bool-cases (leb (entry_bound c) (length items))) [
      | inr room ↦ rw room (ground arith)
      | inl full ↦
          let at_least = leb→le (entry_bound c) (length items) full in
          let least = oldest-IsAt items (omega arith) h.distinct in
          let less =
            length-delete_key items (oldest items ([], 0)).0
              (λ none_there. absent none_there least.found) in
          rw full (omega arith)
    ]

make_room-HasDistinctKeys :
    (c : MetaCaching) (items : Items) → HasDistinctKeys items → HasDistinctKeys (make_room c items)
unfolding make_room
make_room-HasDistinctKeys c items h = elim (Bool-cases (leb (entry_bound c) (length items))) [
  | inl full ↦ rw full (delete-HasDistinctKeys items (oldest items ([], 0)).0 h)
  | inr room ↦ rw room h
]

pub store-IsBounded :
    (c : MetaCaching) (now : ℕ) (items : Items) (identifier : Bytes) (meta : Meta)
    → IsBounded c items
    → IsBounded c (store c now items identifier meta)
unfolding store insert
store-IsBounded c now items identifier meta h = elim (Bool-cases (ltb_ℤ (pos 0) c.ttl)) [
  | inl on ↦ rw on (record {
    distinct = (
      delete-LacksKey (make_room c items) identifier,
      delete-HasDistinctKeys (make_room c items) identifier
          (make_room-HasDistinctKeys c items h.distinct),
    );
    few = omega (arith, make_room-fits c items h, length-delete (make_room c items) identifier);
  })
  | inr off ↦ rw off h
]

pub get-items :
    (c : MetaCaching) (now : ℕ) (items : Items) (identifier : Bytes)
    → ((get c now items identifier).0 ≡ items)
      ⊎ ((get c now items identifier).0 ≡ delete items identifier)
unfolding get
get-items c now items identifier = ground arith

pub get-IsBounded :
    (c : MetaCaching) (now : ℕ) (items : Items) (identifier : Bytes)
    → IsBounded c items
    → IsBounded c (get c now items identifier).0
get-IsBounded c now items identifier h = elim (get-items c now items identifier) [
  | inl same ↦ subst (IsBounded c) (sym same) h
  | inr less ↦ subst (IsBounded c) (sym less) (record {
    distinct = delete-HasDistinctKeys items identifier h.distinct;
    few = omega (arith, h.few, length-delete items identifier);
  })
]
