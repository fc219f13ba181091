-- ===== src/Storage/MetaCache/Fresh.antt =====
-- The states that calls of `Open` and `Meta` lead to, with a log of what the source answered.
use mathlib.Core.Path.{subst}
use mathlib.Core.List.{Memᴰ}
use triplet.Common.{
  ℕ, ◌≡◌, refl, ◌⊎◌, inl, inr, sym, ◌∙◌, false, Option, none, some, List, [], ◌∷◌, All, arith,
  Bool-cases, Option-cases, Result, ok, err, leb, length,
}
use triplet.Common.Int.{ltb_ℤ, pos}
use triplet.Text.{Bytes}
use triplet.FileStore.{since}
use triplet.Storage.{Meta, Opener, OpenError}
use triplet.Storage.MetaCache.{
  MetaCaching, entry_bound, make_room, get, store, cached_open, cached_meta, ask, remember,
  remember_opened, found_or_ask,
}
use triplet.Storage.MetaCache.Entries.{
  Items, MetaCacheEntry, lookup, insert, All-delete, All-lookup,
}
use triplet.Storage.MetaCache.Bounds.{IsBounded, store-IsBounded, get-IsBounded, get-items}

-- An answer of the source, and when it was stored.
pub record Fetch : Type 0 where
  pub identifier : Bytes
  pub meta : Meta
  pub stored_at : ℕ

abbrev fetch_of : Bytes × MetaCacheEntry → Fetch
fetch_of (key, entry) = record { identifier = key; meta = entry.meta; stored_at = entry.stored_at }

abbrev pub IsLogged : List Fetch → Items → Type 0
IsLogged log = All (λ item. Memᴰ (fetch_of item) log)

store-All {ℓ} :
    (P : Bytes × MetaCacheEntry → Type ℓ) (c : MetaCaching) (now : ℕ) (items : Items)
    (identifier : Bytes) (meta : Meta)
    → P (identifier, record { meta = meta; stored_at = now })
    → All P items
    → All P (store c now items identifier meta)
unfolding store make_room insert
store-All P c now items identifier meta new h = elim (Bool-cases (ltb_ℤ (pos 0) c.ttl)) [
  | inr off ↦ rw off h
  | inl on ↦ elim (Bool-cases (leb (entry_bound c) (length items))) [
    | inl full ↦ rw (on, full) (new, All-delete P _ identifier (All-delete P items _ h))
    | inr room ↦ rw (on, room) (new, All-delete P items identifier h)
  ]
]

get-All {ℓ} :
    (P : Bytes × MetaCacheEntry → Type ℓ) (c : MetaCaching) (now : ℕ) (items : Items)
    (identifier : Bytes)
    → All P items
    → All P (get c now items identifier).0
get-All P c now items identifier h = elim (get-items c now items identifier) [
  | inl same ↦ subst (All P) (sym same) h
  | inr less ↦ subst (All P) (sym less) (All-delete P items identifier h)
]

IsLogged-tail :
    (new : Fetch) (log : List Fetch) (items : Items)
    → IsLogged log items
    → IsLogged (new ∷ log) items
IsLogged-tail new log [] h = tt
IsLogged-tail new log (item ∷ items) h = (Memᴰ.tail h.0, IsLogged-tail new log items h.1)

get_missing :
    (c : MetaCaching) (now : ℕ) (items : Items) (identifier : Bytes)
    → lookup items identifier ≡ none
    → (get c now items identifier).1 ≡ none
unfolding get
get_missing c now items identifier gone = ground arith

get_young :
    (c : MetaCaching) (now : ℕ) (items : Items) (identifier : Bytes) (found : Meta)
    (entry : MetaCacheEntry)
    → lookup items identifier ≡ some entry
    → (get c now items identifier).1 ≡ some found
    → (entry.meta ≡ found) × (ltb_ℤ c.ttl (pos (since now entry.stored_at)) ≡ false)
unfolding get
get_young c now items identifier found entry there e = ground arith

-- What `get` finds is an entry of the key that is young enough, and stands in the log.
get_logged :
    (c : MetaCaching) (now : ℕ) (items : Items) (identifier : Bytes) (found : Meta)
    (log : List Fetch)
    → IsLogged log items
    → (get c now items identifier).1 ≡ some found
    → (time : ℕ) × Memᴰ (record { identifier = identifier; meta = found; stored_at = time }) log
      × (ltb_ℤ c.ttl (pos (since now time)) ≡ false)
get_logged c now items identifier found log h e = elim (Option-cases (lookup items identifier)) [
  | inl gone ↦ absurd (none_some (sym (get_missing c now items identifier gone) ∙ e))
  | inr (entry, there) ↦
      let young = get_young c now items identifier found entry there e in
      let logged = All-lookup (λ item. Memᴰ (fetch_of item) log) items identifier entry h there in
      (
        entry.stored_at,
        subst
            (λ (m : Meta).
              Memᴰ (record { identifier = identifier; meta = m; stored_at = entry.stored_at }) log)
            young.0 logged,
        young.1,
      )
]
  where
    none_some : {m : Meta} → none ≡ some m → ⊥
    none_some q = cc

module _ {World Body : Type 0} (c : MetaCaching) (inner : Opener World Body) where
  -- The log after an answer of the source.
  abbrev log_opened : ℕ → Bytes → Result OpenError (Body × Meta) → List Fetch → List Fetch
  log_opened now identifier (err e) log = log
  log_opened now identifier (ok source) log =
      record { identifier = identifier; meta = source.1; stored_at = now } ∷ log

  abbrev log_asked : ℕ → Bytes → Result OpenError Meta → List Fetch → List Fetch
  log_asked now identifier (err e) log = log
  log_asked now identifier (ok m) log =
      record { identifier = identifier; meta = m; stored_at = now } ∷ log

  -- A lookup that finds an entry asks nothing.
  abbrev log_meta : ℕ → Bytes → Option Meta → Result OpenError Meta → List Fetch → List Fetch
  log_meta later identifier (some found) answer log = log
  log_meta later identifier none answer log = log_asked later identifier answer log

  -- The states that calls at any times lead to, from an empty map. The source may change at any time.
  pub data Reach : List Fetch → World × Items → Type 0 where
    start : (w : World) → Reach [] (w, [])
    changed :
        {log : List Fetch} {w : World} {items : Items} (w' : World)
        → Reach log (w, items)
        → Reach log (w', items)
    opened :
        {log : List Fetch} {w : World} {items : Items} (now : ℕ) (identifier : Bytes)
        → Reach log (w, items)
        → Reach
            (log_opened now identifier (inner.open_source w identifier).1 log)
            (cached_open c inner now (w, items) identifier).0
    asked :
        {log : List Fetch} {w : World} {items : Items} (now later : ℕ) (identifier : Bytes)
        → Reach log (w, items)
        → Reach
            (log_meta later identifier
              (get c now items identifier).1
              (ask c inner w identifier).1
              log)
            (cached_meta c inner now later (w, items) identifier).0

  abbrev IsSound : List Fetch → World × Items → Type 0
  IsSound log state = IsBounded c state.1 × IsLogged log state.1

  store-IsSound :
      (now : ℕ) (items : Items) (identifier : Bytes) (m : Meta) (log : List Fetch)
      → IsBounded c items
      → IsLogged log items
      → IsBounded c (store c now items identifier m)
        × IsLogged
            (record { identifier = identifier; meta = m; stored_at = now } ∷ log)
            (store c now items identifier m)
  store-IsSound now items identifier m log bounded logged = (
    store-IsBounded c now items identifier m bounded,
    store-All _ c now items identifier m (Memᴰ.head refl) (IsLogged-tail _ log items logged),
  )

  opened-IsSound :
      (now : ℕ) (items : Items) (identifier : Bytes) (log : List Fetch)
      (answer : World × Result OpenError (Body × Meta))
      → IsBounded c items
      → IsLogged log items
      → IsSound
          (log_opened now identifier answer.1 log)
          (remember_opened c inner now items identifier answer).0
  unfolding remember_opened
  opened-IsSound now items identifier log (w, err e) bounded logged = (bounded, logged)
  opened-IsSound now items identifier log (w, ok source) bounded logged =
      store-IsSound now items identifier source.1 log bounded logged

  asked-IsSound :
      (later : ℕ) (w : World) (items : Items) (identifier : Bytes) (log : List Fetch)
      (answer : World × Result OpenError Meta)
      → IsBounded c items
      → IsLogged log items
      → IsSound
          (log_asked later identifier answer.1 log)
          (remember c inner later items identifier answer).0
  unfolding remember
  asked-IsSound later w items identifier log (w', err e) bounded logged = (bounded, logged)
  asked-IsSound later w items identifier log (w', ok m) bounded logged =
      store-IsSound later items identifier m log bounded logged

  meta-IsSound :
      (later : ℕ) (w : World) (identifier : Bytes) (log : List Fetch) (found : Items × Option Meta)
      → IsBounded c found.0
      → IsLogged log found.0
      → IsSound
          (log_meta later identifier found.1 (ask c inner w identifier).1 log)
          (found_or_ask c inner later w identifier found).0
  unfolding found_or_ask
  meta-IsSound later w identifier log (items, some m) bounded logged = (bounded, logged)
  meta-IsSound later w identifier log (items, none) bounded logged =
      asked-IsSound later w items identifier log (ask c inner w identifier) bounded logged

  Reach-IsSound : {log : List Fetch} {state : World × Items} → Reach log state → IsSound log state
  unfolding cached_open cached_meta
  Reach-IsSound (start w) = (record { distinct = tt; few = omega arith }, tt)
  Reach-IsSound (changed w' r) = Reach-IsSound r
  Reach-IsSound (opened {log = log} {w = w} {items = items} now identifier r) =
      opened-IsSound now items identifier log (inner.open_source w identifier) (Reach-IsSound r).0
        (Reach-IsSound r).1
  Reach-IsSound (asked {log = log} {w = w} {items = items} now later identifier r) =
      meta-IsSound later w identifier log (get c now items identifier)
        (get-IsBounded c now items identifier (Reach-IsSound r).0)
        (get-All (λ item. Memᴰ (fetch_of item) log) c now items identifier (Reach-IsSound r).1)

  -- In every state that calls lead to, the map has one entry to a key and no more than its bound.
  pub Reach-IsBounded :
      {log : List Fetch} {w : World} {items : Items} → Reach log (w, items) → IsBounded c items
  Reach-IsBounded r = (Reach-IsSound r).0

  remember-answer :
      (later : ℕ) (items : Items) (identifier : Bytes) (said : World × Result OpenError Meta)
      → (remember c inner later items identifier said).1 ≡ said.1
  unfolding remember
  remember-answer later items identifier (w, err e) = refl
  remember-answer later items identifier (w, ok m) = refl

  found_or_ask-answer :
      (later : ℕ) (w : World) (identifier : Bytes) (found : Items × Option Meta) (answer : Meta)
      → (found_or_ask c inner later w identifier found).1 ≡ ok answer
      → ((ask c inner w identifier).1 ≡ ok answer) ⊎ (found.1 ≡ some answer)
  unfolding found_or_ask
  found_or_ask-answer later w identifier (items, some m) answer e = inr cc
  found_or_ask-answer later w identifier (items, none) answer e =
      inl (sym (remember-answer later items identifier (ask c inner w identifier)) ∙ e)

  -- In every state that calls lead to, `Meta` answers by what the source says now, or by what it
  -- said of this identifier at a time no longer ago than the age.
  pub cached_meta_fresh :
      {log : List Fetch} {w : World} {items : Items} (now later : ℕ) (identifier : Bytes)
      (answer : Meta)
      → Reach log (w, items)
      → (cached_meta c inner now later (w, items) identifier).1 ≡ ok answer
      → ((ask c inner w identifier).1 ≡ ok answer)
        ⊎ ((time : ℕ) × Memᴰ
              (record { identifier = identifier; meta = answer; stored_at = time })
              log
            × (ltb_ℤ c.ttl (pos (since now time)) ≡ false))
  unfolding cached_meta
  cached_meta_fresh {log = log} {w = w} {items = items} now later identifier answer r e =
      elim (found_or_ask-answer later w identifier (get c now items identifier) answer e) [
        | inl said ↦ inl said
        | inr found ↦ inr (get_logged c now items identifier answer log (Reach-IsSound r).1 found)
      ]
