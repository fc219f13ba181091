-- ===== src/Storage/MetaCache.antt =====
-- internal/storage/meta_cache.go: metadata kept in process, with an age and a number of entries at
-- most. A map is an association list with one entry to a key; the order of a `range` over it is the
-- order of the list, and what is proved holds for every order.
pub mod Entries
pub mod Bounds
pub mod Eviction
pub mod Fresh
use triplet.Common.{
  ℕ, Bool, true, false, ◌||◌, Option, none, some, Result, ok, err, List, [], ◌∷◌, ltb, leb, length,
  if◌then◌else◌,
}
use triplet.Common.Int.{ℤ, pos, ltb_ℤ, pos_part}
use triplet.Text.{Bytes, bytes_eq}
use triplet.FileStore.{since}
use triplet.Storage.{Meta, Opener, OpenError}
use Entries.{Items, MetaCacheEntry, lookup, delete, insert}

pub record MetaCaching : Type 0 where
  pub ttl : ℤ
  pub max_entries : ℤ

-- `maxEntries`.
unfoldable pub entry_bound : MetaCaching → ℕ
entry_bound c = if ltb_ℤ (pos 0) c.max_entries then pos_part c.max_entries else 4096

-- The step of the loop: an entry that is older than the one found so far, or the first.
unfoldable pub older : Bytes × MetaCacheEntry → Bytes × ℕ → Bytes × ℕ
older (key, entry) best =
    if bytes_eq best.0 [] || ltb entry.stored_at best.1 then (key, entry.stored_at) else best

-- The loop for the oldest entry, from the key and the time found so far.
unfoldable pub oldest : Items → Bytes × ℕ → Bytes × ℕ
oldest [] best = best
oldest (item ∷ rest) best = oldest rest (older item best)

-- The map where a new entry goes: without the oldest where it is full.
unfoldable pub make_room : MetaCaching → Items → Items
make_room c items =
    if leb (entry_bound c) (length items) then delete items (oldest items ([], 0)).0 else items

unfoldable pub get : MetaCaching → ℕ → Items → Bytes → Items × Option Meta
get c now items identifier =
    if ltb_ℤ (pos 0) c.ttl
    then elim (lookup items identifier) [
      | none ↦ (items, none)
      | some entry ↦
          if ltb_ℤ c.ttl (pos (since now entry.stored_at))
          then (delete items identifier, none)
          else (items, some entry.meta)
    ]
    else (items, none)

unfoldable pub store : MetaCaching → ℕ → Items → Bytes → Meta → Items
unfolding make_room
store c now items identifier meta =
    if ltb_ℤ (pos 0) c.ttl
    then insert (make_room c items) identifier (record { meta = meta; stored_at = now })
    else items

module _ {World Body : Type 0} (c : MetaCaching) (inner : Opener World Body) where
  -- What the source opened, and the map with its metadata.
  unfoldable pub remember_opened :
      ℕ
      → Items
      → Bytes
      → World × Result OpenError (Body × Meta)
      → (World × Items) × Result OpenError (Body × Meta)
  remember_opened now items identifier (w, err e) = ((w, items), err e)
  remember_opened now items identifier (w, ok opened) =
      ((w, store c now items identifier opened.1), ok opened)

  -- `Open`.
  unfoldable pub cached_open :
      ℕ → World × Items → Bytes → (World × Items) × Result OpenError (Body × Meta)
  unfolding remember_opened
  cached_open now (w, items) identifier =
      remember_opened now items identifier (inner.open_source w identifier)

  -- The metadata of an opened source, whose reader is closed.
  unfoldable pub close_opened :
      World × Result OpenError (Body × Meta) → World × Result OpenError Meta
  close_opened (w, err e) = (w, err e)
  close_opened (w, ok opened) = (w, ok opened.1)

  -- What the source says, by `Meta` where it has it.
  unfoldable pub ask : World → Bytes → World × Result OpenError Meta
  unfolding close_opened
  ask w identifier = elim inner.read_meta [
    | none ↦ close_opened (inner.open_source w identifier)
    | some read ↦ read w identifier
  ]

  -- What the source said, and the map with it.
  unfoldable pub remember :
      ℕ → Items → Bytes → World × Result OpenError Meta → (World × Items) × Result OpenError Meta
  remember now items identifier (w, err e) = ((w, items), err e)
  remember now items identifier (w, ok meta) = ((w, store c now items identifier meta), ok meta)

  -- The entry that was found, or the answer of the source.
  unfoldable pub found_or_ask :
      ℕ → World → Bytes → Items × Option Meta → (World × Items) × Result OpenError Meta
  unfolding remember
  found_or_ask later w identifier (items, some found) = ((w, items), ok found)
  found_or_ask later w identifier (items, none) = remember later items identifier (ask w identifier)

  -- `Meta`: a lookup at `now`, and the entry that it makes at `later`.
  unfoldable pub cached_meta :
      (now later : ℕ) → World × Items → Bytes → (World × Items) × Result OpenError Meta
  unfolding found_or_ask
  cached_meta now later (w, items) identifier =
      found_or_ask later w identifier (get c now items identifier)
