-- ===== src/Storage/Caching.antt =====
-- internal/storage/caching.go: source bytes kept in a store, with a refresh of what has become old.
-- The store is an interface (internal/cache/cache.go's `Store`), and so is the text of a time. A
-- reader stands for the bytes that it gives.
pub mod Answers
pub mod Refreshes
use triplet.Common.{
  ℕ, Bool, true, false, ◌&&◌, ◌||◌, not, Option, none, some, Result, ok, err, List, [], ◌∷◌, ◌++◌,
  if◌then◌else◌,
}
use triplet.Common.Int.{ℤ, pos, ltb_ℤ}
use triplet.Text.{Bytes, codes, bytes_eq}
use triplet.FileStore.{GetError, Entry, since}
use triplet.Storage.{Meta, Opener, OpenError}

-- `cache.Store`; `seekable` says whether its readers are `io.ReadSeekCloser`s, and `put` whether it
-- ended without an error.
pub record Store (State : Type 0) : Type 0 where
  pub get : State → ℕ → Bytes → Result GetError (Bytes × Entry)
  pub put : State → ℕ → (key content_type value : Bytes) → State × Bool
  pub seekable : Bool

pub record Caching (World State : Type 0) : Type 0 where
  pub inner : Opener World Bytes
  pub store : Store State
  pub stale_after : ℤ
  pub time_text : ℕ → Bytes

-- The source, the store and the identifiers with a refresh that runs.
pub record SourceState (World State : Type 0) : Type 0 where
  pub world : World
  pub stored : State
  pub refreshing : List Bytes

-- What the system may refuse: a spool file for an entry, before and after the `Put`, and the seek.
pub record OpenFaults : Type 0 where
  pub spool : Bool
  pub spool_again : Bool
  pub seek : Bool

abbrev pub cache_text : Bytes
cache_text = codes "cache:"

unfoldable pub is_refreshing : List Bytes → Bytes → Bool
is_refreshing [] identifier = false
is_refreshing (r ∷ rs) identifier = bytes_eq r identifier || is_refreshing rs identifier

-- `startRefresh`: the set after it, and whether a goroutine starts.
unfoldable pub start_refresh : List Bytes → Bytes → List Bytes × Bool
unfolding is_refreshing
start_refresh rs identifier =
    if is_refreshing rs identifier then (rs, false) else (identifier ∷ rs, true)

-- The deferred `delete` of a refresh that ends.
unfoldable pub end_refresh : List Bytes → Bytes → List Bytes
end_refresh [] identifier = []
end_refresh (r ∷ rs) identifier =
    let rest = end_refresh rs identifier in if bytes_eq r identifier then rest else r ∷ rest

module _ {World State : Type 0} (c : Caching World State) where
  unfoldable pub cache_meta : Entry → Meta
  cache_meta entry = record {
    content_type = entry.content_type;
    size = entry.size;
    mod_time = entry.stored_at;
    version = cache_text ++ c.time_text entry.stored_at ++ b':' ∷ entry.content_type;
  }

  unfoldable pub is_stale : ℕ → Entry → Bool
  is_stale now entry =
      ltb_ℤ (pos 0) c.stale_after && ltb_ℤ c.stale_after (pos (since now entry.stored_at))

  -- The entry of a `Get` that can be read at all: its reader seeks, or is spooled to a file.
  unfoldable pub readable_entry : Bool → Result GetError (Bytes × Entry) → Option (Bytes × Entry)
  readable_entry spool_fails (err e) = none
  readable_entry spool_fails (ok found) =
      if c.store.seekable || not spool_fails then some found else none

  -- The reader of the source where no entry can be read after the `Put`.
  unfoldable pub rewind : Bool → Bytes → Meta → Result OpenError (Bytes × Meta)
  rewind seek_fails body m = if seek_fails then err OpenError.failed else ok (body, m)

  unfoldable pub serve_or_rewind :
      Bool → Bytes → Meta → Option (Bytes × Entry) → Result OpenError (Bytes × Meta)
  unfolding cache_meta rewind
  serve_or_rewind seek_fails body m none = rewind seek_fails body m
  serve_or_rewind seek_fails body m (some found) = ok (found.0, cache_meta found.1)

  -- The answer after the `Put`.
  unfoldable pub answer_after_put :
      OpenFaults → ℕ → Bytes → Bytes → Meta → State × Bool → Result OpenError (Bytes × Meta)
  unfolding readable_entry serve_or_rewind
  answer_after_put faults now identifier body m (st, false) = rewind faults.seek body m
  answer_after_put faults now identifier body m (st, true) =
      serve_or_rewind faults.seek body m
        (readable_entry faults.spool_again (c.store.get st now identifier))

  -- From the source: its bytes go through the store.
  unfoldable pub fetch :
      OpenFaults
      → ℕ
      → SourceState World State
      → Bytes
      → World × Result OpenError (Bytes × Meta)
      → SourceState World State × Result OpenError (Bytes × Meta)
  unfolding answer_after_put
  fetch faults now s identifier (w, err e) = (record s { world = w }, err e)
  fetch faults now s identifier (w, ok opened) =
      let after = c.store.put s.stored now identifier opened.1.content_type opened.0 in
      (
        record s { world = w; stored = after.0 },
        answer_after_put faults now identifier opened.0 opened.1 after,
      )

  -- The set of refreshes after an entry is served.
  unfoldable pub refresh_if_stale : ℕ → Entry → List Bytes → Bytes → List Bytes
  unfolding is_stale start_refresh
  refresh_if_stale now entry rs identifier =
      if is_stale now entry then (start_refresh rs identifier).0 else rs

  unfoldable pub serve_or_fetch :
      OpenFaults
      → ℕ
      → SourceState World State
      → Bytes
      → Option (Bytes × Entry)
      → SourceState World State × Result OpenError (Bytes × Meta)
  unfolding cache_meta refresh_if_stale fetch
  serve_or_fetch faults now s identifier none =
      fetch faults now s identifier (c.inner.open_source s.world identifier)
  serve_or_fetch faults now s identifier (some found) = (
    record s { refreshing = refresh_if_stale now found.1 s.refreshing identifier },
    ok (found.0, cache_meta found.1),
  )

  -- `Open`.
  unfoldable pub source_open :
      OpenFaults
      → ℕ
      → SourceState World State
      → Bytes
      → SourceState World State × Result OpenError (Bytes × Meta)
  unfolding readable_entry serve_or_fetch
  source_open faults now s identifier =
      serve_or_fetch faults now s identifier
        (readable_entry faults.spool (c.store.get s.stored now identifier))

  -- `Meta`.
  unfoldable pub source_meta :
      ℕ → SourceState World State → Bytes → SourceState World State × Result OpenError Meta
  unfolding cache_meta refresh_if_stale
  source_meta now s identifier = elim (c.store.get s.stored now identifier) [
    | ok found ↦ (
      record s { refreshing = refresh_if_stale now found.1 s.refreshing identifier },
      ok (cache_meta found.1),
    )
    | err e ↦ elim c.inner.read_meta [
      | none ↦ (s, err OpenError.meta_unavailable)
      | some read ↦ let said = read s.world identifier in (record s { world = said.0 }, said.1)
    ]
  ]

  -- `refresh`, and the deferred end of it.
  unfoldable pub refresh : ℕ → SourceState World State → Bytes → SourceState World State
  unfolding end_refresh
  refresh now s identifier =
      let (w, answer) = c.inner.open_source s.world identifier in
      let rest = end_refresh s.refreshing identifier in
      elim answer [
        | err e ↦ record s { world = w; refreshing = rest }
        | ok opened ↦ record {
          world = w;
          stored = (c.store.put s.stored now identifier opened.1.content_type opened.0).0;
          refreshing = rest;
        }
      ]
