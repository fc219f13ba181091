-- ===== src/Storage/Tests.antt =====
-- A source that answers by the number of its revision, behind the caches and a multiplex.
use mathlib.Core.List.{Memᴰ}
use triplet.Common.{
  ℕ, ◌≤◌, ◌≡◌, refl, ap, ◌≢◌, ◌⊎◌, true, false, ◌++◌, [], ◌∷◌, none, some, ok, err, arith, length,
  List, All,
}
use triplet.Common.Int.{pos, ltb_ℤ}
use triplet.Text.{Bytes, codes, bytes_eq}
use triplet.Text.Cut.{ne_of_bytes_eq}
use triplet.FileStore.{since}
use triplet.Storage.{Meta, Opener, OpenError}
use triplet.Storage.MetaCache.{
  MetaCaching, get, store, cached_meta, ask, entry_bound, oldest, older,
}
use triplet.Storage.MetaCache.Entries.{Items, lookup, insert, delete}
use triplet.Storage.MetaCache.Bounds.{IsBounded}
use triplet.Storage.MetaCache.Eviction.{store_evicts_oldest}
use triplet.Storage.MetaCache.Fresh.{Fetch, Reach, Reach-IsBounded, cached_meta_fresh}
use triplet.Storage.Multiplex.{Multiplex, route, route-IsFirst, IsMatch, IsFirst}
use triplet.Storage.Caching.{
  Store, Caching, SourceState, OpenFaults, source_open, start_refresh, end_refresh,
}
use triplet.Storage.Caching.Answers.{StoreLaws, source_open_answer, source_open_served, IsFrom}
use triplet.Storage.Caching.Refreshes.{Running, refreshes-IsDistinct, IsDistinct}

abbrev meta_at : ℕ → Meta
meta_at revision = record {
  content_type = codes "image/png";
  size = 3;
  mod_time = revision;
  version = revision ∷ [];
}

abbrev sample_opener : Opener ℕ Bytes
sample_opener = record {
  open_source = λ w identifier. (w, ok (identifier, meta_at w));
  read_meta = some (λ w identifier. (w, ok (meta_at w)));
}

abbrev sample_cache : MetaCaching
sample_cache = record { ttl = pos 100; max_entries = pos 2 }

abbrev key_a : Bytes
key_a = codes "a"

abbrev key_b : Bytes
key_b = codes "b"

abbrev key_c : Bytes
key_c = codes "c"

abbrev full_items : Items
full_items =
    (key_b, record { meta = meta_at 1; stored_at = 5 })
    ∷ (key_a, record { meta = meta_at 1; stored_at = 9 })
    ∷ []

full-IsBounded : IsBounded sample_cache full_items
unfolding entry_bound
full-IsBounded = record {
  distinct = ((λ e. ne_of_bytes_eq key_a key_b (unfold bytes_eq in refl) e, tt), (tt, tt));
  few = omega arith;
}

full_named : All (λ item. item.0 ≢ []) full_items
full_named = (λ e. cc, (λ e. cc, tt))

-- The third entry takes the place of the older of two.
evicted : lookup (store sample_cache 12 full_items key_c (meta_at 2)) key_b ≡ none
unfolding store lookup bytes_eq insert delete entry_bound oldest older
evicted = refl

store_evicts_oldest_example :
    (lookup (store sample_cache 12 full_items key_c (meta_at 2)) key_a
      ≡ some (record { meta = meta_at 1; stored_at = 9 }))
    ⊎ ((entry_bound sample_cache ≤ 2) × All (λ item. 9 ≤ item.1.stored_at) full_items)
store_evicts_oldest_example =
    store_evicts_oldest sample_cache 12 full_items key_c key_a (meta_at 2)
      (record { meta = meta_at 1; stored_at = 9 }) full-IsBounded full_named
      (ne_of_bytes_eq key_a key_c (unfold bytes_eq in refl)) (unfold lookup bytes_eq in refl)

abbrev one_entry : Items
one_entry = (key_a, record { meta = meta_at 3; stored_at = 11 }) ∷ []

abbrev one_fetch : List Fetch
one_fetch = record { identifier = key_a; meta = meta_at 3; stored_at = 11 } ∷ []

-- One lookup at revision 3, after which the source changes.
one_call : Reach sample_cache sample_opener one_fetch (7, one_entry)
unfolding cached_meta get store lookup insert delete entry_bound ask
one_call = Reach.changed 7 (Reach.asked 10 11 key_a (Reach.start 3))

Reach-IsBounded_example : IsBounded sample_cache one_entry
Reach-IsBounded_example = Reach-IsBounded sample_cache sample_opener one_call

remembered : (cached_meta sample_cache sample_opener 60 61 (7, one_entry) key_a).1 ≡ ok (meta_at 3)
unfolding cached_meta get lookup bytes_eq
remembered = refl

cached_meta_fresh_example :
    ((ask sample_cache sample_opener 7 key_a).1 ≡ ok (meta_at 3))
    ⊎ ((time : ℕ) × Memᴰ
          (record { identifier = key_a; meta = meta_at 3; stored_at = time })
          one_fetch
        × (ltb_ℤ (pos 100) (pos (since 60 time)) ≡ false))
cached_meta_fresh_example =
    cached_meta_fresh sample_cache sample_opener 60 61 key_a (meta_at 3) one_call remembered

abbrev sample_multiplex : Multiplex ℕ Bytes
sample_multiplex = record {
  routes = record { has_prefix = codes "private:"; has_scheme = []; opener = sample_opener } ∷ [];
  default = none;
}

route-IsFirst_example :
    ((opener : Opener ℕ Bytes) × (route sample_multiplex (codes "private:1") ≡ ok opener)
      × IsFirst sample_multiplex.routes (codes "private:1") opener)
    ⊎ (All (λ r. IsMatch (codes "private:1") r → ⊥) sample_multiplex.routes
        × (((opener : Opener ℕ Bytes) × (sample_multiplex.default ≡ some opener)
              × (route sample_multiplex (codes "private:1") ≡ ok opener))
            ⊎ ((sample_multiplex.default ≡ none)
                × (route sample_multiplex (codes "private:1") ≡ err OpenError.not_found))))
route-IsFirst_example = route-IsFirst sample_multiplex (codes "private:1")

-- A store that holds the bytes last put, and when.
abbrev last_store : Store (Bytes × ℕ)
last_store = record {
  get = λ st now key. ok (st.0, record { content_type = []; size = length st.0; stored_at = st.1 });
  put = λ st now key content_type value. ((value, now), true);
  seekable = true;
}

last-StoreLaws : StoreLaws last_store
last-StoreLaws = record { get_put = λ st now key content_type value e bytes entry q. cc }

abbrev sample_caching : Caching ℕ (Bytes × ℕ)
sample_caching = record {
  inner = sample_opener;
  store = last_store;
  stale_after = pos 10;
  time_text = λ t. t ∷ [];
}

abbrev sample_state : SourceState ℕ (Bytes × ℕ)
sample_state = record { world = 3; stored = (codes "old", 5); refreshing = [] }

abbrev smooth : OpenFaults
smooth = record { spool = false; spool_again = false; seek = false }

-- An old entry is served, and its refresh starts.
abbrev served_meta : Meta
served_meta = record {
  content_type = [];
  size = 3;
  mod_time = 5;
  version = codes "cache:" ++ 5 ∷ codes ":";
}

stale_open : source_open sample_caching smooth 20 sample_state key_a ≡ (
  record { world = 3; stored = (codes "old", 5); refreshing = key_a ∷ [] },
  ok (codes "old", served_meta),
)
unfolding source_open start_refresh
stale_open = refl

source_open_answer_example :
    IsFrom sample_caching last-StoreLaws sample_state 20 key_a (codes "old")
source_open_answer_example =
    source_open_answer sample_caching last-StoreLaws smooth 20 sample_state key_a (codes "old")
      served_meta (ap (λ r. r.1) stale_open)

source_open_served_example :
    (answer : Bytes × Meta) × ((source_open sample_caching smooth 20 sample_state key_a).1
      ≡ ok answer)
source_open_served_example =
    source_open_served sample_caching smooth 20 sample_state key_a (key_a, meta_at 3) refl refl

calls_and_end : Running (key_b ∷ []) (key_b ∷ [])
unfolding start_refresh end_refresh bytes_eq
calls_and_end =
    Running.ended (key_b ∷ []) key_a []
      (Running.called key_b (Running.called key_a (Running.called key_a Running.idle)))

refreshes-IsDistinct_example : (key_b ∷ [] ≡ key_b ∷ []) × IsDistinct (key_b ∷ [])
refreshes-IsDistinct_example = refreshes-IsDistinct calls_and_end
