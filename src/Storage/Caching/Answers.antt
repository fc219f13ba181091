-- ===== src/Storage/Caching/Answers.antt =====
-- What `Open` of `Caching` answers, over any store whose `Get` answers what was just put.
use triplet.Common.{
  ℕ, ◌≡◌, ◌⊎◌, inl, inr, refl, Bool, true, false, Option, none, some, Result, ok, err, arith,
}
use triplet.Text.{Bytes}
use triplet.FileStore.{GetError, Entry}
use triplet.Storage.{Meta, OpenError}
use triplet.Storage.Caching.{
  Store, Caching, SourceState, OpenFaults, cache_meta, readable_entry, rewind, answer_after_put,
  serve_or_rewind, serve_or_fetch, fetch, source_open,
}

-- What a store promises: after a `Put` that ends well, `Get` at that time answers its bytes, or
-- there is no answer.
pub record StoreLaws {State : Type 0} (store : Store State) : Type 0 where
  pub get_put :
      (st : State) (now : ℕ) (key content_type value : Bytes)
      → (store.put st now key content_type value).1 ≡ true
      → (bytes : Bytes) (entry : Entry)
      → store.get (store.put st now key content_type value).0 now key ≡ ok (bytes, entry)
      → bytes ≡ value

module _ {World State : Type 0} (c : Caching World State) (laws : StoreLaws c.store) where
  -- Where the bytes of an answer come from.
  abbrev pub IsFrom : SourceState World State → ℕ → Bytes → Bytes → Type 0
  IsFrom s now identifier bytes =
      ((entry : Entry) × (c.store.get s.stored now identifier ≡ ok (bytes, entry)))
      ⊎ ((m : Meta) × ((c.inner.open_source s.world identifier).1 ≡ ok (bytes, m)))

  readable_entry_lem :
      (fails : Bool) (answer : Result GetError (Bytes × Entry)) (found : Bytes × Entry)
      → readable_entry c fails answer ≡ some found
      → answer ≡ ok found
  unfolding readable_entry
  readable_entry_lem fails (err e) found q = absurd cc
  readable_entry_lem fails (ok entry) found q = ground arith

  serve_or_rewind_lem :
      (seek_fails : Bool) (body : Bytes) (m : Meta) (o : Option (Bytes × Entry)) (bytes : Bytes)
      (answered : Meta)
      → ((found : Bytes × Entry) → o ≡ some found → found.0 ≡ body)
      → serve_or_rewind c seek_fails body m o ≡ ok (bytes, answered)
      → bytes ≡ body
  unfolding serve_or_rewind rewind
  serve_or_rewind_lem true body m none bytes answered law e = absurd cc
  serve_or_rewind_lem false body m none bytes answered law e = cc
  serve_or_rewind_lem seek_fails body m (some found) bytes answered law e =
      let same = law found refl in cc

  after_put :
      (faults : OpenFaults) (now : ℕ) (identifier body : Bytes) (m : Meta) (after : State × Bool)
      (bytes : Bytes) (answered : Meta)
      → (after.1 ≡ true
          → (b : Bytes) (e : Entry) → c.store.get after.0 now identifier ≡ ok (b, e)
          → b ≡ body)
      → answer_after_put c faults now identifier body m after ≡ ok (bytes, answered)
      → bytes ≡ body
  unfolding answer_after_put
  after_put faults now identifier body m (st, false) bytes answered law e =
      serve_or_rewind_lem faults.seek body m none bytes answered (λ found q. absurd cc)
        (unfold serve_or_rewind in e)
  after_put faults now identifier body m (st, true) bytes answered law e =
      serve_or_rewind_lem faults.seek body m
        (readable_entry c faults.spool_again (c.store.get st now identifier)) bytes answered
        (λ found q.
          law refl found.0 found.1
            (readable_entry_lem faults.spool_again (c.store.get st now identifier) found q))
        e

  fetch_lem :
      (faults : OpenFaults) (now : ℕ) (s : SourceState World State) (identifier : Bytes)
      (said : World × Result OpenError (Bytes × Meta)) (bytes : Bytes) (answered : Meta)
      → (fetch c faults now s identifier said).1 ≡ ok (bytes, answered)
      → (m : Meta) × (said.1 ≡ ok (bytes, m))
  unfolding fetch
  fetch_lem faults now s identifier (w, err e) bytes answered q = absurd cc
  fetch_lem faults now s identifier (w, ok (body, m)) bytes answered q =
      let same =
        after_put faults now identifier body m
          (c.store.put s.stored now identifier m.content_type body) bytes answered
          (laws.get_put s.stored now identifier m.content_type body) q in
      (m, cc)

  serve_or_fetch_lem :
      (faults : OpenFaults) (now : ℕ) (s : SourceState World State) (identifier : Bytes)
      (o : Option (Bytes × Entry)) (bytes : Bytes) (answered : Meta)
      → ((found : Bytes × Entry) → o ≡ some found → c.store.get s.stored now identifier ≡ ok found)
      → (serve_or_fetch c faults now s identifier o).1 ≡ ok (bytes, answered)
      → IsFrom s now identifier bytes
  unfolding serve_or_fetch
  serve_or_fetch_lem faults now s identifier none bytes answered stored q =
      inr (
        fetch_lem faults now s identifier (c.inner.open_source s.world identifier) bytes answered q)
  serve_or_fetch_lem faults now s identifier (some (body, entry)) bytes answered stored q =
      let hit = stored (body, entry) refl in inl (entry, cc)

  -- The bytes that `Open` answers are those that the store has for the identifier, or those that the
  -- source has, whether or not the `Put` between went well, over a store whose `Get` gives no other
  -- bytes than those just put.
  pub source_open_answer :
      (faults : OpenFaults) (now : ℕ) (s : SourceState World State) (identifier bytes : Bytes)
      (answered : Meta)
      → (source_open c faults now s identifier).1 ≡ ok (bytes, answered)
      → IsFrom s now identifier bytes
  unfolding source_open
  source_open_answer faults now s identifier bytes answered e =
      serve_or_fetch_lem faults now s identifier
        (readable_entry c faults.spool (c.store.get s.stored now identifier)) bytes answered
        (λ found q. readable_entry_lem faults.spool (c.store.get s.stored now identifier) found q) e

module _ {World State : Type 0} (c : Caching World State) where
  abbrev IsServed : Result OpenError (Bytes × Meta) → Type 0
  IsServed r = (answer : Bytes × Meta) × (r ≡ ok answer)

  serve_or_rewind-IsServed :
      (body : Bytes) (m : Meta) (o : Option (Bytes × Entry))
      → IsServed (serve_or_rewind c false body m o)
  unfolding serve_or_rewind rewind
  serve_or_rewind-IsServed body m none = ((body, m), refl)
  serve_or_rewind-IsServed body m (some found) = ((found.0, cache_meta c found.1), refl)

  answer_after_put-IsServed :
      (faults : OpenFaults) (now : ℕ) (identifier body : Bytes) (m : Meta) (after : State × Bool)
      → faults.seek ≡ false
      → IsServed (answer_after_put c faults now identifier body m after)
  unfolding answer_after_put
  answer_after_put-IsServed faults now identifier body m (st, false) seek =
      rw seek (serve_or_rewind-IsServed body m none)
  answer_after_put-IsServed faults now identifier body m (st, true) seek = rw seek (
      serve_or_rewind-IsServed body m
        (readable_entry c faults.spool_again (c.store.get st now identifier)))

  fetch-IsServed :
      (faults : OpenFaults) (now : ℕ) (s : SourceState World State) (identifier : Bytes)
      (said : World × Result OpenError (Bytes × Meta)) (opened : Bytes × Meta)
      → faults.seek ≡ false
      → said.1 ≡ ok opened
      → IsServed (fetch c faults now s identifier said).1
  unfolding fetch
  fetch-IsServed faults now s identifier (w, err e) opened seek q = absurd cc
  fetch-IsServed faults now s identifier (w, ok (body, m)) opened seek q =
      answer_after_put-IsServed faults now identifier body m
        (c.store.put s.stored now identifier m.content_type body) seek

  serve_or_fetch-IsServed :
      (faults : OpenFaults) (now : ℕ) (s : SourceState World State) (identifier : Bytes)
      (o : Option (Bytes × Entry)) (opened : Bytes × Meta)
      → faults.seek ≡ false
      → (c.inner.open_source s.world identifier).1 ≡ ok opened
      → IsServed (serve_or_fetch c faults now s identifier o).1
  unfolding serve_or_fetch
  serve_or_fetch-IsServed faults now s identifier none opened seek q =
      fetch-IsServed faults now s identifier (c.inner.open_source s.world identifier) opened seek q
  serve_or_fetch-IsServed faults now s identifier (some found) opened seek q =
      ((found.0, cache_meta c found.1), refl)

  -- Whatever the store does, `Open` answers without an error where the source opens and its reader
  -- seeks.
  pub source_open_served :
      (faults : OpenFaults) (now : ℕ) (s : SourceState World State) (identifier : Bytes)
      (opened : Bytes × Meta)
      → faults.seek ≡ false
      → (c.inner.open_source s.world identifier).1 ≡ ok opened
      → (answer : Bytes × Meta) × ((source_open c faults now s identifier).1 ≡ ok answer)
  unfolding source_open
  source_open_served faults now s identifier opened seek q =
      serve_or_fetch-IsServed faults now s identifier
        (readable_entry c faults.spool (c.store.get s.stored now identifier)) opened seek q
