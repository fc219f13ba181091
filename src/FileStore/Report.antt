-- ===== src/FileStore/Report.antt =====
-- The report of `Cleanup` describes the live files that are left.
use triplet.Common.Int.{ltb_ℤ, pos}
use mathlib.Core.Path.{subst}
use mathlib.Core.Bool.{false≢true}
use triplet.Common.{
  ◌&&◌, not, ℕ, ◌+◌, ◌≡◌, refl, sym, ap, ◌∙◌, ◌≢◌, ◌⊎◌, inl, inr, Bool, true, false, ◌++◌, [], ◌∷◌,
  Option, none, some, arith, Bool-cases, All, if◌then◌else◌, length, length-append, List,
}
use triplet.Text.{Bytes, bytes_eq}
use triplet.Text.Cut.{bytes_eq_refl, bytes_eq_of_ne, bytes_eq-eq}
use triplet.FileStore.{FileStore, expired}
use triplet.FileStore.Files.{Fs, File}
use triplet.FileStore.Paths.{meta_suffix, ext-meta}
use triplet.FileStore.Cleanup.{
  CleanupReport, visit, remove_entry, walk, cleanup, is_skipped, empty_report,
}

is_skipped-suffix : (p : Bytes) → is_skipped (p ++ meta_suffix) ≡ true
unfolding is_skipped
is_skipped-suffix p = rw (ext-meta p) refl

ne_of_skipped : (p : Bytes) → p ≢ p ++ meta_suffix
ne_of_skipped p e = absurd (omega (arith, ap length e, length-append p meta_suffix))

module _ (s : FileStore) (refuses : Bytes → Bool) (now : ℕ) where
  -- A regular file that is not expired.
  abbrev pub is_live : File → Bool
  is_live f = f.regular && not (expired s f.mod_time now)

  -- The bytes that a path counts for: those of a live file that is no metadata.
  abbrev pub weight_of : Bool → Option File → ℕ
  weight_of skipped none = 0
  weight_of skipped (some f) = if skipped then 0 else if is_live f then length f.content else 0

  abbrev pub weight : Fs → Bytes → ℕ
  weight fs p = weight_of (is_skipped p) (fs p)

  abbrev pub total : Fs → List Bytes → ℕ
  total fs [] = 0
  total fs (p ∷ ps) = weight fs p + total fs ps

  abbrev one_of : Bool → Option File → ℕ
  one_of skipped none = 0
  one_of skipped (some f) = if skipped then 0 else if is_live f then 1 else 0

  -- How many of the paths hold such a file.
  abbrev pub count : Fs → List Bytes → ℕ
  count fs [] = 0
  count fs (p ∷ ps) = one_of (is_skipped p) (fs p) + count fs ps

  abbrev IsSettledFile : (skipped refused : Bool) → Option File → Type 0
  IsSettledFile skipped refused none = Unit
  IsSettledFile skipped refused (some f) =
      (skipped ≡ true)
      ⊎ ((f.regular ≡ false) ⊎ ((expired s f.mod_time now ≡ false) ⊎ (refused ≡ true)))

  -- No expired file is at the path, but one whose removal is refused.
  abbrev pub IsSettled : Fs → Bytes → Type 0
  IsSettled fs p = IsSettledFile (is_skipped p) (refuses p) (fs p)

  abbrev seen : Fs → CleanupReport → Bytes → Fs × CleanupReport
  seen fs r p = visit s refuses now fs r p

  -- What a visit adds to the report, by the file that it leaves at the path.
  record Adds (p : Bytes) (r : CleanupReport) (after : Fs) (r' : CleanupReport) : Type 0 where
    settled : IsSettled after p
    bytes : r'.bytes ≡ r.bytes + weight after p
    scanned : r'.scanned + r.removed ≡ r.scanned + r'.removed + one_of (is_skipped p) (after p)
    removed : r'.expired_removed + r.removed ≡ r'.removed + r.expired_removed

  visit-Adds : (fs : Fs) (r : CleanupReport) (p : Bytes) → Adds p r (seen fs r p).0 (seen fs r p).1
  unfolding visit remove_entry
  visit-Adds fs r p =
      ground (arith, bytes_eq_refl p, bytes_eq_of_ne p (p ++ meta_suffix) (ne_of_skipped p))

  visit_again :
      (fs : Fs) (r : CleanupReport) (p : Bytes)
      → is_skipped p ≡ false
      → IsSettled fs p
      → (seen fs r p).0 p ≡ fs p
  unfolding visit remove_entry
  visit_again fs r p kept h = ground (arith, bytes_eq_of_ne p (p ++ meta_suffix) (ne_of_skipped p))

  visit_elsewhere :
      (fs : Fs) (r : CleanupReport) (q p : Bytes)
      → bytes_eq p q ≡ false
      → bytes_eq p (q ++ meta_suffix) ≡ false
      → (seen fs r q).0 p ≡ fs p
  unfolding visit remove_entry
  visit_elsewhere fs r q p other plain = ground arith

  -- No visit changes a path with a settled file.
  visit_settled :
      (fs : Fs) (r : CleanupReport) (q p : Bytes)
      → is_skipped p ≡ false
      → IsSettled fs p
      → (seen fs r q).0 p ≡ fs p
  visit_settled fs r q p kept h = elim (Bool-cases (bytes_eq p q)) [
    | inl same ↦
        subst (λ (z : Bytes). (seen fs r z).0 p ≡ fs p) (bytes_eq-eq p q same)
          (visit_again fs r p kept h)
    | inr other ↦
        visit_elsewhere fs r q p other
          (bytes_eq_of_ne p _ (λ e. false≢true (sym kept ∙ ap is_skipped e ∙ is_skipped-suffix q)))
  ]

  walk_settled :
      (ps : List Bytes) (fs : Fs) (r : CleanupReport) (p : Bytes)
      → is_skipped p ≡ false
      → IsSettled fs p
      → (walk s refuses now ps fs r).0 p ≡ fs p
  unfolding walk
  walk_settled [] fs r p kept h = refl
  walk_settled (q ∷ ps) fs r p kept h =
      let step = visit_settled fs r q p kept h in
      walk_settled ps (seen fs r q).0 (seen fs r q).1 p kept
        (subst (λ (o : Option File). IsSettledFile (is_skipped p) (refuses p) o) (sym step) h)
      ∙ step

  -- What a walk adds to the report, by the files that it leaves.
  record Describes (ps : List Bytes) (r : CleanupReport) (after : Fs) (r' : CleanupReport)
      : Type 0 where
    settled : All (IsSettled after) ps
    bytes : r'.bytes ≡ r.bytes + total after ps
    scanned : r'.scanned + r.removed ≡ r.scanned + r'.removed + count after ps
    removed : r'.expired_removed + r.removed ≡ r'.removed + r.expired_removed

  -- The file at `p` as the rest of the walk leaves it: what it counts for stays.
  settled_after :
      (skipped refused : Bool) (before after : Option File)
      → (skipped ≡ false → after ≡ before)
      → IsSettledFile skipped refused before
      → IsSettledFile skipped refused after
        × (weight_of skipped after ≡ weight_of skipped before)
        × (one_of skipped after ≡ one_of skipped before)
  settled_after true refused none none same h = (tt, refl, refl)
  settled_after true refused none (some f) same h = (inl refl, refl, refl)
  settled_after true refused (some b) none same h = (tt, refl, refl)
  settled_after true refused (some b) (some f) same h = (inl refl, refl, refl)
  settled_after false refused before after same h = rw (same refl) (h, refl, refl)

  walk-Describes :
      (ps : List Bytes) (fs : Fs) (r : CleanupReport)
      → Describes ps r (walk s refuses now ps fs r).0 (walk s refuses now ps fs r).1
  unfolding walk
  walk-Describes [] fs r = record {
    settled = tt;
    bytes = omega arith;
    scanned = omega arith;
    removed = omega arith;
  }
  walk-Describes (p ∷ ps) fs r =
      let step = visit-Adds fs r p in
      let rest = walk-Describes ps (seen fs r p).0 (seen fs r p).1 in
      let (here, same_weight, same_one) =
        settled_after (is_skipped p) (refuses p) ((seen fs r p).0 p)
          ((walk s refuses now ps (seen fs r p).0 (seen fs r p).1).0 p)
          (λ kept. walk_settled ps (seen fs r p).0 (seen fs r p).1 p kept step.settled)
          step.settled in
      record {
        settled = (here, rest.settled);
        bytes = omega (arith, same_weight, step.bytes, rest.bytes);
        scanned = omega (arith, same_one, step.scanned, rest.scanned);
        removed = omega (arith, step.removed, rest.removed);
      }

  -- After a cleanup no path of the walk holds an expired entry, but one whose removal the system
  -- refuses; `Bytes` is the size of the live entries that are left, `Scanned` their number with that
  -- of the entries counted as removed, all of which were expired, and `OverMaxBytes` says whether the
  -- live entries exceed a positive bound.
  pub cleanup_report :
      (paths : List Bytes) (fs : Fs)
      → All (IsSettled (cleanup s refuses now paths fs).0) paths
        × ((cleanup s refuses now paths fs).1.bytes
            ≡ total (cleanup s refuses now paths fs).0 paths)
        × ((cleanup s refuses now paths fs).1.scanned
            ≡ (cleanup s refuses now paths fs).1.removed
              + count (cleanup s refuses now paths fs).0 paths)
        × ((cleanup s refuses now paths fs).1.expired_removed
            ≡ (cleanup s refuses now paths fs).1.removed)
        × ((cleanup s refuses now paths fs).1.over_max_bytes ≡ (
            ltb_ℤ (pos 0) s.max_bytes
            && ltb_ℤ s.max_bytes (pos (total (cleanup s refuses now paths fs).0 paths))))
  unfolding cleanup
  cleanup_report paths fs =
      let d = walk-Describes paths fs empty_report in
      let size : (walk s refuses now paths fs empty_report).1.bytes
          ≡ total (walk s refuses now paths fs empty_report).0 paths =
        omega (arith, d.bytes) in
      (
        d.settled,
        size,
        omega (arith, d.scanned),
        omega (arith, d.removed),
        ap (λ n. ltb_ℤ (pos 0) s.max_bytes && ltb_ℤ s.max_bytes (pos n)) size,
      )
