-- ===== src/FileStore/CleanupLaws.antt =====
-- `Cleanup` changes no answer of `Get`, and its report adds up.
use triplet.Common.{
  ℕ, ◌≡◌, refl, sym, ap, ◌∙◌, ◌≢◌, inl, inr, Bool, true, false, ◌++◌, [], ◌∷◌, some, Result, ok,
  err, arith, Bool-cases, List, Option-cases,
}
use triplet.Text.{Bytes, bytes_eq}
use triplet.Text.Cut.{bytes_eq_refl, bytes_eq_of_ne, bytes_eq-eq, ne_of_bytes_eq}
use triplet.FileStore.{
  FileStore, Codec, Entry, GetError, get, get_from, read_meta, open_data, expired,
}
use triplet.FileStore.Files.{Fs, File}
use triplet.FileStore.Paths.{
  data_path, meta_path, meta_suffix, IsHash, ext-meta, data_path-ne-meta, meta_suffix_cancel,
}
use triplet.FileStore.Cleanup.{
  CleanupReport, visit, remove_entry, walk, cleanup, is_skipped, empty_report,
}

-- A metadata file is passed over.
is_skipped-meta : (h : Bytes) → is_skipped (meta_path h) ≡ true
unfolding is_skipped meta_path
is_skipped-meta h = rw (ext-meta (data_path h)) refl

no_skip : false ≡ true → ⊥
no_skip e = cc

module _ (c : Codec) (s : FileStore) (refuses : Bytes → Bool) (now : ℕ) where
  -- An answer that is an entry or a miss: no unreadable file and no broken metadata.
  abbrev pub IsAnswer : Result GetError (Bytes × Entry) → Type 0
  IsAnswer (ok entry) = Unit
  IsAnswer (err GetError.miss) = Unit
  IsAnswer (err GetError.io) = ⊥
  IsAnswer (err GetError.bad_meta) = ⊥

  abbrev answer : Fs → Bytes → Result GetError (Bytes × Entry)
  answer fs key = get c s now fs key

  -- An expired file is a miss before it is removed and after.
  answer_expired :
      (fs : Fs) (key : Bytes) (f : File)
      → IsAnswer (answer fs key)
      → fs (data_path (c.hex key)) ≡ some f
      → expired s f.mod_time now ≡ true
      → answer fs key ≡ err GetError.miss
  unfolding get get_from read_meta open_data
  answer_expired fs key f ok_before e x = ground arith

  answer_removed :
      (fs : Fs) (key : Bytes) (f : File)
      → IsHash (c.hex key)
      → IsAnswer (answer fs key)
      → fs (data_path (c.hex key)) ≡ some f
      → expired s f.mod_time now ≡ true
      → answer (remove_entry s refuses now fs (data_path (c.hex key))) key ≡ err GetError.miss
  unfolding get get_from read_meta open_data remove_entry meta_path
  answer_removed fs key f h before e x = ground (
    arith,
    bytes_eq_refl (data_path (c.hex key)),
    bytes_eq_refl (data_path (c.hex key) ++ meta_suffix),
    bytes_eq_of_ne _ _ (data_path-ne-meta (c.hex key) (data_path (c.hex key)) h),
  )

  -- Removing another file leaves the two files of the key.
  answer_untouched :
      (fs : Fs) (key p : Bytes)
      → IsHash (c.hex key)
      → p ≢ data_path (c.hex key)
      → p ≢ meta_path (c.hex key)
      → answer (remove_entry s refuses now fs p) key ≡ answer fs key
  unfolding get remove_entry meta_path
  answer_untouched fs key p h d m = ground (
    arith,
    bytes_eq_of_ne (data_path (c.hex key)) p (λ e. d (sym e)),
    bytes_eq_of_ne (data_path (c.hex key) ++ meta_suffix) p (λ e. m (sym e)),
    bytes_eq_of_ne _ _ (data_path-ne-meta (c.hex key) p h),
    bytes_eq_of_ne (data_path (c.hex key) ++ meta_suffix) (p ++ meta_suffix)
        (λ e. d (sym (meta_suffix_cancel _ _ e))),
  )

  answer-visit_expired :
      (fs : Fs) (key p : Bytes) (f : File)
      → IsHash (c.hex key)
      → IsAnswer (answer fs key)
      → is_skipped p ≡ false
      → fs p ≡ some f
      → expired s f.mod_time now ≡ true
      → answer (remove_entry s refuses now fs p) key ≡ answer fs key
  answer-visit_expired fs key p f h before kept e x =
      elim (Bool-cases (bytes_eq p (data_path (c.hex key)))) [
        | inl same ↦
            let here = bytes_eq-eq p (data_path (c.hex key)) same in
            (ap (λ q. answer (remove_entry s refuses now fs q) key) here
              ∙ answer_removed fs key f h before (ap fs (sym here) ∙ e) x)
            ∙ sym (answer_expired fs key f before (ap fs (sym here) ∙ e) x)
        | inr other ↦
            answer_untouched fs key p h (ne_of_bytes_eq p _ other)
              (λ m. no_skip (sym kept ∙ ap is_skipped m ∙ is_skipped-meta (c.hex key)))
      ]

  -- One step of the walk.
  answer-visit :
      (fs : Fs) (r : CleanupReport) (key p : Bytes)
      → IsHash (c.hex key)
      → IsAnswer (answer fs key)
      → answer (visit s refuses now fs r p).0 key ≡ answer fs key
  unfolding visit
  answer-visit fs r key p h before = elim (Bool-cases (is_skipped p)) [
    | inl skip ↦ rw skip refl
    | inr kept ↦ elim (Option-cases (fs p)) [
      | inl gone ↦ rw kept (rw (gone, visit) refl)
      | inr (f, e) ↦ elim (Bool-cases f.regular) [
        | inr other ↦ rw kept (rw (e, visit) (rw other refl))
        | inl file ↦ elim (Bool-cases (expired s f.mod_time now)) [
          | inr live ↦ rw kept (rw (e, visit) (rw (file, live) refl))
          | inl dead ↦ rw kept (
              rw (e, visit)
                (rw (file, dead) (answer-visit_expired fs key p f h before kept e dead)))
        ]
      ]
    ]
  ]

  answer-walk :
      (ps : List Bytes) (fs : Fs) (r : CleanupReport) (key : Bytes)
      → IsHash (c.hex key)
      → IsAnswer (answer fs key)
      → answer (walk s refuses now ps fs r).0 key ≡ answer fs key
  unfolding walk
  answer-walk [] fs r key h before = refl
  answer-walk (p ∷ ps) fs r key h before =
      let step = answer-visit fs r key p h before in
      answer-walk ps (visit s refuses now fs r p).0 (visit s refuses now fs r p).1 key h
        (rw step before)
      ∙ step

  -- Whatever paths the walk meets, in whatever order, and whichever removals the system refuses, a
  -- `Get` at the time of the cleanup answers after it as it did before it, if it answered by an
  -- entry or a miss, for a key whose hash has 64 bytes without dot and slash.
  pub get-cleanup :
      (paths : List Bytes) (fs : Fs) (key : Bytes)
      → IsHash (c.hex key)
      → IsAnswer (get c s now fs key)
      → get c s now (cleanup s refuses now paths fs).0 key ≡ get c s now fs key
  unfolding cleanup
  get-cleanup paths fs key h before = answer-walk paths fs empty_report key h before
