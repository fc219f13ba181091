-- ===== src/Presentation/Store/Plain.antt =====
-- A root without links: the directory of a document is made, and reading a path gives its file.
use mathlib.Core.Path.{subst}
use triplet.Common.{
  ℕ, suc, ◌≡◌, ◌≢◌, refl, sym, ap, ◌∙◌, ◌⊎◌, inl, inr, true, false, List, [], ◌∷◌, ◌++◌, Option,
  none, some, Result, ok, err, take, length, length-append, arith, All, All-append, Option-cases,
  append_assoc, append-nil, if◌then◌else◌,
}
use triplet.Text.{Bytes, codes, bytes_eq}
use triplet.Text.Cut.{take-append_length}
use triplet.Filepath.{elements, rooted, drop_last, rel}
use triplet.Filepath.Contained.{IsName, elements-IsName, elements-rooted, rel-stays}
use triplet.FileStore.Files.{Fs, File}
use triplet.FileStore.Paths.{IsHash}
use triplet.Presentation.Store.{StoreError, Document}
use triplet.Presentation.Store.Files.{
  FileStore, System, SystemError, Faults, dir, ensure_contained, resolve_read,
  ensure_create_path_contained, contained_or_above, make_directory, or_not_found, or_failed,
  may_fail,
}
use triplet.Presentation.Store.Abstract.{Documents}

abbrev pub no_faults : Faults
no_faults = record {
  mkdir = false;
  create = false;
  write = false;
  chmod = false;
  sync = false;
  close = false;
  rename = false;
  unlink = false;
  sync_directory = false;
  remove_temp = false;
}

-- What `EvalSymlinks` answers where no link is on the way.
abbrev pub follow : Bytes → Option File → Result SystemError Bytes
follow path none = err SystemError.not_exist
follow path (some f) = ok path

abbrev pub as_document : Option File → Option Document
as_document none = none
as_document (some f) = some (record { body = f.content; modified_at = f.mod_time })

abbrev pub IsReadable : Option File → Type 0
IsReadable none = Unit
IsReadable (some f) = f.readable ≡ true

abbrev third : List Bytes → Bytes
third (p ∷ q ∷ r ∷ rest) = r
third _ = []

cancel : (ps qs rs : List Bytes) → ps ++ qs ≡ ps ++ rs → qs ≡ rs
cancel [] qs rs e = e
cancel (p ∷ ps) qs rs e = cancel ps qs rs cc

take-json : (h : Bytes) → IsHash h → take 64 (h ++ codes ".json") ≡ h
take-json h i =
    ap (λ n. take n (h ++ codes ".json")) (sym i.size) ∙ take-append_length h (codes ".json")

module _ (system : System) (s : FileStore) where
  abbrev pub names_of : Bytes → List Bytes
  names_of key =
      let digest = system.sha256_hex key in
      codes "resources" ∷ take 2 digest ∷ (digest ++ codes ".json") ∷ []

  abbrev pub path_of : Bytes → Bytes
  path_of key = rooted (elements s.root ++ names_of key)

  -- A directory on the way is there, or is not yet; one that was made leads to itself.
  pub record IsDirectory (fs : Fs) (path : Bytes) : Type 0 where
    pub stat :
        (system.stat_path fs path ≡ ok tt) ⊎ (system.stat_path fs path ≡ err SystemError.not_exist)
    pub leads : system.eval_symlinks fs path ≡ ok path

  -- A root without links, for keys whose hashes differ.
  pub record IsPlain (IsKey : Bytes → Type 0) : Type 0 where
    pub root_same : elements s.real_root ≡ elements s.root
    pub hash : (key : Bytes) → IsKey key → IsHash (system.sha256_hex key)
    pub apart :
        (key other : Bytes)
        → IsKey key
        → IsKey other
        → system.sha256_hex key ≡ system.sha256_hex other
        → key ≡ other
    pub files :
        (fs : Fs) (key : Bytes)
        → IsKey key
        → system.eval_symlinks fs (path_of key) ≡ follow (path_of key) (fs (path_of key))
    pub top : (fs : Fs) → system.stat_path fs (rooted (elements s.root)) ≡ ok tt
    pub top_leads :
        (fs : Fs)
        → system.eval_symlinks fs (rooted (elements s.root)) ≡ ok (rooted (elements s.root))
    pub directories :
        (fs : Fs) → IsDirectory fs (rooted (elements s.root ++ codes "resources" ∷ []))
    pub hash_directories :
        (fs : Fs) (key : Bytes)
        → IsKey key
        → IsDirectory fs
            (rooted (elements s.root ++ codes "resources" ∷ take 2 (system.sha256_hex key) ∷ []))
    pub temp : (fs : Fs) (d key : Bytes) → IsKey key → path_of key ≢ system.temp_name fs d

  -- The map that the files stand for.
  abbrev pub Represents : (Bytes → Type 0) → Fs → Documents → Type 0
  Represents IsKey fs docs =
      (key : Bytes)
      → IsKey key
      → (docs key ≡ as_document (fs (path_of key))) × IsReadable (fs (path_of key))

  module _ {IsKey : Bytes → Type 0} (plain : IsPlain IsKey) where
    contained :
        (fs : Fs) (ps : List Bytes)
        → All IsName ps
        → system.eval_symlinks fs (rooted (elements s.root ++ ps))
          ≡ ok (rooted (elements s.root ++ ps))
        → ensure_contained system s fs (rooted (elements s.root ++ ps)) ≡ ok tt
    unfolding ensure_contained or_failed rel
    contained fs ps h e =
        rw (e, plain.root_same)
          (ap (λ b. if b then err StoreError.not_found else ok tt) (rel-stays s.root ps h))

    drop_last-append : (ps : List Bytes) (p : Bytes) → drop_last (ps ++ p ∷ []) ≡ ps
    drop_last-append [] p = refl
    drop_last-append (q ∷ []) p = refl
    drop_last-append (q ∷ r ∷ ps) p = ap (λ l. q ∷ l) (drop_last-append (r ∷ ps) p)

    resources-IsName : IsName (codes "resources")
    unfolding bytes_eq
    resources-IsName = record {
      no_slash = ground arith;
      filled = refl;
      not_dot = refl;
      not_dot_dot = refl;
    }

    take-IsName : (h : Bytes) → IsHash h → IsName (take 2 h)
    unfolding bytes_eq
    take-IsName [] i = absurd (omega (arith, i.size))
    take-IsName (a ∷ []) i = absurd (omega (arith, i.size))
    take-IsName (a ∷ b ∷ h) i = record {
      no_slash = (i.no_slash.0, (i.no_slash.1.0, tt));
      filled = refl;
      not_dot = ground (arith, i.no_dot);
      not_dot_dot = ground (arith, i.no_dot);
    }

    json-IsName : (h : Bytes) → IsHash h → IsName (h ++ codes ".json")
    unfolding bytes_eq
    json-IsName [] i = absurd (omega (arith, i.size))
    json-IsName (a ∷ h) i = record {
      no_slash = All-append (λ c. c ≢ b'/') (a ∷ h) (codes ".json") i.no_slash (ground arith);
      filled = refl;
      not_dot = ground (arith, i.no_dot);
      not_dot_dot = ground (arith, i.no_dot);
    }

    directory_names :
        (key : Bytes)
        → IsKey key
        → All IsName (codes "resources" ∷ take 2 (system.sha256_hex key) ∷ [])
    directory_names key k = (resources-IsName, (take-IsName _ (plain.hash key k), tt))

    names_of-IsName : (key : Bytes) → IsKey key → All IsName (names_of key)
    names_of-IsName key k = (
      resources-IsName,
      (take-IsName _ (plain.hash key k), (json-IsName _ (plain.hash key k), tt)),
    )

    elements-path_of :
        (key : Bytes) → IsKey key → elements (path_of key) ≡ elements s.root ++ names_of key
    elements-path_of key k =
        elements-rooted _ (All-append IsName _ _ (elements-IsName s.root) (names_of-IsName key k))

    drop_last-elements :
        (key : Bytes)
        → IsKey key
        → drop_last (elements (path_of key))
          ≡ elements s.root ++ codes "resources" ∷ take 2 (system.sha256_hex key) ∷ []
    drop_last-elements key k =
        ap drop_last (
          elements-path_of key k
          ∙ sym (
              append_assoc (elements s.root)
                (codes "resources" ∷ take 2 (system.sha256_hex key) ∷ [])
                ((system.sha256_hex key ++ codes ".json") ∷ [])))
        ∙ drop_last-append
            (elements s.root ++ codes "resources" ∷ take 2 (system.sha256_hex key) ∷ []) _

    -- One round: a directory that is there is under the root, and one that is not leaves it to those above.
    create_step :
        (n : ℕ) (fs : Fs) (ps : List Bytes) (p : Bytes)
        → IsDirectory fs (rooted (ps ++ p ∷ []))
        → ensure_contained system s fs (rooted (ps ++ p ∷ [])) ≡ ok tt
        → ensure_create_path_contained system s n fs ps ≡ ok tt
        → ensure_create_path_contained system s (suc n) fs (ps ++ p ∷ []) ≡ ok tt
    unfolding ensure_create_path_contained
    create_step n fs [] p d c above = elim d.stat [
      | inl there ↦ rw (there, contained_or_above) c
      | inr absent ↦ rw (absent, contained_or_above) above
    ]
    create_step n fs (q ∷ ps) p d c above = elim d.stat [
      | inl there ↦ rw (there, contained_or_above) c
      | inr absent ↦
          rw (absent, contained_or_above)
            (ap (ensure_create_path_contained system s n fs) (drop_last-append (q ∷ ps) p) ∙ above)
    ]

    create_top :
        (n : ℕ) (fs : Fs) (ps : List Bytes)
        → system.stat_path fs (rooted ps) ≡ ok tt
        → ensure_contained system s fs (rooted ps) ≡ ok tt
        → ensure_create_path_contained system s (suc n) fs ps ≡ ok tt
    unfolding ensure_create_path_contained
    create_top n fs [] d c = rw (d, contained_or_above) c
    create_top n fs (q ∷ ps) d c = rw (d, contained_or_above) c

    pub create_all :
        (n : ℕ) (fs : Fs) (key : Bytes)
        → IsKey key
        → ensure_create_path_contained system s
            (suc (suc (suc n)))
            fs
            (elements s.root ++ codes "resources" ∷ take 2 (system.sha256_hex key) ∷ [])
          ≡ ok tt
    create_all n fs key k =
        let root_names = elements s.root in
        let digest_dir = take 2 (system.sha256_hex key) in
        let assoc = append_assoc root_names (codes "resources" ∷ []) (digest_dir ∷ []) in
        let at_top : ensure_create_path_contained system s (suc n) fs root_names ≡ ok tt =
          create_top n fs root_names (plain.top fs) (
            subst (λ ps. ensure_contained system s fs (rooted ps) ≡ ok tt) (append-nil root_names)
              (contained fs [] tt (
                subst (λ ps. system.eval_symlinks fs (rooted ps) ≡ ok (rooted ps))
                  (sym (append-nil root_names)) (plain.top_leads fs)))) in
        let at_resources =
          create_step (suc n) fs root_names (codes "resources") (plain.directories fs)
            (contained fs (codes "resources" ∷ []) (resources-IsName, tt)
              ((plain.directories fs).leads))
            at_top in
        subst (λ ps. ensure_create_path_contained system s (suc (suc (suc n))) fs ps ≡ ok tt) assoc
          (create_step (suc (suc n)) fs (root_names ++ codes "resources" ∷ []) digest_dir
            (subst (λ ps. IsDirectory fs (rooted ps)) (sym assoc) (plain.hash_directories fs key k))
            (subst (λ ps. ensure_contained system s fs (rooted ps) ≡ ok tt) (sym assoc)
              (contained fs _ (directory_names key k) ((plain.hash_directories fs key k).leads)))
            at_resources)

    length-path_of :
        (key : Bytes)
        → IsKey key
        → length (elements (path_of key)) ≡ suc (suc (suc (length (elements s.root))))
    length-path_of key k =
        omega (
          arith,
          ap length (elements-path_of key k),
          length-append (elements s.root) (names_of key),
        )

    pub make_directory-ok :
        (fs : Fs) (key : Bytes)
        → IsKey key
        → make_directory system s no_faults fs (path_of key) ≡ ok tt
    unfolding make_directory dir
    make_directory-ok fs key k =
        let e = drop_last-elements key k in
        let digest_dir = take 2 (system.sha256_hex key) in
        rw (e, length-path_of key k, create_all (length (elements s.root)) fs key k, may_fail)
          (contained fs (codes "resources" ∷ digest_dir ∷ []) (directory_names key k)
            ((plain.hash_directories fs key k).leads))

    pub path_of_injective :
        (key other : Bytes) → IsKey key → IsKey other → path_of key ≡ path_of other → key ≡ other
    path_of_injective key other k o e =
        let digests = ap third (
          cancel (elements s.root) (names_of key) (names_of other)
            (sym (elements-path_of key k) ∙ ap elements e ∙ elements-path_of other o)) in
        plain.apart key other k o (
          sym (take-json (system.sha256_hex key) (plain.hash key k))
          ∙ ap (take 64) digests
          ∙ take-json (system.sha256_hex other) (plain.hash other o))

    pub resolve_read-lem :
        (fs : Fs) (key : Bytes)
        → IsKey key
        → resolve_read system s fs (path_of key)
          ≡ elim (fs (path_of key)) [ none ↦ err StoreError.not_found | some _ ↦ ok (path_of key) ]
    unfolding resolve_read or_not_found
    resolve_read-lem fs key k = elim (Option-cases (fs (path_of key))) [
      | inl absent ↦ rw (plain.files fs key k, absent, or_not_found)
      | inr (f, there) ↦ rw (
        plain.files fs key k,
        there,
        or_not_found,
        contained fs (names_of key) (names_of-IsName key k)
            (plain.files fs key k ∙ ap (follow (path_of key)) there),
      )
    ]
