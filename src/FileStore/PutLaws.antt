-- ===== src/FileStore/PutLaws.antt =====
-- What `Get` answers after `Put` and `Delete`, for the same key and for others.
use triplet.Common.{
  ℕ, ◌≡◌, sym, ◌≢◌, ◌⊎◌, inl, inr, true, false, [], Option, none, some, ok, err, arith, Bool-cases,
  if◌then◌else◌, length,
}
use triplet.Text.{Bytes, bytes_eq}
use triplet.Text.Cut.{bytes_eq_refl, bytes_eq_of_ne}
use triplet.FileStore.{
  FileStore, Codec, Entry, GetError, get, get_from, read_meta, open_data, expired,
}
use triplet.FileStore.Files.{Fs, File}
use triplet.FileStore.Paths.{
  data_path, meta_path, IsHash, data_path_injective, data_path-ne-meta_path, meta_path_injective,
}
use triplet.FileStore.Put.{Faults, PutError, WriteOutcome, put, delete, file_of}

-- What is relied on of the codec, for a key and the metadata of a `Put`.
module _ (c : Codec) where
  -- `Get` reads two files only.
  get_same_files :
      (s : FileStore) (now : ℕ) (fs fs' : Fs) (key : Bytes)
      → fs' (meta_path (c.hex key)) ≡ fs (meta_path (c.hex key))
      → fs' (data_path (c.hex key)) ≡ fs (data_path (c.hex key))
      → get c s now fs' key ≡ get c s now fs key
  unfolding get
  get_same_files s now fs fs' key m d = rw (m, d)

  -- A temporary name: it is no file of an entry.
  abbrev pub IsTemp : Bytes → Bytes → Type 0
  IsTemp tmp key = (data_path (c.hex key) ≢ tmp) × (meta_path (c.hex key) ≢ tmp)

  -- The three files of a `Put`, told apart.
  record Apart (d m tmp : Bytes) : Type 0 where
    d_d : bytes_eq d d ≡ true
    m_m : bytes_eq m m ≡ true
    tmp_tmp : bytes_eq tmp tmp ≡ true
    d_m : bytes_eq d m ≡ false
    m_d : bytes_eq m d ≡ false
    d_tmp : bytes_eq d tmp ≡ false
    m_tmp : bytes_eq m tmp ≡ false
    tmp_d : bytes_eq tmp d ≡ false

  apart :
      (key tmp : Bytes)
      → IsHash (c.hex key)
      → IsTemp tmp key
      → Apart (data_path (c.hex key)) (meta_path (c.hex key)) tmp
  apart key tmp h t = record {
    d_d = bytes_eq_refl _;
    m_m = bytes_eq_refl _;
    tmp_tmp = bytes_eq_refl _;
    d_m = bytes_eq_of_ne _ _ (data_path-ne-meta_path (c.hex key) (c.hex key) h);
    m_d = bytes_eq_of_ne _ _ (λ e. data_path-ne-meta_path (c.hex key) (c.hex key) h (sym e));
    d_tmp = bytes_eq_of_ne _ _ t.0;
    m_tmp = bytes_eq_of_ne _ _ t.1;
    tmp_d = bytes_eq_of_ne _ _ (λ e. t.0 (sym e));
  }

  -- After a `Delete` that the system does not refuse the key misses, whatever was there.
  get-delete :
      (s : FileStore) (now : ℕ) (fs : Fs) (key : Bytes)
      → IsHash (c.hex key)
      → get c s now (delete c s false false fs key) key ≡ err GetError.miss
  unfolding get delete get_from read_meta open_data
  get-delete s now fs key h = ground (
    arith,
    bytes_eq_refl (data_path (c.hex key)),
    bytes_eq_refl (meta_path (c.hex key)),
    bytes_eq_of_ne _ _ (data_path-ne-meta_path (c.hex key) (c.hex key) h),
  )

  get_without_data :
      (s : FileStore) (now : ℕ) (fs : Fs) (key : Bytes)
      → fs (data_path (c.hex key)) ≡ none
      → (entry : Bytes × Entry) → get c s now fs key ≢ ok entry
  unfolding get get_from read_meta open_data
  get_without_data s now fs key gone entry e = ground arith

  -- What `Get` answers are the bytes of the payload.
  get_bytes :
      (s : FileStore) (now : ℕ) (fs : Fs) (key : Bytes) (f : File)
      → fs (data_path (c.hex key)) ≡ some f
      → (entry : Bytes × Entry) → get c s now fs key ≡ ok entry
      → entry.0 ≡ f.content
  unfolding get get_from read_meta open_data
  get_bytes s now fs key f there entry e = ground arith

  module _ (s : FileStore) (faults : Faults) (now : ℕ) (fs : Fs)
      (tmp key content_type value : Bytes) where
    abbrev after : Fs × Option PutError
    after = put c s faults now fs tmp key content_type value

    put-data :
        Apart (data_path (c.hex key)) (meta_path (c.hex key)) tmp
        → after.1 ≡ none
        → after.0 (data_path (c.hex key)) ≡ some (file_of value now)
    unfolding put
    put-data a e = ground arith

    put-meta :
        Apart (data_path (c.hex key)) (meta_path (c.hex key)) tmp
        → s.store_content_type ≡ true
        → after.1 ≡ none
        → after.0 (meta_path (c.hex key)) ≡ some (file_of (c.encode content_type) now)
    unfolding put
    put-meta a ct e = ground arith

    put-failed :
        Apart (data_path (c.hex key)) (meta_path (c.hex key)) tmp
        → after.1 ≢ none
        → (after.0 (data_path (c.hex key)) ≡ none)
          ⊎ ((after.0 (data_path (c.hex key)) ≡ fs (data_path (c.hex key)))
              × (after.0 (meta_path (c.hex key)) ≡ fs (meta_path (c.hex key))))
          ⊎ ((faults.remove_data ≡ true)
              × (faults.meta ≢ WriteOutcome.written)
              × (after.0 (data_path (c.hex key)) ≡ some (file_of value now)))
    unfolding put
    put-failed a e = ground arith

    put-other :
        (q : Bytes)
        → q ≢ tmp
        → q ≢ data_path (c.hex key)
        → q ≢ meta_path (c.hex key)
        → after.0 q ≡ fs q
    unfolding put
    put-other q t d m =
        ground (arith, bytes_eq_of_ne q tmp t, bytes_eq_of_ne q _ d, bytes_eq_of_ne q _ m)

    -- A `Put` that ends well is what a later `Get` of the key answers, until the entry expires: the
    -- bytes, their number, the time, and the content type where the store keeps it.
    pub get-put :
        (later : ℕ)
        → IsHash (c.hex key)
        → IsTemp tmp key
        → c.decode (c.encode content_type) ≡ some content_type
        → expired s now later ≡ false
        → after.1 ≡ none
        → get c s later after.0 key
          ≡ ok (
            value,
            record {
              content_type = if s.store_content_type then content_type else [];
              size = length value;
              stored_at = now;
            },
          )
    unfolding get get_from read_meta open_data
    get-put later h t codec live e =
        let a = apart key tmp h t in
        let d = put-data a e in
        elim (Bool-cases s.store_content_type) [
          | inl ct ↦ let m = put-meta a ct e in ground (arith, m, d, codec, live)
          | inr bare ↦ ground (arith, d, live)
        ]

    -- A `Put` that fails leaves what `Get` answers for the key, or the key has no entry any more,
    -- or neither the metadata could be written nor the payload removed again: then `Get` answers
    -- the bytes of the failed `Put`, if any. The hash has 64 bytes without dot and slash, and the
    -- temporary name is no file of the key.
    pub get-put_failed :
        (later : ℕ)
        → IsHash (c.hex key)
        → IsTemp tmp key
        → after.1 ≢ none
        → (get c s later after.0 key ≡ get c s later fs key)
          ⊎ ((entry : Bytes × Entry) → get c s later after.0 key ≢ ok entry)
          ⊎ ((faults.remove_data ≡ true)
              × (faults.meta ≢ WriteOutcome.written)
              × ((entry : Bytes × Entry) → get c s later after.0 key ≡ ok entry → entry.0 ≡ value))
    get-put_failed later h t e = elim (put-failed (apart key tmp h t) e) [
      | inl gone ↦ inr (inl (no_entry gone))
      | inr (inl (d, m)) ↦ inl (get_same_files s later fs after.0 key m d)
      | inr (inr (kept, unwritten, d)) ↦ inr (
          inr (
            kept,
            unwritten,
            λ entry e. get_bytes s later after.0 key (file_of value now) d entry e,
          ))
    ]
      where
        no_entry :
            after.0 (data_path (c.hex key)) ≡ none
            → (entry : Bytes × Entry) → get c s later after.0 key ≢ ok entry
        no_entry gone entry found = absurd (get_without_data s later after.0 key gone entry found)

    -- A `Put`, also one that fails, changes no answer for a key with another hash.
    pub get-put_other :
        (later : ℕ) (other : Bytes)
        → IsHash (c.hex key)
        → IsHash (c.hex other)
        → IsTemp tmp other
        → c.hex other ≢ c.hex key
        → get c s later after.0 other ≡ get c s later fs other
    get-put_other later other h k t ne =
        get_same_files s later fs after.0 other
          (put-other (meta_path (c.hex other)) t.1
            (λ e. data_path-ne-meta_path (c.hex key) (c.hex other) h (sym e))
            (λ e. ne (meta_path_injective _ _ k h e)))
          (put-other (data_path (c.hex other)) t.0 (λ e. ne (data_path_injective _ _ k h e))
            (data_path-ne-meta_path (c.hex other) (c.hex key) k))
