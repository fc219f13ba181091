-- ===== src/Presentation/Store/Failed.antt =====
-- What a write that fails leaves of the files.
use triplet.Common.{
  ℕ, ◌≡◌, ◌≢◌, refl, ◌⊎◌, inl, inr, Bool, true, false, ◌||◌, not, [], Option, some, Result, ok, err,
  ◌>>=◌, arith, if_elim,
}
use triplet.Text.{Bytes}
use triplet.Text.Cut.{bytes_eq_refl, bytes_eq_of_ne}
use triplet.FileStore.Files.{Fs, File, update, try_remove, rename_file}
use triplet.FileStore.Put.{file_of}
use triplet.Presentation.Store.{StoreError, Preconditions, put_precondition_matches}
use triplet.Presentation.Store.Files.{
  FileStore, System, SystemError, Faults, dir, resource_path, make_directory, put, put_path, put_at,
  put_read, put_current, atomic_write_file, sync_directory, may_fail,
}

module _ (system : System) (s : FileStore) (faults : Faults) (now : ℕ) (fs : Fs) (body : Bytes)
    (conditions : Preconditions) where
  -- Every file but the temporary one is as before, or the document is the new one, and it is the
  -- directory that could not be synchronised.
  abbrev pub IsKept : Bytes → Fs → Type 0
  IsKept path after =
      ((q : Bytes) → q ≢ system.temp_name fs (dir path) → after q ≡ fs q)
      ⊎ ((faults.sync_directory ≡ true) × (after path ≡ some (file_of body now)))

  -- Every error keeps the files.
  abbrev Fails : {Out : Type 0} → Bytes → Fs × Result StoreError Out → Type 0
  Fails path after = (e : StoreError) → after.1 ≡ err e → IsKept path after.0

  unchanged : {Out : Type 0} (path : Bytes) (r : Result StoreError Out) → Fails path (fs, r)
  unchanged path r e same = inl (λ q ne. refl)

  update_temp :
      (path : Bytes) (f : Option File) (q : Bytes)
      → q ≢ system.temp_name fs (dir path)
      → try_remove faults.remove_temp
          (update fs (system.temp_name fs (dir path)) f)
          (system.temp_name fs (dir path))
          q
        ≡ fs q
  unfolding try_remove update
  update_temp path f q ne = ground (arith, bytes_eq_of_ne q (system.temp_name fs (dir path)) ne)

  update_temp_again :
      (path : Bytes) (f g : Option File) (q : Bytes)
      → q ≢ system.temp_name fs (dir path)
      → try_remove faults.remove_temp
          (update (update fs (system.temp_name fs (dir path)) f) (system.temp_name fs (dir path)) g)
          (system.temp_name fs (dir path))
          q
        ≡ fs q
  unfolding try_remove update
  update_temp_again path f g q ne =
      ground (arith, bytes_eq_of_ne q (system.temp_name fs (dir path)) ne)

  renamed :
      (path : Bytes) (f : Option File)
      → let tmp = system.temp_name fs (dir path) in
        rename_file (update (update fs tmp f) tmp (some (file_of body now))) tmp path path
        ≡ some (file_of body now)
  unfolding rename_file update
  renamed path f =
      ground (arith, bytes_eq_refl path, bytes_eq_refl (system.temp_name fs (dir path)))

  may_fail-true : (b : Bool) (e : StoreError) → may_fail b ≡ err e → b ≡ true
  unfolding may_fail
  may_fail-true true e h = refl
  may_fail-true false e h = cc

  atomic_write-Fails :
      (path : Bytes) → Fails path (atomic_write_file system s faults now fs path body)
  unfolding atomic_write_file sync_directory
  atomic_write-Fails path =
      if_elim (Fails path) faults.create (λ create. unchanged path (err StoreError.failed))
        (λ made.
          if_elim (Fails path) faults.write
            (λ write e same. inl (update_temp path (some (file_of [] now))))
            (λ wrote.
              if_elim (Fails path) (faults.chmod || faults.sync || faults.close || faults.rename)
                (λ failed e same.
                  inl (update_temp_again path (some (file_of [] now)) (some (file_of body now))))
                (λ done e same. inr (
                  may_fail-true faults.sync_directory e same,
                  renamed path (some (file_of [] now)),
                ))))

  put_current-Fails :
      (path : Bytes) (exists : Bool) (etag : Bytes)
      → Fails path (put_current system s faults now fs path body conditions exists etag)
  unfolding put_current
  put_current-Fails path exists etag =
      if_elim (Fails path) (put_precondition_matches exists etag conditions)
        (λ met e same. atomic_write-Fails path e (first_error _ (not exists) e same))
        (λ unmet. unchanged path (err StoreError.precondition_failed))
    where
      first_error :
          (r : Result StoreError (Unit {0})) (created : Bool) (e : StoreError)
          → (r >>= λ _. ok created) ≡ err e
          → r ≡ err e
      first_error (ok u) created e same = absurd (ground arith)
      first_error (err d) created e same = ground arith

  put_read-Fails :
      (path : Bytes) (r : Result SystemError Bytes)
      → Fails path (put_read system s faults now fs path body conditions r)
  unfolding put_read
  put_read-Fails path (ok current) = put_current-Fails path true _
  put_read-Fails path (err SystemError.not_exist) = put_current-Fails path false []
  put_read-Fails path (err SystemError.refused) = unchanged path (err StoreError.failed)

  put_at-Fails :
      (path : Bytes) (r : Result StoreError (Unit {0}))
      → Fails path (put_at system s faults now fs path body conditions r)
  unfolding put_at
  put_at-Fails path (err e) = unchanged path (err e)
  put_at-Fails path (ok _) = put_read-Fails path _

  -- A `Put` that ends with an error has changed no file but the temporary one, or the only step that
  -- failed is the synchronisation of the directory, and the document is the new one.
  pub put-IsKept :
      (resource_key path : Bytes) (e : StoreError)
      → resource_path system s resource_key ≡ ok path
      → (put system s faults fs now resource_key body conditions).1 ≡ err e
      → IsKept path (put system s faults fs now resource_key body conditions).0
  unfolding put put_path
  put-IsKept resource_key path e p failed =
      rw p (put_at-Fails path (make_directory system s faults fs path) e (rw p at failed))
