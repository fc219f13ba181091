-- ===== src/Presentation/Tests.antt =====
-- Two keys under a root without links, and a document written and read over HTTP.
use triplet.Common.{
  ℕ, zero, suc, ◌≡◌, refl, ◌≢◌, ◌⊎◌, inl, inr, true, List, [], ◌∷◌, ◌++◌, none, Result, ok, err,
  arith, replicate, take, if◌then◌else◌,
}
use triplet.Text.{Bytes, codes, bytes_eq, contains, contains_any, split, join}
use triplet.Text.Cut.{Lacks}
use triplet.Filepath.{elements, rooted, resolve, enter, escapes, rel}
use triplet.FileStore.Files.{Fs}
use triplet.FileStore.Paths.{IsHash}
use triplet.Presentation.Store.{
  StoreError, Preconditions, valid_resource_key, put_precondition_matches,
}
use triplet.Presentation.Store.Files.{
  FileStore, System, SystemError, Faults, file_store, put, resource_path, dir,
}
use triplet.Presentation.Store.Abstract.{
  Documents, Call, get_call, put_call, delete_call, map_store, run,
}
use triplet.Presentation.Store.Plain.{no_faults, IsPlain, follow, path_of}
use triplet.Presentation.Store.Refines.{run-refines}
use triplet.Presentation.Store.Failed.{put-IsKept, IsKept}

abbrev first_key : Bytes
first_key = codes "a"

abbrev second_key : Bytes
second_key = codes "b"

abbrev digest_of : Bytes → Bytes
digest_of key = replicate 64 (if bytes_eq key first_key then b'a' else b'7')

abbrev sample_links : Fs → Bytes → Result SystemError Bytes
sample_links fs p = if contains p (codes ".json") then follow p (fs p) else ok p

abbrev sample_system : System
sample_system = record {
  eval_symlinks = sample_links;
  stat_path = λ fs p. ok tt;
  sha256_hex = digest_of;
  temp_name = λ fs d. codes "t";
}

abbrev sample_store : FileStore
sample_store = record { root = codes "/r"; real_root = codes "/r" }

abbrev IsSample : Bytes → Type 0
IsSample key = (key ≡ first_key) ⊎ (key ≡ second_key)

digits-Lacks : (n c b : ℕ) → c ≢ b → Lacks b (replicate n c)
digits-Lacks zero c b h = tt
digits-Lacks (suc n) c b h = (h, digits-Lacks n c b h)

digits-IsHash : (c : ℕ) → c ≢ b'.' → c ≢ b'/' → IsHash (replicate 64 c)
digits-IsHash c dot slash = record {
  size = refl;
  no_dot = digits-Lacks 64 c b'.' dot;
  no_slash = digits-Lacks 64 c b'/' slash;
}

sample-IsHash : (key : Bytes) → IsSample key → IsHash (digest_of key)
unfolding bytes_eq
sample-IsHash key (inl e) = rw e (digits-IsHash b'a' (omega arith) (omega arith))
sample-IsHash key (inr e) = rw e (digits-IsHash b'7' (omega arith) (omega arith))

sample-apart :
    (key other : Bytes)
    → IsSample key
    → IsSample other
    → digest_of key ≡ digest_of other
    → key ≡ other
unfolding bytes_eq
sample-apart key other (inl e) (inl d) h = cc
sample-apart key other (inr e) (inr d) h = cc
sample-apart key other (inl e) (inr d) h = absurd (ground arith)
sample-apart key other (inr e) (inl d) h = absurd (ground arith)

sample-files :
    (fs : Fs) (key : Bytes)
    → IsSample key
    → sample_links fs (path_of sample_system sample_store key)
      ≡ follow
          (path_of sample_system sample_store key)
          (fs (path_of sample_system sample_store key))
unfolding bytes_eq elements split join contains resolve enter
sample-files fs key (inl e) = rw e refl
sample-files fs key (inr e) = rw e refl

sample-directory :
    (fs : Fs) (key : Bytes)
    → IsSample key
    → let names = elements (codes "/r") ++ codes "resources" ∷ take 2 (digest_of key) ∷ [] in
      sample_links fs (rooted names) ≡ ok (rooted names)
unfolding bytes_eq elements split join contains resolve enter
sample-directory fs key (inl e) = rw e refl
sample-directory fs key (inr e) = rw e refl

IsSample-IsPlain : IsPlain sample_system sample_store IsSample
unfolding elements split join contains resolve enter bytes_eq
IsSample-IsPlain = record {
  root_same = refl;
  hash = sample-IsHash;
  apart = sample-apart;
  files = sample-files;
  top = λ fs. refl;
  top_leads = λ fs. refl;
  directories = λ fs. record { stat = inl refl; leads = refl };
  hash_directories = λ fs key k. record { stat = inl refl; leads = sample-directory fs key k };
  temp = λ fs d key k e. absurd (ground arith);
}

abbrev no_files : Fs
no_files p = none

abbrev no_documents : Documents
no_documents key = none

abbrev create : Preconditions
create = record { if_match = []; if_none_match = codes "*" }

-- Written twice with the condition of a creation, read, and deleted under any tag.
abbrev sample_calls : List Call
sample_calls =
    put_call 1 first_key (codes "x") create
    ∷ put_call 2 first_key (codes "y") create
    ∷ get_call first_key
    ∷ get_call second_key
    ∷ delete_call first_key (codes "*")
    ∷ get_call first_key
    ∷ []

run-refines_example :
    run (file_store sample_system sample_store no_faults) no_files sample_calls
    ≡ run (map_store digest_of) no_documents sample_calls
run-refines_example =
    run-refines sample_system sample_store IsSample-IsPlain sample_calls no_files no_documents
      (λ key k. (refl, tt))
      (inl refl, (inl refl, (inl refl, (inr refl, (inl refl, (inl refl, tt))))))

abbrev rename_fails : Faults
rename_fails = record no_faults { rename = true }

sample_path :
    resource_path sample_system sample_store first_key
    ≡ ok (path_of sample_system sample_store first_key)
unfolding resource_path bytes_eq valid_resource_key contains_any
sample_path = refl

sample_failure :
    (put sample_system sample_store rename_fails no_files 1 first_key (codes "x") create).1
    ≡ err StoreError.failed
unfolding put bytes_eq elements split join contains resolve enter valid_resource_key contains_any
    escapes rel dir put_precondition_matches
sample_failure = refl

put-IsKept_example :
    IsKept sample_system sample_store rename_fails 1 no_files
      (codes "x")
      create
      (path_of sample_system sample_store first_key)
      (put sample_system sample_store rename_fails no_files 1 first_key (codes "x") create).0
put-IsKept_example =
    put-IsKept sample_system sample_store rename_fails 1 no_files (codes "x") create first_key
      (path_of sample_system sample_store first_key) StoreError.failed sample_path sample_failure
