-- ===== src/FileStore/Tests.antt =====
-- A store with two keys: an entry put, kept, lost, expired and deleted.
use triplet.Common.{
  ℕ, zero, suc, ◌+◌, ◌≡◌, refl, ◌≢◌, ◌⊎◌, Bool, true, false, ◌&&◌, [], ◌∷◌, Option, none, some, ok,
  err, arith, if◌then◌else◌, List, All, replicate,
}
use triplet.Common.Int.{pos, ltb_ℤ}
use triplet.Text.{Bytes, codes, bytes_eq, last_index_byte, contains_byte}
use triplet.Text.Cut.{Lacks, ne_of_bytes_eq}
use triplet.FileStore.{FileStore, Codec, Entry, GetError, get, get_from, expired}
use triplet.FileStore.Files.{Fs}
use triplet.FileStore.Paths.{data_path, meta_path, IsHash, ext, base_name}
use triplet.FileStore.Put.{Faults, WriteOutcome, PutError, put}
use triplet.FileStore.Cleanup.{cleanup, visit, is_skipped}
use triplet.FileStore.PutLaws.{get-put, get-put_failed, get-put_other}
use triplet.FileStore.CleanupLaws.{get-cleanup, IsAnswer}
use triplet.FileStore.Report.{cleanup_report, IsSettled, total, count}

replicate-Lacks : (n c b : ℕ) → c ≢ b → Lacks b (replicate n c)
replicate-Lacks zero c b h = tt
replicate-Lacks (suc n) c b h = (h, replicate-Lacks n c b h)

-- Another 64 digits for the key "k" than for all others.
abbrev digit_of : Bytes → ℕ
digit_of key = if bytes_eq key (codes "k") then b'a' else b'7'

abbrev hashed : Bytes → Bytes
hashed key = replicate 64 (digit_of key)

abbrev sample_codec : Codec
sample_codec = record { hex = hashed; encode = λ t. b'{' ∷ t; decode = strip }
  where
    strip : Bytes → Option Bytes
    strip [] = none
    strip (c ∷ t) = some t

replicate-IsHash : (c : ℕ) → c ≢ b'.' → c ≢ b'/' → IsHash (replicate 64 c)
replicate-IsHash c dot slash = record {
  size = refl;
  no_dot = replicate-Lacks 64 c b'.' dot;
  no_slash = replicate-Lacks 64 c b'/' slash;
}

abbrev kept_key : Bytes
kept_key = codes "k"

abbrev other_key : Bytes
other_key = codes "q"

kept-IsHash : IsHash (hashed kept_key)
unfolding bytes_eq
kept-IsHash = replicate-IsHash b'a' (omega arith) (omega arith)

other-IsHash : IsHash (hashed other_key)
unfolding bytes_eq
other-IsHash = replicate-IsHash b'7' (omega arith) (omega arith)

abbrev sample_store : FileStore
sample_store = record { store_content_type = true; max_bytes = pos 2; max_age = pos 100 }

abbrev no_faults : Faults
no_faults = record {
  mkdir = false;
  create = false;
  copy = false;
  close = false;
  rename = false;
  meta = WriteOutcome.written;
  remove_temp = false;
  remove_data = false;
}

abbrev disk_full : Faults
disk_full = record {
  mkdir = false;
  create = false;
  copy = false;
  close = false;
  rename = false;
  meta = WriteOutcome.partial (codes "{");
  remove_temp = false;
  remove_data = false;
}

abbrev no_files : Fs
no_files = λ p. none

abbrev temp : Bytes
temp = codes "aa/aa/.tmp-1"

abbrev png : Bytes
png = codes "image/png"

abbrev payload : Bytes
payload = codes "PNG"

abbrev stored : Fs
stored = (put sample_codec sample_store no_faults 10 no_files temp kept_key png payload).0

abbrev kept_entry : Entry
kept_entry = record { content_type = png; size = 3; stored_at = 10 }

get_stored : get sample_codec sample_store 50 stored kept_key ≡ ok (payload, kept_entry)
unfolding get put bytes_eq get_from meta_path data_path
get_stored = refl

get_expired : get sample_codec sample_store 111 stored kept_key ≡ err GetError.miss
unfolding get put bytes_eq get_from meta_path data_path
get_expired = refl

kept_paths : (data_path (hashed kept_key) ≢ temp) × (meta_path (hashed kept_key) ≢ temp)
unfolding data_path meta_path bytes_eq
kept_paths = (
  ne_of_bytes_eq (data_path (hashed kept_key)) temp refl,
  ne_of_bytes_eq (meta_path (hashed kept_key)) temp refl,
)

other_paths : (data_path (hashed other_key) ≢ temp) × (meta_path (hashed other_key) ≢ temp)
unfolding data_path meta_path bytes_eq
other_paths = (
  ne_of_bytes_eq (data_path (hashed other_key)) temp refl,
  ne_of_bytes_eq (meta_path (hashed other_key)) temp refl,
)

put_well : (put sample_codec sample_store no_faults 10 no_files temp kept_key png payload).1 ≡ none
unfolding put bytes_eq
put_well = refl

live_at_50 : expired sample_store 10 50 ≡ false
unfolding expired
live_at_50 = refl

get-put_example : get sample_codec sample_store 50 stored kept_key ≡ ok (payload, kept_entry)
get-put_example =
    get-put sample_codec sample_store no_faults 10 no_files temp kept_key png payload 50 kept-IsHash
      kept_paths refl live_at_50 put_well

abbrev replaced : Fs × Option PutError
replaced = put sample_codec sample_store disk_full 20 stored temp kept_key png (codes "NEW")

put_badly : replaced.1 ≢ none
unfolding put bytes_eq
put_badly e = cc

get-put_failed_example :
    (get sample_codec sample_store 50 replaced.0 kept_key
      ≡ get sample_codec sample_store 50 stored kept_key)
    ⊎ ((entry : Bytes × Entry) → get sample_codec sample_store 50 replaced.0 kept_key ≢ ok entry)
    ⊎ ((disk_full.remove_data ≡ true)
        × (disk_full.meta ≢ WriteOutcome.written)
        × ((entry : Bytes × Entry)
            → get sample_codec sample_store 50 replaced.0 kept_key ≡ ok entry
            → entry.0 ≡ codes "NEW"))
get-put_failed_example =
    get-put_failed sample_codec sample_store disk_full 20 stored temp kept_key png (codes "NEW") 50
      kept-IsHash kept_paths put_badly

-- Where the metadata stays as it was and the payload cannot be removed, the new bytes are answered
-- under the old content type.
abbrev stuck : Faults
stuck = record no_faults { meta = WriteOutcome.untouched; remove_data = true }

old_type_of_new_bytes :
    get sample_codec sample_store 50
      (put sample_codec sample_store stuck 20 stored temp kept_key
        (codes "image/gif")
        (codes "NEW")).0
      kept_key
    ≡ ok (codes "NEW", record { content_type = png; size = 3; stored_at = 20 })
unfolding get put bytes_eq get_from meta_path data_path
old_type_of_new_bytes = refl

hashes_differ : hashed kept_key ≢ hashed other_key
unfolding bytes_eq
hashes_differ = ne_of_bytes_eq (hashed kept_key) (hashed other_key) refl

get-put_other_example :
    get sample_codec sample_store 50
      (put sample_codec sample_store disk_full 20 stored temp other_key png payload).0
      kept_key
    ≡ get sample_codec sample_store 50 stored kept_key
get-put_other_example =
    get-put_other sample_codec sample_store disk_full 20 stored temp other_key png payload 50
      kept_key other-IsHash kept-IsHash kept_paths hashes_differ

abbrev refuses_none : Bytes → Bool
refuses_none p = false

abbrev refuses_all : Bytes → Bool
refuses_all p = true

abbrev walked : List Bytes
walked = meta_path (hashed kept_key) ∷ data_path (hashed kept_key) ∷ []

answered :
    IsAnswer sample_codec sample_store refuses_none 200
      (get sample_codec sample_store 200 stored kept_key)
unfolding get put bytes_eq get_from meta_path data_path
answered = tt

get-cleanup_example :
    get sample_codec sample_store 200
      (cleanup sample_store refuses_none 200 walked stored).0
      kept_key
    ≡ get sample_codec sample_store 200 stored kept_key
get-cleanup_example =
    get-cleanup sample_codec sample_store refuses_none 200 walked stored kept_key kept-IsHash
      answered

cleanup_over : (cleanup sample_store refuses_none 50 walked stored).1.over_max_bytes ≡ true
unfolding cleanup put bytes_eq data_path meta_path visit is_skipped ext last_index_byte base_name
    contains_byte expired
cleanup_over = refl

abbrev left_over : Fs
left_over = (cleanup sample_store refuses_all 200 walked stored).0

cleanup_report_example :
    All (IsSettled sample_store refuses_all 200 left_over) walked
    × ((cleanup sample_store refuses_all 200 walked stored).1.bytes
        ≡ total sample_store refuses_all 200 left_over walked)
    × ((cleanup sample_store refuses_all 200 walked stored).1.scanned
        ≡ (cleanup sample_store refuses_all 200 walked stored).1.removed
          + count sample_store refuses_all 200 left_over walked)
    × ((cleanup sample_store refuses_all 200 walked stored).1.expired_removed
        ≡ (cleanup sample_store refuses_all 200 walked stored).1.removed)
    × ((cleanup sample_store refuses_all 200 walked stored).1.over_max_bytes ≡ (
        ltb_ℤ (pos 0) (pos 2)
        && ltb_ℤ (pos 2) (pos (total sample_store refuses_all 200 left_over walked))))
cleanup_report_example = cleanup_report sample_store refuses_all 200 walked stored
