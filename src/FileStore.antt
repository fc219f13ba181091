-- ===== src/FileStore.antt =====
-- internal/cache/file.go: cache entries as files under a root directory, and cache.go's `Noop`.
-- A path is relative to the root. The lock makes `installWithMeta` and `Cleanup` exclusive, so each
-- is one step here. SHA-256 and the JSON codec of the metadata are parameters.
pub mod Files
pub mod Paths
pub mod Put
pub mod Cleanup
pub mod PutLaws
pub mod CleanupLaws
pub mod Report
pub mod Tests
use triplet.Common.{
  ℕ, ◌-◌, ◌<◌, Bool, true, false, ◌&&◌, not, Option, none, some, Result, ok, err, [], ltb, leb,
  ◌==◌, if◌then◌else◌, length,
}
use triplet.Common.Int.{ℤ, pos, ltb_ℤ}
use triplet.Text.{Bytes, codes, max_int64}
use Files.{Fs, File}
use Paths.{data_path, meta_path}

-- The configuration of a `FileStore`; an age or a size that is not positive is no bound.
pub record FileStore : Type 0 where
  pub store_content_type : Bool
  pub max_bytes : ℤ
  pub max_age : ℤ

-- `Entry`, with the time in nanoseconds; 0 is Go's zero time.
pub record Entry : Type 0 where
  pub content_type : Bytes
  pub size : ℕ
  pub stored_at : ℕ

pub data GetError : Type 0 where
  miss io bad_meta : GetError

-- `now.Sub(then)` where `now` is later: a duration stops at the largest int64.
abbrev pub since : ℕ → ℕ → ℕ
since now then_ = if ltb max_int64 (now - then_) then max_int64 else now - then_

unfoldable pub expired : FileStore → ℕ → ℕ → Bool
expired s stored_at now =
    ltb_ℤ (pos 0) s.max_age && not (stored_at == 0) && ltb_ℤ s.max_age (pos (since now stored_at))

-- What the code relies on of SHA-256 in hex and of the JSON metadata.
pub record Codec : Type 0 where
  pub hex : Bytes → Bytes
  pub encode : Bytes → Bytes
  pub decode : Bytes → Option Bytes

module _ (c : Codec) where
  -- `os.ReadFile(metaPath)` and `json.Unmarshal`.
  unfoldable pub read_meta : Option File → Result GetError Bytes
  read_meta none = err GetError.miss
  read_meta (some f) =
      if f.readable
      then elim (c.decode f.content) [ none ↦ err GetError.bad_meta | some t ↦ ok t ]
      else err GetError.io

  -- `os.Open(dataPath)`, `Stat` and the age.
  unfoldable pub open_data : FileStore → ℕ → Bytes → Option File → Result GetError (Bytes × Entry)
  unfolding expired
  open_data s now content_type none = err GetError.miss
  open_data s now content_type (some f) =
      if f.readable
      then (if expired s f.mod_time now
          then err GetError.miss
          else ok (
            f.content,
            record { content_type = content_type; size = length f.content; stored_at = f.mod_time },
          ))
      else err GetError.io

  -- `Get` as a function of the two files that it reads.
  unfoldable pub get_from :
      FileStore → ℕ → (meta payload : Option File) → Result GetError (Bytes × Entry)
  unfolding read_meta open_data
  get_from s now meta payload =
      if s.store_content_type
      then elim (read_meta meta) [ err e ↦ err e | ok t ↦ open_data s now t payload ]
      else open_data s now [] payload

  unfoldable pub get : FileStore → ℕ → Fs → Bytes → Result GetError (Bytes × Entry)
  get s now fs key = get_from s now (fs (meta_path (c.hex key))) (fs (data_path (c.hex key)))

-- `Noop`.
unfoldable pub noop_get : Bytes → Result GetError (Bytes × Entry)
noop_get key = err GetError.miss
