-- ===== src/Storage.antt =====
-- internal/storage: what a source answers, and the wrappers that route and remember. The bytes of a
-- reader, and the state that a backend keeps, are types of their own; `read_meta` is there where the
-- backend is a `MetaReader`.
pub mod MetaCache
pub mod File
pub mod Http
pub mod Multiplex
pub mod Caching
pub mod Tests
use triplet.Common.{ℕ, Option, Result}
use triplet.Text.{Bytes}

-- `ErrNotFound`, `ErrForbidden` and the rest.
pub data OpenError : Type 0 where
  not_found forbidden failed meta_unavailable : OpenError

pub record Meta : Type 0 where
  pub content_type : Bytes
  pub size : ℕ
  pub mod_time : ℕ
  pub version : Bytes

-- `Opener`, with `MetaReader` where it is one.
pub record Opener (World Body : Type 0) : Type 0 where
  pub open_source : World → Bytes → World × Result OpenError (Body × Meta)
  pub read_meta : Option (World → Bytes → World × Result OpenError Meta)
