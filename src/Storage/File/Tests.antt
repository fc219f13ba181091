-- ===== src/Storage/File/Tests.antt =====
-- A root "/r" that is a link to "/s", and a file in it.
use triplet.Common.{◌≡◌, refl, ok, err, if◌then◌else◌}
use triplet.Text.{Bytes, codes, bytes_eq, split, join, has_prefix, contains_byte}
use triplet.Filepath.{join_path, resolve, enter, clean, rel, escapes}
use triplet.Filepath.Contained.{Under}
use triplet.Storage.{Meta, OpenError}
use triplet.Storage.File.{FileOpener, System, safe_join, open_identifier}
use triplet.Storage.File.Contained.{IsResolved, safe_join-Under, open_identifier-Under}

abbrev sample_system : System
sample_system = record {
  eval_symlinks = λ path. ok (if bytes_eq path (codes "/r") then codes "/s" else codes "/s/a");
  stat = λ path. ok (record { size = 1; mod_time = 7 });
  open_file = λ path. ok (codes "x");
  type_of_path = λ path. codes "image/png";
  sha256_hex = λ text. text;
}

abbrev sample_root : FileOpener
sample_root = record { root = codes "/r" }

inside : safe_join (codes "/r") (codes "b/../a") ≡ ok (codes "/r/a")
unfolding safe_join bytes_eq split resolve enter contains_byte has_prefix escapes rel clean join
    join_path
inside = refl

outside : safe_join (codes "/r") (codes "../ra") ≡ err OpenError.not_found
unfolding safe_join bytes_eq split resolve enter contains_byte has_prefix escapes rel clean join
    join_path
outside = refl

safe_join-Under_example : Under (codes "/r") (codes "/r/a")
safe_join-Under_example = safe_join-Under (codes "/r") (codes "b/../a") inside

abbrev sample_meta : Meta
sample_meta = record {
  content_type = codes "image/png";
  size = 1;
  mod_time = 7;
  version = codes "file:/s/a:1:7";
}

opened_sample : open_identifier sample_system sample_root (codes "a") ≡ ok (codes "x", sample_meta)
unfolding open_identifier bytes_eq contains_byte has_prefix escapes rel resolve split enter clean
    join join_path
opened_sample = refl

open_identifier-Under_example :
    (path : Bytes) × (sample_system.open_file path ≡ ok (codes "x"))
    × IsResolved sample_system sample_root (codes "a") path
open_identifier-Under_example =
    open_identifier-Under sample_system sample_root (codes "a") opened_sample
