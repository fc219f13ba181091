-- ===== src/Storage/Http/Reader/Tests.antt =====
-- A server with a document of one byte, and redirects.
use triplet.Common.{
  zero, suc, ◌≡◌, refl, ◌⊎◌, true, false, [], ◌∷◌, Option, some, arith, if◌then◌else◌,
}
use triplet.Common.Int.{pos}
use triplet.Text.{itoa, lower, trim_space, Bytes, codes, bytes_eq}
use triplet.Http.{Header}
use triplet.Storage.Http.{
  Url, Answer, HttpOpener, Redirect, check_redirect, origin_allowed, is_http, url_origin,
}
use triplet.Storage.Http.Redirects.{check_redirect-IsBare, IsBare}
use triplet.Storage.Http.Reader.{Whence}
use triplet.Storage.Http.Reader.Same.{
  run-Same, Serves, read, seek, run_range, run_bytes, reader_at, bytes_at,
}

abbrev document : Bytes
document = codes "x"

abbrev sample_answer : Answer
sample_answer = record {
  status = 206;
  header = λ name. if bytes_eq name (codes "Content-Range") then codes "bytes 0-0/1" ∷ [] else [];
  body = document;
  content_length = pos 1;
}

abbrev sample_server : Bytes → Option Answer
sample_server range = some sample_answer

sample-Serves : Serves sample_server document
unfolding bytes_eq itoa
sample-Serves zero zero o i =
    (sample_answer, refl, record { partial = refl; named = refl; sent = refl })
sample-Serves (suc s) zero o i = absurd (omega arith)
sample-Serves s (suc e) o i = absurd (omega arith)

run-Same_example :
    run_range sample_server
      (reader_at 1 0)
      (read 2 ∷ seek (pos 0) Whence.from_start ∷ read 1 ∷ read 1 ∷ [])
    ≡ run_bytes
        (bytes_at document 0)
        (read 2 ∷ seek (pos 0) Whence.from_start ∷ read 1 ∷ read 1 ∷ [])
run-Same_example =
    run-Same sample_server document (omega arith) sample-Serves
      (read 2 ∷ seek (pos 0) Whence.from_start ∷ read 1 ∷ read 1 ∷ []) 0
      (omega arith, (tt, (omega arith, (omega arith, tt))))

abbrev first_url : Url
first_url = record {
  scheme = codes "https";
  host = codes "a.b";
  has_user = false;
  text = codes "https://a.b/x";
}

abbrev other_url : Url
other_url = record {
  scheme = codes "https";
  host = codes "c.d";
  has_user = false;
  text = codes "https://c.d/x";
}

abbrev sample_opener : HttpOpener
sample_opener = record {
  allowed_origins = codes "https://a.b" ∷ codes " HTTPS://C.D " ∷ [];
  max_bytes = pos 0;
  user_agent = codes "u";
  forward_auth_headers = true;
}

abbrev credentials : Header
credentials name = if bytes_eq name (codes "Cookie") then codes "c" ∷ [] else []

abbrev stripped : Header
stripped name =
    if bytes_eq name (codes "Cookie")
    then []
    else if bytes_eq name (codes "Authorization")
    then []
    else credentials name

redirected :
    check_redirect sample_opener other_url credentials (first_url ∷ []) ≡ Redirect.follow stripped
unfolding check_redirect bytes_eq trim_space lower
redirected = refl

check_redirect-IsBare_example :
    (is_http other_url ≡ true)
    × (origin_allowed sample_opener other_url ≡ true)
    × ((url_origin other_url ≡ url_origin first_url) ⊎ IsBare stripped)
check_redirect-IsBare_example =
    check_redirect-IsBare sample_opener other_url first_url credentials stripped [] redirected
