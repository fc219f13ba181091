-- ===== src/Presentation/Handler/Tests.antt =====
-- A document written with a token and read again.
use triplet.Common.{
  ◌≡◌, refl, ◌⊎◌, inl, true, false, [], ◌∷◌, ◌++◌, none, some, ok, arith, if◌then◌else◌,
}
use triplet.Text.{
  Bytes, codes, bytes_eq, contains, contains_any, split, join, trim_space, trim_prefix, has_prefix,
  lower, path_escape,
}
use triplet.Text.Escape.{AreBytes}
use triplet.Http.{Header, Request}
use triplet.Presentation.Store.{valid_resource_key, put_precondition_matches}
use triplet.Presentation.Store.Abstract.{Documents, map_store, map_get-put, map_put}
use triplet.Presentation.Validate.{Schemas, validate_resource_bytes}
use triplet.Presentation.Handler.{
  supported_content_type, Handler, Codec, request_resource, all_plain, canonical_key,
  put_preconditions, authorized_write,
}
use triplet.Presentation.Handler.Serve.{serve_http}
use triplet.Presentation.Handler.Writes.{serve_http-IsWrite, IsWrite}
use triplet.Presentation.Handler.Canonical.{
  request_resource-IsCanonical, request_resource_injective, rest_of,
}
use triplet.Presentation.Handler.Served.{get-after_put, IsDone}

abbrev sample_id : Bytes
sample_id = codes "http://h/p/a"

-- Every body is a manifest with the one id.
abbrev sample_schemas : Schemas
sample_schemas = record {
  unmarshal = λ body. ok (record { id = sample_id; type_name = codes "Manifest" });
  parse_url = λ url. ok (record { scheme = codes "http"; host = codes "h" });
  manifest = λ body. none;
  canvas = λ body. none;
  annotation_page = λ body. none;
  annotation = λ body. none;
  range = λ body. none;
  extensible = λ body. none;
  quote = λ text. text;
}

abbrev sample_codec : Codec
sample_codec = record {
  sha256_hex = λ text. text;
  error_json = λ message. message;
  media_type = λ value. some value;
  valid_utf8 = λ text. true;
  format_time = λ t. [];
  parse_time = λ text. none;
  escape_path = λ path. path;
  schemas = sample_schemas;
}

abbrev sample_handler : Handler
sample_handler = record {
  prefix = codes "/p";
  public_base_url = codes "http://h";
  cors = record { allowed_origins = []; expose_headers = [] };
  write_enabled = true;
  write_token = codes "t";
}

abbrev put_header : Header
put_header name =
    if bytes_eq name (codes "Authorization")
    then codes "Bearer t" ∷ []
    else if bytes_eq name (codes "Content-Type")
    then codes "application/json" ∷ []
    else if bytes_eq name (codes "If-None-Match")
    then codes "*" ∷ []
    else []

abbrev sample_request : Bytes → Header → Bytes → Request
sample_request method header body = record {
  method = method;
  escaped_path = codes "/p/a";
  path = codes "/p/a";
  raw_query = [];
  header = header;
  remote_addr = [];
  body = body;
}

abbrev put_request : Request
put_request = sample_request (codes "PUT") put_header (codes "x")

abbrev get_request : Request
get_request = sample_request (codes "GET") (λ name. []) []

abbrev no_documents : Documents
no_documents key = none

abbrev after_put : Documents
after_put =
    (serve_http sample_codec sample_handler (map_store (λ text. text)) false no_documents 5
      put_request).0

sample_resource :
    (method : Bytes) (header : Header) (body : Bytes)
    → request_resource sample_codec sample_handler (sample_request method header body)
      ≡ ok (codes "a", sample_id)
unfolding request_resource bytes_eq has_prefix trim_prefix contains lower split contains_any join
    path_escape
sample_resource method header body = refl

put-IsDone :
    IsDone sample_codec sample_handler
      (map_store (λ text. text))
      (serve_http sample_codec sample_handler
        (map_store (λ text. text))
        false
        no_documents
        5
        put_request).1
unfolding serve_http bytes_eq has_prefix trim_prefix contains lower split contains_any join
    path_escape authorized_write supported_content_type put_preconditions validate_resource_bytes
    map_put valid_resource_key put_precondition_matches
put-IsDone = inl refl

get-after_put_example :
    let answer =
      (serve_http sample_codec sample_handler
        (map_store (λ text. text))
        false
        after_put
        9
        get_request).1 in
    (answer.status ≡ 200) × (answer.body ≡ codes "x")
unfolding trim_space
get-after_put_example =
    get-after_put sample_codec sample_handler (map_store (λ text. text))
      (map_get-put (λ text. text)) false false no_documents 5 9 put_request get_request refl refl
      (sample_resource _ _ _) (sample_resource _ _ _) refl refl put-IsDone

serve_http-IsWrite_example :
    (after_put ≡ no_documents)
    ⊎ IsWrite sample_codec sample_handler
        (map_store (λ text. text))
        false
        no_documents
        5
        put_request
        after_put
serve_http-IsWrite_example =
    serve_http-IsWrite sample_codec sample_handler (map_store (λ text. text)) false no_documents 5
      put_request

sample-AreBytes : AreBytes (codes "/p/a")
sample-AreBytes = ground arith

request_resource-IsCanonical_example :
    let a : Bytes = codes "a" in
    (a ≡ canonical_key (split (rest_of sample_codec sample_handler get_request) b'/'))
    × (all_plain sample_codec (split (rest_of sample_codec sample_handler get_request) b'/') ≡ true)
    × (sample_id ≡ codes "http://h" ++ codes "/p" ++ b'/' ∷ a)
    × (valid_resource_key a ≡ true)
request_resource-IsCanonical_example =
    request_resource-IsCanonical sample_codec sample_handler get_request sample-AreBytes
      (sample_resource _ _ _)

request_resource_injective_example :
    rest_of sample_codec sample_handler get_request
    ≡ rest_of sample_codec sample_handler put_request
request_resource_injective_example =
    request_resource_injective sample_codec sample_handler get_request put_request sample-AreBytes
      sample-AreBytes (sample_resource _ _ _) (sample_resource _ _ _) refl
