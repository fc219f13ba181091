-- ===== src/Handler/Serve/Tests.antt =====
-- A handler with a source of one image, a cache of one entry, and networks of one address.
use triplet.Common.{
  ℕ, suc, ◌≡◌, refl, ◌⊎◌, true, Option, some, none, Result, ok, err, [], ◌∷◌, arith, length,
  if◌then◌else◌,
}
use triplet.Common.Int.{pos}
use triplet.Text.{Bytes, codes, bytes_eq, trim_prefix, path_unescape, contains_any}
use triplet.Http
use triplet.Http.{Header, no_header, Message}
use triplet.Floats.Sample.{Sample, sample_ops}
use triplet.Parse.Tests.{thumbnail}
use triplet.FileStore.{Entry, GetError}
use triplet.Storage.{Meta}
use triplet.Storage.Caching.{Store}
use triplet.Handler.Derivatives.{versioned_key}
use triplet.Handler.Clients.{cache_invalidation_identifier}
use triplet.Handler.Images.{Handler, Codec, State, Derivative}
use triplet.Handler.Serve.{serve_http}
use triplet.Handler.Derivation.{serve_image}
use triplet.Handler.Invalidated.{IsAllowed, serve_http-IsAllowed}
use triplet.Handler.Bounds.{IsBounded, serve_http-IsBounded}
use triplet.Handler.Hits.{no_faults}

abbrev Slot : Type 0
Slot = Option (Bytes × (Bytes × Entry))

abbrev slot_get : Slot → ℕ → Bytes → Result GetError (Bytes × Entry)
slot_get none now key = err GetError.miss
slot_get (some (k, found)) now key = if bytes_eq k key then ok found else err GetError.miss

abbrev slot : Store Slot
slot = record {
  get = slot_get;
  put = λ st now key t v.
      (some (key, (v, record { content_type = t; size = length v; stored_at = now })), true);
  seekable = true;
}

abbrev image_meta : Meta
image_meta = record { content_type = []; size = 3; mod_time = 0; version = codes "v" }

abbrev made_image : Derivative
made_image = record { content_type = []; body = codes "png" }

abbrev codec : Codec Sample
codec = record {
  floats = sample_ops;
  sha256_hex = λ b. b;
  error_json = λ b. b;
  info_json = λ info. info.id;
  redirect = λ r header url. record { status = 303; header = header; body = [] };
  unix_nano = λ n. [];
  time_text = λ n. codes "t";
  syntax_text = λ e. codes "invalid";
  unescape_text = λ raw. codes "invalid";
}

abbrev handler : Bytes → Handler Sample ℕ Slot Bytes Bytes
handler token = record {
  prefix = codes "/i";
  public_base_url = codes "http://h";
  src = record {
    open_source =
        λ w identifier. (suc w, ok (record { bytes = codes "src"; has_name = true }, image_meta));
    read_meta = some (λ w identifier. (suc w, ok image_meta));
  };
  transform = λ w req. (w, ok made_image);
  load = λ b. ok (30, 20);
  geometry_text = λ dims e. codes "invalid";
  derivative_cache = slot;
  cors = record { allowed_origins = []; expose_headers = [] };
  invalidation_token = token;
  invalidation_networks = codes "1" ∷ [];
  trusted_proxies = [];
  net = record { parse_ip = some; split_host = λ b. none; contains_ip = bytes_eq };
  info_cache_enabled = true;
  info_limits = record { max_area = pos 0; max_width = pos 0; max_height = pos 0 };
  max_source_pixels = pos 0;
  max_source_bytes = pos 0;
  invalidate_auth = none;
}

abbrev request_of : Bytes → Bytes → Header → Http.Request
request_of verb path header = record {
  method = verb;
  escaped_path = path;
  path = path;
  raw_query = [];
  header = header;
  remote_addr = codes "1";
  body = [];
}

abbrev start : State ℕ Slot
start = record { world = 0; stored = none; info_cache = [] }

abbrev get_image : Http.Request
get_image = request_of (codes "GET") (codes "/i/a/full/max/0/default.png") no_header

abbrev image_key : Bytes
image_key = (versioned_key sample_ops (λ n. []) thumbnail image_meta).0

abbrev first : State ℕ Slot × Http.Response
first = serve_image codec (handler []) no_faults start 5 get_image no_header thumbnail

abbrev second : State ℕ Slot × Http.Response
second = serve_image codec (handler []) no_faults first.0 9 get_image no_header thumbnail

abbrev get_info : Http.Request
get_info = request_of (codes "GET") (codes "/i/a/info.json") no_header

serve_http-IsBounded_example :
    IsBounded (serve_http codec (handler []) no_faults start 5 get_info).0.info_cache
serve_http-IsBounded_example =
    serve_http-IsBounded codec (handler []) no_faults 5 get_info start (omega arith)

abbrev with_token : Header
with_token name = if bytes_eq name (codes "Authorization") then codes "Bearer k" ∷ [] else []

abbrev post_invalidate : Http.Request
post_invalidate = request_of (codes "POST") (codes "/i/a/cache/invalidate") with_token

abbrev asked_a : Result Message Bytes
asked_a = ok (codes "a")

invalidate_a :
    cache_invalidation_identifier codec.unescape_text (codes "/i") (codes "/i/a/cache/invalidate")
    ≡ some asked_a
unfolding cache_invalidation_identifier bytes_eq trim_prefix path_unescape contains_any
invalidate_a = refl

serve_http-IsAllowed_example :
    let after = (serve_http codec (handler (codes "k")) no_faults start 5 post_invalidate).0 in
    (after ≡ start)
    ⊎ ((identifier : Bytes) × (asked_a ≡ ok identifier)
        × IsAllowed codec (handler (codes "k")) start 5 post_invalidate identifier after)
serve_http-IsAllowed_example =
    serve_http-IsAllowed codec (handler (codes "k")) no_faults start 5 post_invalidate asked_a
      invalidate_a
