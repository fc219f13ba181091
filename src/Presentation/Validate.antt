-- ===== src/Presentation/Validate.antt =====
-- internal/iiif/presentation/v3/validate/validate.go, with the names of types/types.go. The JSON
-- decoder, `url.Parse` and the schemas of libops/iiif-spec are parameters.
use triplet.Common.{
  Bool, ◌&&◌, ◌||◌, not, Option, none, some, Result, ok, err, ◌>>=◌, [], ◌++◌, if◌then◌else◌,
}
use triplet.Text.{Bytes, codes, bytes_eq, trim_space}

pub record Resource : Type 0 where
  pub id : Bytes
  pub type_name : Bytes

-- The text of an error.
abbrev pub Message : Type 0
Message = Bytes

pub record ParsedUrl : Type 0 where
  pub scheme : Bytes
  pub host : Bytes

-- `json.Unmarshal` into a `Resource`, `url.Parse`, and the schema validators, which answer with the
-- message of their error; `quote` is the verb `%q`.
pub record Schemas : Type 0 where
  pub unmarshal : Bytes → Result Message Resource
  pub parse_url : Bytes → Result Message ParsedUrl
  pub manifest : Bytes → Option Message
  pub canvas : Bytes → Option Message
  pub annotation_page : Bytes → Option Message
  pub annotation : Bytes → Option Message
  pub range : Bytes → Option Message
  pub extensible : Bytes → Option Message
  pub quote : Bytes → Bytes

unfoldable pub checked : Option Message → Resource → Result Message Resource
checked none resource = ok resource
checked (some message) resource = err message

module _ (schemas : Schemas) where
  unfoldable pub is_http_url : ParsedUrl → Bool
  is_http_url parsed =
      (bytes_eq parsed.scheme (codes "http") || bytes_eq parsed.scheme (codes "https"))
      && not (bytes_eq parsed.host [])

  -- `validateHTTPID`.
  unfoldable pub validate_http_id : Bytes → Result Message (Unit {0})
  unfolding is_http_url
  validate_http_id id = schemas.parse_url id >>= λ parsed.
      if is_http_url parsed
      then ok tt
      else err (codes "presentation resource id must be an absolute http(s) URL")

  unfoldable pub require_id : Resource → Result Message (Unit {0})
  require_id resource =
      if bytes_eq (trim_space resource.id) []
      then err (codes "presentation resource id is required")
      else ok tt

  -- The switch on the type.
  unfoldable pub validate_type : Bytes → Resource → Result Message Resource
  unfolding checked
  validate_type body resource =
      let t = resource.type_name in
      if bytes_eq t (codes "Manifest")
      then checked (schemas.manifest body) resource
      else if bytes_eq t (codes "Canvas")
      then checked (schemas.canvas body) resource
      else if bytes_eq t (codes "AnnotationPage")
      then checked (schemas.annotation_page body) resource
      else if bytes_eq t (codes "Annotation")
      then checked (schemas.annotation body) resource
      else if bytes_eq t (codes "Range")
      then checked (schemas.range body) resource
      else if bytes_eq t (codes "Collection") || bytes_eq t (codes "AnnotationCollection")
      then checked (schemas.extensible body) resource
      else if bytes_eq t []
      then err (codes "presentation resource type is required")
      else err (codes "presentation resource type " ++ schemas.quote t ++ codes " is not supported")

  -- `ValidateResourceBytes`.
  unfoldable pub validate_resource_bytes : Bytes → Result Message Resource
  unfolding validate_http_id require_id validate_type
  validate_resource_bytes body = do
    resource ← schemas.unmarshal body
    _ ← require_id resource
    _ ← validate_http_id resource.id
    validate_type body resource
