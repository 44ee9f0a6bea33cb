-- ===== src/Uploads/Payload.antt =====
-- apps/uploads/payload.go: the body of PostURL, its Bind, and the answers of the service.
use Prim.Native.String.{◌++◌}
use odysee_api.Base.{ℕ, String, ◌||◌, Option, none, some, ◌==◌, if◌then◌else◌, ltb}
use odysee_api.Errors.{Error, plain, wrapped, Result, ok, err, message}

-- URLPayload, once it is bound
pub record UrlPayload : Type 0 where
  pub url : String
  pub filename : String
  pub upload_id : String

-- Response
pub record Reply : Type 0 where
  pub http_status : ℕ
  pub status : String
  pub error : String
  pub upload_id : Option String

abbrev pub invalid_request : Error → Reply
invalid_request e = record {
  http_status = 400;
  status = "input_error";
  error = "invalid request: " ++ message e;
  upload_id = none;
}

abbrev pub internal_error : Error → Reply
internal_error e = record {
  http_status = 500;
  status = "internal_error";
  error = "internal error: " ++ message e;
  upload_id = none;
}

abbrev pub url_created : String → Reply
url_created id = record {
  http_status = 201;
  status = "url_created";
  error = "";
  upload_id = some id;
}

-- What Bind uses: the bytes of a text, the path of a URL (url.ParseRequestURI), path.Base and
-- crypto/rand.
pub record UrlTools : Type 0 where
  pub byte_length : String → ℕ
  pub parse_request_uri : String → Result String
  pub base : String → String
  pub random_id : Result String

module _ (tools : UrlTools) where
  abbrev with_id : String → String → Result String → Result UrlPayload
  with_id url name (err e) = err (wrapped "couldn't generate upload ID: " e)
  with_id url name (ok id) = ok (record { url = url; filename = name; upload_id = id })

  abbrev with_path : String → Result String → Result UrlPayload
  with_path url (err e) = err (wrapped "invalid URL: " e)
  with_path url (ok path) =
      let name = tools.base path in
      if name == "/" || name == "." || name == ""
      then err (plain "couldn't determine remote file name")
      else with_id url name tools.random_id

  -- URLPayload.Bind
  unfoldable pub bind : String → Result UrlPayload
  bind url =
      if ltb 2083 (tools.byte_length url)
      then err (plain "URL too long")
      else with_path url (tools.parse_request_uri url)
