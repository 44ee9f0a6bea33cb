-- ===== src/AsyncQuery/Http.antt =====
-- app/asynquery/http_handlers.go: the handlers of uploads and queries. A ResponseWriter keeps its
-- first status, 200 where something is written before one is set, as net/http does.
use odysee_api.Base.{
  ℕ, String, Bool, false, Option, none, some, List, [], ◌∷◌, ◌++◌, ◌==◌, if◌then◌else◌, ℤ, any,
}
use odysee_api.Errors.{
  Error, Result, ok, err, message, is, no_rows, err_text, Exit, returned, panicked,
}
use odysee_api.Rpc.{
  Request, Response, to_json, new_json_parse_error, new_method_not_allowed_error,
  new_internal_error,
}
use odysee_api.Query.{method_stream_create, method_stream_update}
use odysee_api.AsyncQuery.{
  Asynquery, Codec, Faults, World, Status, received, preparing, forwarded, failed, succeeded, call,
  get_query_record,
}

-- What a handler writes.
pub data Body : Type 0 where
  -- the Response with StatusAuthError, and the error's text
  auth_error : String → Body
  -- StatusUploadTokenCreated, with the token and the location
  token_created : String → String → Body
  -- StatusQueryCreated, with the query's id
  query_created : String → Body
  -- rpcerrors.Write
  rpc_error : Response → Body
  -- http.Error
  plain_error : String → Body
  -- the stored response of a query
  stored : String → Body

pub record Writer : Type 0 where
  pub status : Option ℕ
  pub bodies : List Body

abbrev pub fresh : Writer
fresh = record { status = none; bodies = [] }

abbrev pub write_header : ℕ → Writer → Writer
write_header n w = elim w.status [ none ↦ record w { status = some n } | some m ↦ w ]

abbrev pub write : Body → Writer → Writer
write b w = record (write_header 200 w) { bodies = w.bodies ++ (b ∷ []) }

abbrev pub http_error : String → ℕ → Writer → Writer
http_error m n w = write (plain_error m) (write_header n w)

-- The user of the request, whom the authentication may leave out, or its error.
abbrev pub Auth : Type 0
Auth = Result (Option ℤ)

abbrev uploads_type : Option String → String
uploads_type none = "uploads"
uploads_type (some t) = t

abbrev with_token : Option Error → String → Result String → Writer → Writer
with_token unwritable location (err e) w = http_error (message e) 500 w
with_token (some e) location (ok token) w = http_error (message e) 500 w
with_token none location (ok token) w = write (token_created token location) w

-- CreateUpload: `unwritable` is an error of json.Marshal, and `token` is what GenerateToken gives
-- for the user's id; a user that is nil panics.
unfoldable pub create_upload :
    Option Error
    → (String → String → String)
    → String
    → (ℤ → Result String)
    → Option String
    → Auth
    → Option Writer
create_upload unwritable join url token kind (err e) = elim unwritable [
  | some x ↦ some (http_error (message e) 500 fresh)
  | none ↦ some (write_header 401 (write (auth_error (message e)) fresh))
]
create_upload unwritable join url token kind (ok none) = none
create_upload unwritable join url token kind (ok (some user)) =
    some (with_token unwritable (join url (uploads_type kind)) (token user) fresh)

-- allowedSDKMethods
abbrev pub allowed_sdk_methods : List String
allowed_sdk_methods = method_stream_create ∷ method_stream_update ∷ []

-- isMethodAllowed
abbrev pub is_method_allowed : String → Bool
is_method_allowed m = any (λ x. x == m) allowed_sdk_methods

module _ {W : Type 0} (codec : Codec) (faults : Faults) (taken : Error) (now : ℕ) where
  abbrev pub created : Exit Asynquery × World W → Option Writer × World W
  created (panicked, w) = (none, w)
  created (returned (err e), w) =
      (some (write (rpc_error (to_json (new_internal_error e))) fresh), w)
  created (returned (ok aq), w) = (some (write (query_created aq.id) (write_header 201 fresh)), w)

  -- A user that is nil panics.
  abbrev pub create_for_user : Option Error → Option ℤ → Request → World W → Option Writer × World W
  create_for_user send none req w = (none, w)
  create_for_user send (some user) req w = created (call codec faults taken now send user req w)

  -- The JSON text `null` decodes to a nil request, which panics.
  abbrev pub create_decoded :
      Option Error → Option ℤ → World W → Result (Option Request) → Option Writer × World W
  create_decoded send user w (err e) =
      (some (write (rpc_error (to_json (new_json_parse_error e))) fresh), w)
  create_decoded send user w (ok none) = (none, w)
  create_decoded send user w (ok (some req)) =
      if is_method_allowed req.method then create_for_user send user req w else (
        some (
            write (rpc_error (to_json (new_method_not_allowed_error (err_text "forbidden method"))))
              fresh),
        w,
      )

  -- CreateQuery, on what the body of the request decodes to.
  unfoldable pub create_query :
      Option Error → Auth → Result (Option Request) → World W → Option Writer × World W
  create_query send (err e) body w =
      (some (write (auth_error (message e)) (write_header 401 fresh)), w)
  create_query send (ok user) body w = create_decoded send user w body

abbrev failed_body : Asynquery → Option String → Body
failed_body aq (some response) = stored response
failed_body aq none = rpc_error (to_json (err_text aq.error))

-- The answer for a query; one without a response has an empty body.
abbrev pub show_query : Asynquery → Status → Writer
show_query aq succeeded = elim aq.response [
  | some response ↦ write (stored response) (write_header 200 fresh)
  | none ↦ write_header 200 fresh
]
show_query aq failed = write (failed_body aq aq.response) (write_header 200 fresh)
show_query aq received = write_header 204 fresh
show_query aq preparing = write_header 204 fresh
show_query aq forwarded = write_header 204 fresh

abbrev pub show_found : Result Asynquery → Writer
show_found (ok aq) = show_query aq aq.status
show_found (err e) =
    if is e no_rows then write_header 404 fresh else write (rpc_error (to_json e)) fresh

-- Get
unfoldable pub get : Option Error → Option String → Auth → List Asynquery → Option Writer
get fault none auth rows = some (write_header 404 fresh)
get fault (some i) (err e) rows = some (write_header 401 fresh)
get fault (some i) (ok none) rows = none
get fault (some i) (ok (some user)) rows = some (
    show_found (
      get_query_record fault
        (record { query_id = i; upload_id = ""; user_id = user; ready_to_run = false }) rows))
