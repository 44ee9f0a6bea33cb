-- ===== src/Geopublish/Status.antt =====
-- app/geopublish/geopublish.go: Status, what a client is told of its upload.
use odysee_api.Base.{ℕ, String, Option, none, some, ◌==◌, if◌then◌else◌, ℤ, Dict, lookup}
use odysee_api.Errors.{Error, sentinel, wrapped, no_rows, Result, ok, err, err_text, is}
use odysee_api.Rpc.{Response, to_json}
use odysee_api.Geopublish.Table.{Upload, PublishQuery, query_failed, succeeded, World, Faults, get}

-- The body of a reply: nothing, JSON that is stored, or the JSON of an RPC response.
pub data Body : Type 0 where
  empty : Body
  stored : String → Body
  rpc_response : Response → Body

pub record Reply : Type 0 where
  pub status : ℕ
  pub body : Body

abbrev pub reply : ℕ → Reply
reply status = record { status = status; body = empty }

-- rpcerrors.Write with no status written before it
abbrev pub rpc_error : Error → Reply
rpc_error e = record { status = 200; body = rpc_response (to_json e) }

abbrev pub json_body : Option String → Body
json_body none = empty
json_body (some s) = stored s

-- errors.Err takes the stored text for a format; `errorf` is the text that fmt.Errorf makes of a
-- format without arguments.
abbrev pub failure_of : (String → String) → Option String → String → Reply
failure_of errorf none e = reply 200
failure_of errorf (some response) e = rpc_error (err_text (errorf e))

abbrev pub show_query : (String → String) → PublishQuery → Reply
show_query errorf q = elim q.status [
  | succeeded ↦ record { status = 200; body = json_body q.response }
  | query_failed ↦ failure_of errorf q.response q.error
  | _ ↦ reply 202
]

abbrev pub not_found : Error → Reply
not_found e = record {
  status = 404;
  body = rpc_response (to_json (wrapped "error getting publish query: " e));
}

abbrev pub show_found :
    (String → String) → Faults → String → Dict PublishQuery → Result Upload → Reply
show_found errorf faults id queries (err e) = if is e no_rows then reply 404 else rpc_error e
show_found errorf faults id queries (ok u) = elim faults.select_query [
  | some e ↦ not_found e
  | none ↦ elim (lookup id queries) [
    | none ↦ not_found (sentinel no_rows)
    | some q ↦ show_query errorf q
  ]
]

abbrev pub show_to : {W : Type 0} → (String → String) → Faults → String → World W → Result ℤ → Reply
show_to errorf faults id w (err e) = reply 403
show_to errorf faults id w (ok user) =
    show_found errorf faults id w.queries (get faults.select id user w.uploads)

-- Status, for the id in the path and the id of the user of the request
unfoldable pub status :
    {W : Type 0} → (String → String) → Faults → String → Result ℤ → World W → Reply
unfolding get
status errorf faults id user w = if id == "" then reply 404 else show_to errorf faults id w user
