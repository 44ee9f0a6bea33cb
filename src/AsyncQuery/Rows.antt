-- ===== src/AsyncQuery/Rows.antt =====
-- The rows of async queries (models.Asynquery) and the database's part of
-- app/asynquery/asynquery.go: a row's creation, its lookup and its final update.
use Prim.Native.String.{◌++◌}
use odysee_api.Base.{
  ℕ, String, Bool, false, ◌&&◌, ◌||◌, not, Option, none, some, List, [], ◌∷◌, ◌==◌, if◌then◌else◌,
  ℤ, pos, negsuc, eqb_ℤ, any, ltb,
}
use odysee_api.Base.Decimal.{decimal}
use odysee_api.Errors.{Error, sentinel, wrapped, no_rows, Result, ok, err}
use odysee_api.Rpc.{Request, Response}

pub data Status : Type 0 where
  received preparing forwarded failed succeeded : Status

-- tasks.UploadMeta
pub record UploadMeta : Type 0 where
  pub size : ℕ
  pub file_name : String
  pub sd_hash : String
  pub mime : String
  pub extension : String
  pub hash : String
  pub duration : ℤ
  pub width : ℤ
  pub height : ℤ

-- The times are left out: a table lists its rows from the newest.
pub record Asynquery : Type 0 where
  pub id : String
  pub user_id : ℤ
  pub status : Status
  pub error : String
  pub upload_id : String
  pub body : String
  pub response : Option String
  pub ready_to_run : Bool
  pub file_ready : Bool
  pub file_meta : Option String

-- queryParams
pub record QueryParams : Type 0 where
  pub query_id : String
  pub upload_id : String
  pub user_id : ℤ
  pub ready_to_run : Bool

-- The JSON library on what is stored in a row, and MD5 in hexadecimal digits.
pub record Codec : Type 0 where
  pub marshal_request : Request → Result String
  pub unmarshal_request : String → Option Request
  pub marshal_meta : UploadMeta → Result String
  pub unmarshal_meta : String → Result UploadMeta
  pub marshal_response : Option Response → Result (Option String)
  pub md5 : String → String

-- The errors that the database gives in one handler, where it gives one.
pub record Faults : Type 0 where
  pub begin : Option Error
  pub lock : Option Error
  pub lookup : Option Error
  pub insert : Option Error
  pub update : Option Error
  pub commit : Option Error
  pub final_lookup : Option Error
  pub final_update : Option Error

abbrev pub has_id : String → Asynquery → Bool
has_id i r = r.id == i

abbrev pub is_upload : String → ℤ → Asynquery → Bool
is_upload upload user r = r.upload_id == upload && eqb_ℤ r.user_id user

-- The newest row that passes a test.
unfoldable pub newest : (Asynquery → Bool) → List Asynquery → Option Asynquery
newest test [] = none
newest test (r ∷ rs) = if test r then some r else newest test rs

-- An update of the row with the same id.
unfoldable pub save : Asynquery → List Asynquery → List Asynquery
save a [] = []
save a (r ∷ rs) = let rest = save a rs in if r.id == a.id then a ∷ rs else r ∷ rest

-- Insert: an id that a row has is refused with an error of the database's, `taken`.
abbrev insert_row : Option Error → Error → Asynquery → List Asynquery → Result (List Asynquery)
insert_row (some e) taken a rs = err e
insert_row none taken a rs = if any (has_id a.id) rs then err taken else ok (a ∷ rs)

abbrev pub new_row : Codec → ℕ → QueryParams → String → Asynquery
new_row codec now params body = record {
  id = codec.md5 body ++ decimal now;
  user_id = params.user_id;
  status = received;
  error = "";
  upload_id = params.upload_id;
  body = body;
  response = none;
  ready_to_run = params.ready_to_run;
  file_ready = false;
  file_meta = none;
}

abbrev pub insert_new :
    Option Error → Error → Asynquery → List Asynquery → Result (Asynquery × List Asynquery)
insert_new fault taken a rs = elim (insert_row fault taken a rs) [
  | err e ↦ err e
  | ok rows ↦ ok (a, rows)
]

-- createQueryRecord at a time in milliseconds
unfoldable pub create_query_record :
    Codec
    → Faults
    → Error
    → ℕ
    → QueryParams
    → Request
    → List Asynquery
    → Result (Asynquery × List Asynquery)
create_query_record codec faults taken now params req rows = elim (codec.marshal_request req) [
  | err e ↦ err (wrapped "error marshaling request: " e)
  | ok body ↦ insert_new faults.insert taken (new_row codec now params body) rows
]

abbrev is_positive : ℤ → Bool
is_positive (pos n) = ltb 0 n
is_positive (negsuc n) = false

abbrev pub matches : QueryParams → Asynquery → Bool
matches p r =
    (p.query_id == "" || r.id == p.query_id)
    && (p.upload_id == "" || r.upload_id == p.upload_id)
    && (not (is_positive p.user_id) || eqb_ℤ r.user_id p.user_id)

abbrev pub found : Option Error → Option Asynquery → Result Asynquery
found (some e) row = err (wrapped "could not retrieve async query record: " e)
found none none = err (wrapped "could not retrieve async query record: " (sentinel no_rows))
found none (some r) = ok r

-- getQueryRecord
unfoldable pub get_query_record : Option Error → QueryParams → List Asynquery → Result Asynquery
get_query_record fault params rows = found fault (newest (matches params) rows)

abbrev pub by_id : String → QueryParams
by_id i = record { query_id = i; upload_id = ""; user_id = pos 0; ready_to_run = false }

-- The status of a query whose call gave a response, or none, and a text for an error.
unfoldable pub final_status : Option Response → String → Status
final_status none e = failed
final_status (some r) e = elim r.error [
  | some x ↦ failed
  | none ↦ if e == "" then succeeded else failed
]

abbrev pub finalized : Asynquery → Option String → Status → String → Asynquery
finalized a stored status e = record a { response = stored; error = e; status = status }

abbrev pub stored_final :
    Option Error
    → Asynquery
    → Status
    → String
    → Result (Option String)
    → List Asynquery
    → Result (Unit {0}) × List Asynquery
stored_final fault a status e (err x) rows =
    (err (wrapped "could not marshal rpc response: " x), rows)
stored_final (some x) a status e (ok stored) rows =
    (err (wrapped "error updating async query record: " x), rows)
stored_final none a status e (ok stored) rows = (ok tt, save (finalized a stored status e) rows)

abbrev pub finalize_found :
    Codec
    → Faults
    → Option Response
    → String
    → List Asynquery
    → Result Asynquery
    → Result (Unit {0}) × List Asynquery
finalize_found codec faults response e rows (err x) =
    (err (wrapped "could not retrieve async query record: " x), rows)
finalize_found codec faults response e rows (ok a) =
    stored_final faults.final_update a (final_status response e) e (codec.marshal_response response)
      rows

-- finalizeQueryRecord
unfoldable pub finalize_query_record :
    Codec
    → Faults
    → String
    → Option Response
    → String
    → List Asynquery
    → Result (Unit {0}) × List Asynquery
unfolding get_query_record final_status
finalize_query_record codec faults i response e rows =
    finalize_found codec faults response e rows
      (get_query_record faults.final_lookup (by_id i) rows)

-- No error from the database.
abbrev pub no_faults : Faults
no_faults = record {
  begin = none;
  lock = none;
  lookup = none;
  insert = none;
  update = none;
  commit = none;
  final_lookup = none;
  final_update = none;
}
