-- ===== src/Examples/Publishing.antt =====
-- Uploads that are published by app/geopublish: one that is handed over, and one of another user.
use odysee_api.Base.{
  String, ℕ, suc, ◌≡◌, refl, true, false, some, none, [], ◌∷◌, arith, ℤ, pos, ne_of_test, lookup,
  ◌&&◌, ◌==◌, if◌then◌else◌,
}
use odysee_api.Errors.{ok, plain, sentinel, no_rows, err_text}
use odysee_api.Rpc.{Request, Response, null, named, text}
use odysee_api.Wallet.{User}
use odysee_api.Auth.{CurrentUser}
use odysee_api.Proxy.{get_auth_error}
use odysee_api.SdkRouter.{get_sdk_address}
use odysee_api.Geopublish.Table.{
  Upload, PublishQuery, uploading, query_received, World, Services, upload_progress, guard_user,
  failed, finished, get, update_row, is_positive,
}
use odysee_api.Geopublish.Processing.{process_upload, save_upload_processing_result, has_no_error}
use odysee_api.Geopublish.Status.{status, reply, stored, rpc_error}
use odysee_api.Geopublish.Files.{FileInfo, Files, rewritten, refused}
use odysee_api.Geopublish.Notify.{notify}
use odysee_api.Geopublish.Publishing.{HandedOver, handed_over}
use odysee_api.Geopublish.Sound.{IsSound, here, next, events, notifies, published_once}
use odysee_api.Geopublish.Foreign.{IsForeign, foreign_file_taken}
use odysee_api.Geopublish.Verdicts.{no_faults, IsPublished, failure_looks_pending, response_told}
use odysee_api.Examples.Users.{user}

abbrev services : Services ℕ
services = record {
  marshal_request = λ r. ok "request";
  marshal_response = λ r. ok "response";
  taken = plain "taken";
  is_duplicate = λ e. false;
  remove_all = λ path n. (none, suc n);
}

abbrev info : FileInfo
info = record {
  id = "up1";
  size = 9;
  offset = 9;
  metadata = ("filename", "a.mp4") ∷ [];
  storage = ("Path", "/uploads/up1") ∷ [];
}

-- Every call of the store succeeds; the world counts them.
abbrev files : Files ℕ
files = record {
  new_lock = λ id n. (none, suc n);
  lock = λ id n. (none, suc n);
  unlock = λ id n. suc n;
  get_upload = λ id n. (none, suc n);
  get_info = λ id n. (ok info, suc n);
  mkdir_all = λ path n. (none, suc n);
  rename = λ from to n. (none, suc n);
  remove = λ path n. (none, suc n);
  dir = λ path. "/uploads";
  join = λ parts. "joined";
}

abbrev upload : ℤ → Upload
upload id = record {
  user_id = some id;
  path = "";
  status = uploading;
  error = "";
  size = 9;
  received_bytes = 9;
}

abbrev pub request : Request
request = record {
  method = "publish";
  params = named (("name", text "a") ∷ []);
  id = pos 1;
  jsonrpc = "2.0";
}

-- The only upload belongs to the user with this id.
abbrev world : ℤ → World ℕ
world id = record { uploads = ("up1", upload id) ∷ []; queries = []; tasks = []; files = 0 }

abbrev current : CurrentUser
current = record { user = some user; error = none }

positive : (u : User) → current.user ≡ some u → is_positive u.id ≡ true
positive u h = (let e : user ≡ u = ground arith in rw (← e) refl)

handed_over_example :
    HandedOver files current "up1"
      (ok (some request))
      (world (pos 7))
      (notify services no_faults files none current "up1" (ok (some request)) (world (pos 7))).1
handed_over_example =
    handed_over services no_faults files none current "up1" (ok (some request)) (world (pos 7))
      positive

task_sent :
    (notify services no_faults files none current "up1" (ok (some request)) (world (pos 7))).1.tasks
    ≡ record { upload_id = "up1"; path = "joined"; user_id = pos 7; request = request } ∷ []
unfolding notify get_auth_error get_sdk_address rewritten process_upload get update_row lookup
task_sent = refl

empty-IsSound : IsSound (world (pos 7))
empty-IsSound = record { tasks_named = tt; tasks_distinct = tt }

abbrev progressed : World ℕ
progressed =
    (guard_user services no_faults (ok (pos 7)) (upload_progress "up1" 9) (world (pos 7))).1

published_once_example :
    IsSound (notify services no_faults files none current "up1" (ok (some request)) progressed).1
published_once_example = published_once services files empty-IsSound (
    next (next here (events no_faults (ok (pos 7)) (upload_progress "up1" 9) (world (pos 7))))
      (notifies no_faults none current "up1" (ok (some request)) progressed))

foreign :
    IsForeign services no_faults files
      (world (pos 8))
      current
      "up1"
      user
      info
      (upload (pos 8))
      (pos 8)
      "a.mp4"
      "/uploads/up1"
      2
      3
      4
      request
      (("name", text "a") ∷ [])
unfolding lookup get_sdk_address
foreign = record {
  authorized = refl;
  no_error = refl;
  is_user = refl;
  has_server = ne_of_test _ _ refl;
  has_id = ne_of_test _ _ refl;
  locks = refl;
  gets = refl;
  reads = refl;
  complete = refl;
  has_metadata = refl;
  has_name = refl;
  named_file = ne_of_test _ _ refl;
  has_path = refl;
  named_path = ne_of_test _ _ refl;
  has_params = refl;
  row = refl;
  owns = refl;
  other_user = (λ e. cc);
  select_works = refl;
}

foreign_file_taken_example :
    notify services no_faults files none current "up1" (ok (some request)) (world (pos 8))
    ≡ (refused (sentinel no_rows), record (world (pos 8)) { files = 8 })
foreign_file_taken_example =
    foreign_file_taken services no_faults files (world (pos 8)) none current "up1" user info
      (upload (pos 8)) (pos 8) "a.mp4" "/uploads/up1" 2 3 4 5 6 request (("name", text "a") ∷ [])
      foreign refl refl

abbrev pending : PublishQuery
pending = record { status = query_received; error = ""; query = "request"; response = none }

abbrev sent_world : World ℕ
sent_world = record (world (pos 7)) { queries = ("up1", pending) ∷ [] }

published : IsPublished sent_world "up1" (pos 7) (upload (pos 7)) pending
unfolding lookup
published = record {
  has_id = ne_of_test _ _ refl;
  is_user = refl;
  upload_row = refl;
  owns = refl;
  query_row = refl;
}

-- A format without a verb is its text.
abbrev same : String → String
same s = s

failure_looks_pending_example :
    let after =
      (save_upload_processing_result services no_faults "up1" none "no blobs" sent_world).1 in
    (lookup "up1" after.uploads
      ≡ some (record (upload (pos 7)) { error = "no blobs"; status = failed }))
    × (status same no_faults "up1" (ok (pos 7)) sent_world ≡ reply 202)
    × (status same no_faults "up1" (ok (pos 7)) after ≡ reply 202)
failure_looks_pending_example =
    failure_looks_pending services same sent_world "up1" (pos 7) (upload (pos 7)) pending published
      "no blobs" refl

abbrev pub answer : Response
answer = record { jsonrpc = "2.0"; result = null; error = none; id = pos 1 }

response_told_example :
    let after =
      (save_upload_processing_result services no_faults "up1" (some answer) "" sent_world).1 in
    (lookup "up1" after.uploads ≡ some (record (upload (pos 7)) { status = finished }))
    × (status same no_faults "up1" (ok (pos 7)) after ≡ (
        if has_no_error services no_faults answer && "" == ""
        then record { status = 200; body = stored "response" }
        else rpc_error (err_text (same ""))))
response_told_example =
    response_told services same sent_world "up1" (pos 7) (upload (pos 7)) pending published ""
      answer "response" refl

foreign_row : lookup "up1" (world (pos 8)).uploads ≡ some (upload (pos 8))
unfolding lookup
foreign_row = refl
