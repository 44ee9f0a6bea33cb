-- ===== src/Examples/Queued.antt =====
-- A query for an upload, from its draft to its answer (app/asynquery).
use odysee_api.Base.{
  ℕ, suc, String, ◌≡◌, refl, true, false, none, some, [], ◌∷◌, pos, ne_of_test, Dict, lookup,
  delete,
}
use odysee_api.Errors.{Error, plain, ok}
use odysee_api.Base.Decimal.{decimal}
use odysee_api.Rpc.{Request, Response, Value, number, null, text, named}
use odysee_api.AsyncQuery.{
  Asynquery, Codec, Services, World, UploadMeta, UploadDone, done, received, succeeded, no_faults,
  newest, save, parse_file_path, match_location, cut_first, cut_last, all_chars, has_id, after_call,
  call,
}
use odysee_api.AsyncQuery.{sent_params, build_patch_from_meta}
use odysee_api.AsyncQuery.Patches.{sent_params_lem}
use odysee_api.AsyncQuery.Pending.{Commit, IsPending, commit, upload_done, run_task, task_for}
use odysee_api.AsyncQuery.Orders.{either_order}
use odysee_api.AsyncQuery.Sound.{IsSound}
use odysee_api.AsyncQuery.Ran.{RanReady}
use odysee_api.AsyncQuery.Drafts.{calls, here, draft_never_runs}
use odysee_api.AsyncQuery.Verdicts.{after_call-verdict}
use odysee_api.AsyncQuery.Http.{get, write_header, fresh}
use odysee_api.AsyncQuery.Requests.{foreign_not_found}

abbrev upload : String
upload = "0123456789abcdef0123456789abcdef"

abbrev path : String
path = "https://uploads.odysee.com/v1/0123456789abcdef0123456789abcdef"

abbrev params : Dict Value
params = ("name", text "a") ∷ ("file_path", text path) ∷ []

abbrev request : Request
request = record { method = "stream_create"; params = named params; id = pos 1; jsonrpc = "2.0" }

abbrev meta : UploadMeta
meta = record {
  size = 9;
  file_name = "a.mp4";
  sd_hash = "s";
  mime = "video/mp4";
  extension = ".mp4";
  hash = "h";
  duration = pos 3;
  width = pos 0;
  height = pos 0;
}

-- It writes one text for each kind of value, and reads that text.
abbrev codec : Codec
codec = record {
  marshal_request = λ r. ok "request";
  unmarshal_request = λ s. some request;
  marshal_meta = λ m. ok "meta";
  unmarshal_meta = λ s. ok meta;
  marshal_response = λ r. ok (some "response");
  md5 = λ s. s;
}

abbrev answer : Response
answer = record { jsonrpc = "2.0"; result = null; error = none; id = pos 1 }

-- An SDK that counts its calls.
abbrev services : Services ℕ
services = record {
  server_of = λ user. some (some "http://sdk");
  call = λ address user req n. (ok answer, suc n);
}

abbrev draft : Asynquery
draft = record {
  id = "q1";
  user_id = pos 7;
  status = received;
  error = "";
  upload_id = upload;
  body = "draft";
  response = none;
  ready_to_run = false;
  file_ready = false;
  file_meta = none;
}

abbrev world : World ℕ
world = record { rows = draft ∷ []; queued = []; sdk = 0 }

abbrev finished : UploadDone
finished = record { upload_id = upload; user_id = pos 7; meta = meta }

abbrev taken : Error
taken = plain "duplicate key"

abbrev ready : Asynquery
ready = record draft { body = "request"; ready_to_run = true }

abbrev the_commit : Commit
the_commit = record {
  request = request;
  params = params;
  path = path;
  server = "uploads.odysee.com";
  body = "request";
  stored_meta = "meta";
}

pending : IsPending codec (draft ∷ []) the_commit finished draft
unfolding lookup delete newest parse_file_path match_location cut_first cut_last all_chars
pending = record {
  has_params = refl;
  not_deferred = refl;
  has_path = refl;
  path_upload = refl;
  is_newest = refl;
  named_id = ne_of_test "q1" "" refl;
  distinct = (refl, tt);
  waits = refl;
  not_ready = refl;
  no_file = refl;
  writes_body = refl;
  writes_meta = refl;
  reads_meta = refl;
}

either_order_example :
    let committed_first = commit codec services taken 5 the_commit finished world in
    let ended = upload_done codec services taken 5 finished committed_first in
    let ended_first = upload_done codec services taken 5 finished world in
    let sent = commit codec services taken 5 the_commit finished ended_first.1 in
    let ran = run_task codec services taken 5 (task_for draft (pos 7)) sent in
    (committed_first.sdk ≡ 0)
    × (committed_first.queued ≡ [])
    × (sent.sdk ≡ 0)
    × (sent.queued ≡ task_for draft (pos 7) ∷ [])
    × (ended.1.sdk ≡ 1)
    × (ended.1.sdk ≡ ran.1.sdk)
    × (ended.0 ≡ ran.0)
unfolding delete
either_order_example =
    either_order codec services taken 5 world the_commit finished draft pending "http://sdk" refl
      refl

world-IsSound : IsSound world
world-IsSound = record {
  rows_named = (ne_of_test "q1" "" refl, tt);
  rows_distinct = (refl, tt);
  tasks_ready = tt;
}

draft_never_runs_example :
    RanReady codec services
      (draft ∷ [])
      0
      (call codec no_faults taken 5 none (pos 7) request world).1.sdk
draft_never_runs_example =
    draft_never_runs codec services world-IsSound here
      (calls no_faults taken 5 none (pos 7) request world)

there : newest (has_id "q1") (draft ∷ []) ≡ some draft
unfolding newest
there = refl

after_call-verdict_example : after_call codec no_faults services "q1" world (ok answer, 1) ≡ (
  done,
  record {
    rows = save (record draft { status = succeeded; response = some "response" }) (draft ∷ []);
    queued = [];
    sdk = 1;
  },
)
after_call-verdict_example =
    after_call-verdict codec services draft world (ok answer) 1 (some "response")
      (ne_of_test "q1" "" refl) there refl

foreign_not_found_example :
    get none (some "q1") (ok (some (pos 8))) (draft ∷ []) ≡ some (write_header 404 fresh)
foreign_not_found_example = foreign_not_found "q1" 7 (draft ∷ []) (ne_of_test "q1" "" refl) refl

sent_params_lem_example :
    let sent = sent_params "stream_update" (build_patch_from_meta meta) params in
    (lookup "file_path" sent ≡ none)
    × (lookup "sd_hash" sent ≡ some (text "s"))
    × (lookup "file_hash" sent ≡ some (text "h"))
    × (lookup "file_name" sent ≡ some (text "a.mp4"))
    × (lookup "file_size" sent ≡ some (number (decimal 9)))
    × (lookup "name" sent ≡ none)
sent_params_lem_example = sent_params_lem "stream_update" meta params
