-- ===== src/AsyncQuery/Pending.antt =====
-- A draft that waits for its file, the commit of it and the end of its upload.
use odysee_api.Base.{
  ℕ, String, ◌≡◌, ◌≢◌, true, false, none, some, List, arith, ℤ, lookup, delete, Dict,
}
use odysee_api.Errors.{Error, ok}
use odysee_api.Rpc.{Request, Value, text, named}
use odysee_api.AsyncQuery.{
  sent_params, build_patch_from_meta, Asynquery, Codec, UploadDone, Services, World, QueryTask,
  TaskResult, received, no_faults, newest, is_upload, save, committed, with_file, call,
  parse_file_path, is_deferred, call_upload_tx, commit_found, commit_by_status, handle_merge,
  handle_merge_tx, merge_found, merge_ready, runs_again, handle_query,
}
use odysee_api.AsyncQuery.Table.{HasDistinctIds}

module _ (codec : Codec) (rows : List Asynquery) (aq : Asynquery) where
  pub call_upload_tx-draft :
      (taken : Error) (now : ℕ) (user : ℤ) (upload body : String) (req : Request)
      → newest (is_upload upload user) rows ≡ some aq
      → aq.status ≡ received
      → aq.ready_to_run ≡ false
      → codec.marshal_request req ≡ ok body
      → call_upload_tx codec no_faults taken now user upload false req rows
        ≡ (ok (committed aq body, aq.file_ready), save (committed aq body) rows)
  unfolding call_upload_tx commit_found commit_by_status
  call_upload_tx-draft taken now user upload body req n s r m = ground arith

  pub handle_merge_tx-draft :
      (finished : UploadDone) (stored : String)
      → newest (is_upload finished.upload_id finished.user_id) rows ≡ some aq
      → aq.ready_to_run ≡ false
      → codec.marshal_meta finished.meta ≡ ok stored
      → handle_merge_tx codec no_faults finished rows
        ≡ (ok (with_file aq stored, false), save (with_file aq stored) rows)
  unfolding handle_merge_tx merge_found merge_ready
  handle_merge_tx-draft finished stored n r m = ground arith

  pub handle_merge_tx-ready :
      (finished : UploadDone)
      → newest (is_upload finished.upload_id finished.user_id) rows ≡ some aq
      → aq.ready_to_run ≡ true
      → aq.status ≡ received
      → handle_merge_tx codec no_faults finished rows ≡ (ok (aq, true), rows)
  unfolding handle_merge_tx merge_found merge_ready runs_again
  handle_merge_tx-ready finished n r s = ground arith

-- A query to commit: its parameters, the place of its file, and what is stored of it.
pub record Commit : Type 0 where
  pub request : Request
  pub params : Dict Value
  pub path : String
  pub server : String
  pub body : String
  pub stored_meta : String

-- The query's file is the upload that is done, the newest row of that upload is a draft whose file
-- is not there yet, and the JSON library reads the metadata that it wrote.
pub record IsPending (codec : Codec) (rows : List Asynquery) (c : Commit) (finished : UploadDone)
    (draft : Asynquery) : Type 0 where
  pub has_params : c.request.params ≡ named c.params
  pub not_deferred : is_deferred (lookup "_defer" c.params) ≡ false
  pub has_path : lookup "file_path" (delete "_defer" c.params) ≡ some (text c.path)
  pub path_upload :
      parse_file_path c.path ≡ ok (record { server = c.server; upload_id = finished.upload_id })
  pub is_newest : newest (is_upload finished.upload_id finished.user_id) rows ≡ some draft
  pub named_id : draft.id ≢ ""
  pub distinct : HasDistinctIds rows
  pub waits : draft.status ≡ received
  pub not_ready : draft.ready_to_run ≡ false
  pub no_file : draft.file_ready ≡ false
  pub writes_body :
      codec.marshal_request (record c.request { params = named (delete "_defer" c.params) })
      ≡ ok c.body
  pub writes_meta : codec.marshal_meta finished.meta ≡ ok c.stored_meta
  pub reads_meta : codec.unmarshal_meta c.stored_meta ≡ ok finished.meta

-- The request of a commit as it is sent, completed with the file's metadata.
abbrev pub sent_request : Commit → UploadDone → Request
sent_request c finished = record c.request {
  params = named (
      sent_params c.request.method (build_patch_from_meta finished.meta)
        (delete "_defer" c.params));
}

abbrev pub task_for : Asynquery → ℤ → QueryTask
task_for aq user = record { query_id = aq.id; user_id = user }

module _ {W : Type 0} (codec : Codec) (services : Services W) (taken : Error) (now : ℕ) where
  unfoldable pub commit : Commit → UploadDone → World W → World W
  commit c finished w = (call codec no_faults taken now none finished.user_id c.request w).1

  unfoldable pub upload_done : UploadDone → World W → TaskResult × World W
  upload_done finished w =
      handle_merge codec no_faults services "forklift:upload:done" (some finished) w

  unfoldable pub run_task : QueryTask → World W → TaskResult × World W
  run_task task w = handle_query codec no_faults services "asynquery:incoming" (some task) w
