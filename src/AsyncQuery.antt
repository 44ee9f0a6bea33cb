-- ===== src/AsyncQuery.antt =====
-- app/asynquery/asynquery.go: queries that run once the file that they need has been uploaded.
-- `call` takes a query in, `handle_merge` learns that an upload is done, and `handle_query` runs a
-- task of the queue. The decoding of a task's payload is an argument, and so are the time and
-- the errors of the database and the queue.
mod Location
mod Rows
mod Transactions
mod Firing
mod Table
pub mod Commits
pub mod Pending
pub mod Orders
mod Changes
pub mod Firings
pub mod Sound
mod Intake
pub mod Ran
pub mod Drafts
pub mod Verdicts
pub mod Patches
pub mod Http
pub mod Requests
pub use Location.*
pub use Rows.*
pub use Transactions.*
pub use Firing.*
unfoldable pub use Location.{cut_first, cut_last, all_chars, match_location, parse_file_path}
unfoldable pub use Rows.{
  newest, save, create_query_record, get_query_record, final_status, finalize_query_record,
}
unfoldable pub use Transactions.{
  commit_by_status, commit_found, call_upload_tx, runs_again, merge_ready, merge_found,
  handle_merge_tx,
}
unfoldable pub use Firing.{
  build_patch_from_meta, apply_patch, sent_params, after_response, after_call, send_params,
  send_request, call_at_server, robust_call,
}
use odysee_api.Base.{
  ℕ, String, Bool, true, false, Option, none, some, List, [], ◌∷◌, ◌++◌, ◌==◌, if◌then◌else◌, ℤ,
  Dict, delete, lookup,
}
use odysee_api.Errors.{Error, plain, wrapped, Result, ok, err, Exit, returned, panicked}
use odysee_api.Rpc.{Value, flag, text, Request, Params, absent, named, other}

abbrev pub is_deferred : Option Value → Bool
is_deferred (some (flag b)) = b
is_deferred _ = false

module _ {W : Type 0} (codec : Codec) (faults : Faults) (taken : Error) (now : ℕ) where
  -- SendRequest of the task for a query, which the queue may refuse.
  abbrev pub enqueue : Option Error → Asynquery → ℤ → World W → Exit Asynquery × World W
  enqueue (some e) aq user w = (returned (err (wrapped "error queuing query: " e)), w)
  enqueue none aq user w = (
    returned (ok aq),
    record w { queued = w.queued ++ (record { query_id = aq.id; user_id = user } ∷ []) },
  )

  abbrev pub enqueue_new :
      Option Error → ℤ → World W → Result (Asynquery × List Asynquery) → Exit Asynquery × World W
  enqueue_new send user w (err e) = (returned (err (wrapped "error adding query record: " e)), w)
  enqueue_new send user w (ok (aq, rows)) = enqueue send aq user (record w { rows = rows })

  abbrev pub enqueue_if : Option Error → ℤ → World W → Outcome → Exit Asynquery × World W
  enqueue_if send user w (err e, rows) = (returned (err e), record w { rows = rows })
  enqueue_if send user w (ok (aq, true), rows) = enqueue send aq user (record w { rows = rows })
  enqueue_if send user w (ok (aq, false), rows) = (returned (ok aq), record w { rows = rows })

  abbrev pub call_at :
      Option Error → ℤ → Bool → Request → World W → Result FileLocation → Exit Asynquery × World W
  call_at send user defer_run req w (err e) = (returned (err e), w)
  call_at send user defer_run req w (ok at) =
      enqueue_if send user w
        (call_upload_tx codec faults taken now user at.upload_id defer_run req w.rows)

  -- The branches on the file's path.
  unfoldable pub call_with_path :
      Option Error → ℤ → Bool → Request → World W → Option Value → Exit Asynquery × World W
  call_with_path send user defer_run req w none = enqueue_new send user w (
      create_query_record codec faults taken now
        (record { query_id = ""; upload_id = ""; user_id = user; ready_to_run = true }) req w.rows)
  call_with_path send user defer_run req w (some (text path)) =
      call_at send user defer_run req w (parse_file_path path)
  call_with_path send user defer_run req w (some v) =
      (returned (err (plain "invalid file path")), w)

  -- Call of a request with these parameters; those that are no map panic.
  unfoldable pub call_params :
      Option Error → ℤ → Request → World W → Params → Exit Asynquery × World W
  unfolding call_with_path
  call_params send user req w absent = (panicked, w)
  call_params send user req w (other v) = (panicked, w)
  call_params send user req w (named params) =
      call_with_path send user (is_deferred (lookup "_defer" params))
        (record req { params = named (delete "_defer" params) }) w
        (lookup "file_path" (delete "_defer" params))

  -- Call
  unfoldable pub call : Option Error → ℤ → Request → World W → Exit Asynquery × World W
  unfolding call_params
  call send user req w = call_params send user req w req.params

module _ {W : Type 0} (codec : Codec) (faults : Faults) (services : Services W) where
  unfoldable pub after_merge : UploadDone → World W → Outcome → TaskResult × World W
  after_merge payload w (err e, rows) = (task_failed e, record w { rows = rows })
  after_merge payload w (ok (aq, false), rows) = (done, record w { rows = rows })
  after_merge payload w (ok (aq, true), rows) =
      robust_call codec faults services aq (build_patch_from_meta payload.meta)
        (record w { rows = rows })

  -- HandleMerge, on the type of the task and its payload if that decodes.
  unfoldable pub handle_merge : String → Option UploadDone → World W → TaskResult × World W
  unfolding after_merge
  handle_merge task none w = (skip_retry, w)
  handle_merge task (some payload) w =
      if task == "forklift:upload:done"
      then after_merge payload w (handle_merge_tx codec faults payload w.rows)
      else (skip_retry, w)

  abbrev pub skip_or_fail : World W → Result (Unit {0}) × List Asynquery → TaskResult × World W
  skip_or_fail w (ok u, rows) = (skip_retry, record w { rows = rows })
  skip_or_fail w (err e, rows) = (task_failed e, record w { rows = rows })

  abbrev pub run_patched : Asynquery → World W → Result UploadMeta → TaskResult × World W
  run_patched aq w (err e) =
      skip_or_fail w (finalize_query_record codec faults aq.id none (bad_meta_text e) w.rows)
  run_patched aq w (ok meta) = robust_call codec faults services aq (build_patch_from_meta meta) w

  abbrev pub run_stored : Asynquery → World W → Option String → TaskResult × World W
  run_stored aq w none = robust_call codec faults services aq [] w
  run_stored aq w (some stored) = run_patched aq w (codec.unmarshal_meta stored)

  unfoldable pub run_query : World W → Result Asynquery → TaskResult × World W
  run_query w (err e) = (task_failed e, w)
  run_query w (ok aq) = run_stored aq w aq.file_meta

  -- HandleQuery
  unfoldable pub handle_query : String → Option QueryTask → World W → TaskResult × World W
  unfolding run_query
  handle_query task none w = (skip_retry, w)
  handle_query task (some payload) w =
      if task == "asynquery:incoming"
      then run_query w (
          get_query_record faults.lookup
            (record {
              query_id = payload.query_id;
              upload_id = "";
              user_id = payload.user_id;
              ready_to_run = false;
            })
            w.rows)
      else (skip_retry, w)
