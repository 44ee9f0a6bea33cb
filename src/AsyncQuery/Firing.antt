-- ===== src/AsyncQuery/Firing.antt =====
-- How a query runs: buildPatchFromMeta, RetryDelay and robustCall of app/asynquery/asynquery.go.
-- Metrics, logs and reports to Sentry are left out. The user's server and query.Caller are the
-- record `Services`.
use Prim.Native.String
use odysee_api.Base.{
  ℕ, String, true, Option, none, some, List, [], ◌∷◌, ◌++◌, ◌==◌, ◌*◌, if◌then◌else◌, ℤ, pos,
  negsuc, Dict, insert, delete, ltb,
}
use odysee_api.Base.Decimal.{decimal}
use odysee_api.Errors.{Error, sentinel, sdk_net_error, message, is, Result, ok, err}
use odysee_api.Rpc.{
  Value, text, number, flag, Request, Response, RpcError, Params, absent, named, other,
}
use odysee_api.Query.{method_stream_update}
use odysee_api.AsyncQuery.Rows.{Asynquery, Codec, Faults, UploadMeta, finalize_query_record}

-- What a task's handler gives to the queue: asynq.SkipRetry is told apart from other errors.
pub data TaskResult : Type 0 where
  done skip_retry task_panicked : TaskResult
  task_failed : Error → TaskResult

pub record Services (W : Type 0) : Type 0 where
  -- the user's row, and the address of its server, which it may lack
  pub server_of : ℤ → Option (Option String)
  -- query.NewCaller(address, user).Call
  pub call : String → ℤ → Request → W → Result Response × W

-- A task of AsynqueryIncomingQuery: tasks.AsynqueryIncomingQueryPayload
pub record QueryTask : Type 0 where
  pub query_id : String
  pub user_id : ℤ

-- The database's rows, the tasks that were sent to the queue, and the SDK.
pub record World (W : Type 0) : Type 0 where
  pub rows : List Asynquery
  pub queued : List QueryTask
  pub sdk : W

-- RetryDelay, in seconds
abbrev pub retry_delay : ℕ → Error → ℕ
retry_delay n e = if is e sdk_net_error then n * 10 else 10

abbrev pub positive : ℤ → Option ℕ
positive (pos n) = if ltb 0 n then some n else none
positive (negsuc n) = none

abbrev pub patch_size : Option ℕ → Option ℕ → Dict Value
patch_size (some w) (some h) = ("width", number (decimal w)) ∷ ("height", number (decimal h)) ∷ []
patch_size _ _ = []

abbrev pub patch_duration : Option ℕ → Dict Value
patch_duration (some d) = ("duration", number (decimal d)) ∷ []
patch_duration none = []

-- buildPatchFromMeta
unfoldable pub build_patch_from_meta : UploadMeta → Dict Value
build_patch_from_meta meta =
    ("file_size", number (decimal meta.size))
    ∷ ("file_name", text meta.file_name)
    ∷ ("file_hash", text meta.hash)
    ∷ ("sd_hash", text meta.sd_hash)
    ∷ (patch_size (positive meta.width) (positive meta.height)
        ++ patch_duration (positive meta.duration))

unfoldable pub apply_patch : Dict Value → Dict Value → Dict Value
apply_patch [] params = params
apply_patch ((k, v) ∷ patch) params = apply_patch patch (insert k v params)

-- The parameters that are sent: a stream update replaces the stream and keeps its name.
unfoldable pub sent_params : String → Dict Value → Dict Value → Dict Value
unfolding apply_patch
sent_params method patch params =
    let patched = apply_patch patch params in
    delete "file_path" (
      if method == method_stream_update
      then insert "replace" (flag true) (delete "name" patched)
      else patched)

-- The text that HandleQuery stores for metadata that does not decode.
abbrev pub bad_meta_text : Error → String
bad_meta_text e = String.◌++◌ "invalid stored file metadata: " (message e)

module _ {W : Type 0} (codec : Codec) (faults : Faults) (services : Services W) where
  abbrev pub store : World W → Result (Unit {0}) × List Asynquery → World W
  store w (r, rows) = record w { rows = rows }

  abbrev pub task_of : Result (Unit {0}) → TaskResult
  task_of (ok u) = done
  task_of (err e) = task_failed e

  abbrev pub after_success : World W → Result (Unit {0}) × List Asynquery → TaskResult × World W
  after_success w (r, rows) = (task_of r, record w { rows = rows })

  -- What follows a response, on its error: where it has one, the check for an error of the final
  -- update looks at the call's.
  unfoldable pub after_response :
      String → World W → Response → Option RpcError → TaskResult × World W
  after_response i w r (some x) =
      (skip_retry, store w (finalize_query_record codec faults i (some r) x.message w.rows))
  after_response i w r none =
      after_success w (finalize_query_record codec faults i (some r) "" w.rows)

  unfoldable pub after_call : String → World W → Result Response × W → TaskResult × World W
  unfolding after_response
  after_call i w (err e, sdk) = (
    task_failed (sentinel sdk_net_error),
    store (record w { sdk = sdk }) (finalize_query_record codec faults i none (message e) w.rows),
  )
  after_call i w (ok r, sdk) = after_response i (record w { sdk = sdk }) r r.error

  unfoldable pub send_params :
      String → Asynquery → Dict Value → Request → World W → Params → TaskResult × World W
  unfolding after_call
  send_params address aq patch req w absent = (skip_retry, w)
  send_params address aq patch req w (other v) = (skip_retry, w)
  send_params address aq patch req w (named params) = after_call aq.id w (
      services.call address aq.user_id
        (record req { params = named (sent_params req.method patch params) }) w.sdk)

  unfoldable pub send_request :
      String → Asynquery → Dict Value → World W → Option Request → TaskResult × World W
  unfolding send_params
  send_request address aq patch w none = (skip_retry, w)
  send_request address aq patch w (some req) = send_params address aq patch req w req.params

  -- robustCall on the user's row and server
  unfoldable pub call_at_server :
      Asynquery → Dict Value → World W → Option (Option String) → TaskResult × World W
  unfolding send_request
  call_at_server aq patch w none = (skip_retry, w)
  call_at_server aq patch w (some none) = (task_panicked, w)
  call_at_server aq patch w (some (some address)) =
      send_request address aq patch w (codec.unmarshal_request aq.body)

  -- robustCall; a patch that is nil is one with no entries.
  unfoldable pub robust_call : Asynquery → Dict Value → World W → TaskResult × World W
  unfolding call_at_server
  robust_call aq patch w = call_at_server aq patch w (services.server_of aq.user_id)
