-- ===== src/AsyncQuery/Verdicts.antt =====
-- What becomes of a query once the SDK has answered.
use odysee_api.Base.{String, ◌≡◌, ◌≢◌, Option, none, some, arith}
use odysee_api.Errors.{Error, Result, ok, err, sentinel, sdk_net_error, message, is, same_sentinel}
use odysee_api.Rpc.{Response}
use odysee_api.AsyncQuery.{
  Asynquery, Codec, Faults, Services, World, TaskResult, done, skip_retry, task_failed, Status,
  failed, succeeded, no_faults, newest, save, has_id, after_call, after_response,
  finalize_query_record, get_query_record, final_status,
}
use odysee_api.AsyncQuery.Table.{newest-by_id}

-- What the queue is told, and the status and error of the query: an error of the call is retried, an
-- error of the SDK is final.
abbrev pub verdict : Result Response → TaskResult × Status × String
verdict (err e) = (task_failed (sentinel sdk_net_error), failed, message e)
verdict (ok r) = elim r.error [
  | some x ↦ (skip_retry, failed, x.message)
  | none ↦ (done, succeeded, "")
]

abbrev pub response_of : Result Response → Option Response
response_of (ok r) = some r
response_of (err e) = none

-- Where the database and the JSON library give no error and the query's row is there, the answer
-- of the SDK decides: a failed call stores its error and fails the task, so that the queue retries
-- it; an error of the SDK stores its message and response, and the task is not retried; any other
-- response is stored and the query has succeeded. The row keeps all else.
pub after_call-verdict :
    {W : Type 0} (codec : Codec) (services : Services W) (aq : Asynquery) (w : World W)
    (answer : Result Response) (sdk : W) (stored : Option String)
    → aq.id ≢ ""
    → newest (has_id aq.id) w.rows ≡ some aq
    → codec.marshal_response (response_of answer) ≡ ok stored
    → after_call codec no_faults services aq.id w (answer, sdk) ≡ (
      (verdict answer).0,
      record w {
        sdk = sdk;
        rows =
            save
              (record aq {
                response = stored;
                status = (verdict answer).1;
                error = (verdict answer).2;
              })
              w.rows;
      },
    )
unfolding after_call after_response finalize_query_record get_query_record final_status is
    same_sentinel
after_call-verdict codec services aq w answer sdk stored ne h m =
    ground (arith, newest-by_id aq w.rows ne h)

-- An error of the SDK that the final update cannot store is lost: the task is given up, and the row
-- stays as it was.
pub unstored_error :
    {W : Type 0} (codec : Codec) (faults : Faults) (services : Services W) (i : String)
    (w : World W) (r : Response) (x : _) (sdk : W) (e : Error)
    → r.error ≡ some x
    → faults.final_update ≡ some e
    → after_call codec faults services i w (ok r, sdk) ≡ (skip_retry, record w { sdk = sdk })
unfolding after_call after_response finalize_query_record get_query_record
unstored_error codec faults services i w r x sdk e h f = ground arith
