-- ===== src/Examples/Carrying.antt =====
-- A task of app/geopublish that is carried out, and one whose blobs are not all taken.
use odysee_api.Base.{ℕ, suc, String, ◌≡◌, refl, some, none, [], pos, ◌*◌, ◌^◌}
use odysee_api.Base.Decimal.{decimal}
use odysee_api.Errors.{Error, ok, plain, message}
use odysee_api.AsyncQuery.{task_failed}
use odysee_api.Geopublish.Table.{Task}
use odysee_api.Geopublish.Carriage.{
  Carrier, ProcessResult, process_task, process, retry_delay, patched,
}
use odysee_api.Geopublish.Delivery.{Ends, result_or_retry, retried_in_ten_seconds}
use odysee_api.Examples.Publishing.{answer, request}

-- A reflector that does not take two blobs.
abbrev carrier : Carrier ℕ
carrier = record {
  analyze = λ path n.
      ((some (record { mime = "video/mp4"; extension = ".mp4"; media = none }), none), suc n);
  split = λ path blobs name n. (ok (record { hash = "h"; sd_hash = "s"; size = 9 }), suc n);
  upload = λ path blobs name n. (ok 2, suc n);
  server_of = λ user n. (ok (some "http://sdk"), suc n);
  call = λ address user req n. (ok answer, suc n);
  remove_all = λ path n. (none, suc n);
  base = λ path. path;
  blobs_of = λ name. name;
  marshal = λ r. ok r.error;
}

abbrev task : Task
task = record { upload_id = "up1"; path = "joined"; user_id = pos 7; request = request }

marshals : (r : ProcessResult) → (s : String) × (carrier.marshal r ≡ ok s)
marshals r = (r.error, refl)

result_or_retry_example :
    Ends carrier task
      (record { rest = 0; results = [] })
      (process_task carrier none "upload:process" (some task) (record { rest = 0; results = [] }))
result_or_retry_example = result_or_retry carrier marshals task (record { rest = 0; results = [] })

failure : Error
failure = plain "upload processing failed: several errors detected uploading blobs (2)"

blobs_failed :
    (process_task carrier none "upload:process" (some task) (record { rest = 0; results = [] })).0
    ≡ task_failed failure
unfolding process_task process patched message decimal failure
blobs_failed = refl

retried_in_ten_seconds_example : retry_delay 3 failure ≡ 10 * 10 ^ 9
retried_in_ten_seconds_example =
    retried_in_ten_seconds carrier none (λ e h. cc) failure "upload:process" (some task)
      (record { rest = 0; results = [] }) 3 blobs_failed
