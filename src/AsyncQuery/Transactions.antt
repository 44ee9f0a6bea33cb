-- ===== src/AsyncQuery/Transactions.antt =====
-- The two transactions of app/asynquery/asynquery.go on the rows of an upload: callUploadTx and
-- handleMergeTx. Each locks the rows that it reads, and is one step of the model: the rows that it
-- works on replace the stored ones when it commits, and `tx_rollback` gives the stored ones back,
-- which is what the database does with a transaction.
use odysee_api.Base.{ℕ, String, Bool, true, false, not, Option, none, some, List, ℤ}
use odysee_api.Errors.{Error, sentinel, wrapped, no_rows, Result, ok, err}
use odysee_api.Rpc.{Request}
use odysee_api.AsyncQuery.Rows.{
  Asynquery, Status, received, preparing, forwarded, failed, succeeded, Codec, Faults, UploadMeta,
  newest, is_upload, save, create_query_record,
}

-- tasks.ForkliftUploadDonePayload
pub record UploadDone : Type 0 where
  pub upload_id : String
  pub user_id : ℤ
  pub meta : UploadMeta

-- A query that a transaction returns, and whether it is to be run at once; with the rows after it.
abbrev pub Outcome : Type 0
Outcome = Result (Asynquery × Bool) × List Asynquery

-- txRollback, on the way out with an error: what the transaction wrote is gone.
abbrev pub tx_rollback : Error → List Asynquery → Outcome
tx_rollback e stored = (err e, stored)

-- The commit at the end of a transaction: when it fails the rows are as before.
abbrev pub commit_tx : Faults → Asynquery → Bool → List Asynquery → List Asynquery → Outcome
commit_tx faults aq run after before = elim faults.commit [
  | none ↦ (ok (aq, run), after)
  | some e ↦ (err (wrapped "commit tx: " e), before)
]

abbrev pub commit_created : Faults → List Asynquery → Result (Asynquery × List Asynquery) → Outcome
commit_created faults rows (err e) = tx_rollback (wrapped "error adding query record: " e) rows
commit_created faults rows (ok (aq, after)) = commit_tx faults aq false after rows

abbrev pub committed : Asynquery → String → Asynquery
committed aq body = record aq { body = body; ready_to_run = true }

abbrev pub with_body : Faults → Asynquery → List Asynquery → Result String → Outcome
with_body faults aq rows (err e) = tx_rollback (wrapped "error marshaling request: " e) rows
with_body faults aq rows (ok body) = elim faults.update [
  | some e ↦ tx_rollback (wrapped "error updating query record: " e) rows
  | none ↦ commit_tx faults (committed aq body) aq.file_ready (save (committed aq body) rows) rows
]

-- A draft becomes ready; a query that is ready stays as it is.
abbrev pub commit_draft : Codec → Faults → Request → Asynquery → List Asynquery → Bool → Outcome
commit_draft codec faults req aq rows true = commit_tx faults aq false rows rows
commit_draft codec faults req aq rows false = with_body faults aq rows (codec.marshal_request req)

module _ (codec : Codec) (faults : Faults) (taken : Error) (now : ℕ) where
  abbrev pub create_for : String → ℤ → Bool → Request → List Asynquery → Outcome
  create_for upload user ready req rows = commit_created faults rows (
      create_query_record codec faults taken now
        (record { query_id = ""; upload_id = upload; user_id = user; ready_to_run = ready }) req
        rows)

  -- The switch on the status of the newest row.
  unfoldable pub commit_by_status :
      String → ℤ → Request → Asynquery → List Asynquery → Status → Outcome
  commit_by_status upload user req aq rows received =
      commit_draft codec faults req aq rows aq.ready_to_run
  commit_by_status upload user req aq rows failed = create_for upload user true req rows
  commit_by_status upload user req aq rows preparing = commit_tx faults aq false rows rows
  commit_by_status upload user req aq rows forwarded = commit_tx faults aq false rows rows
  commit_by_status upload user req aq rows succeeded = commit_tx faults aq false rows rows

  unfoldable pub commit_found :
      String → ℤ → Bool → Request → List Asynquery → Option Asynquery → Outcome
  unfolding commit_by_status
  commit_found upload user defer_run req rows none = create_for upload user (not defer_run) req rows
  commit_found upload user true req rows (some aq) = commit_tx faults aq false rows rows
  commit_found upload user false req rows (some aq) =
      commit_by_status upload user req aq rows aq.status

  -- callUploadTx; the lookup's fault is another one than that no row was found.
  unfoldable pub call_upload_tx : ℤ → String → Bool → Request → List Asynquery → Outcome
  unfolding commit_found
  call_upload_tx user upload defer_run req rows = elim faults.begin [
    | some e ↦ (err (wrapped "begin tx: " e), rows)
    | none ↦ elim faults.lock [
      | some e ↦ tx_rollback (wrapped "locking user row: " e) rows
      | none ↦ elim faults.lookup [
        | some e ↦ tx_rollback (wrapped "looking up asynquery: " e) rows
        | none ↦ commit_found upload user defer_run req rows (newest (is_upload upload user) rows)
      ]
    ]
  ]

abbrev pub with_file : Asynquery → String → Asynquery
with_file aq meta = record aq { file_ready = true; file_meta = some meta }

abbrev pub store_meta : Faults → Asynquery → List Asynquery → Result String → Outcome
store_meta faults aq rows (err e) = tx_rollback e rows
store_meta faults aq rows (ok meta) = elim faults.update [
  | some e ↦ tx_rollback e rows
  | none ↦ commit_tx faults (with_file aq meta) false (save (with_file aq meta) rows) rows
]

-- Whether the upload of a query that is ready makes it run.
unfoldable pub runs_again : Status → Bool
runs_again succeeded = false
runs_again received = true
runs_again preparing = true
runs_again forwarded = true
runs_again failed = true

unfoldable pub merge_ready :
    Codec → Faults → UploadMeta → Asynquery → List Asynquery → Bool → Outcome
unfolding runs_again
merge_ready codec faults meta aq rows false = store_meta faults aq rows (codec.marshal_meta meta)
merge_ready codec faults meta aq rows true = commit_tx faults aq (runs_again aq.status) rows rows

unfoldable pub merge_found :
    Codec → Faults → UploadMeta → List Asynquery → Option Asynquery → Outcome
unfolding merge_ready
merge_found codec faults meta rows none = tx_rollback (sentinel no_rows) rows
merge_found codec faults meta rows (some aq) = merge_ready codec faults meta aq rows aq.ready_to_run

-- handleMergeTx
unfoldable pub handle_merge_tx : Codec → Faults → UploadDone → List Asynquery → Outcome
unfolding merge_found
handle_merge_tx codec faults done rows = elim faults.begin [
  | some e ↦ (err (wrapped "begin tx: " e), rows)
  | none ↦ elim faults.lookup [
    | some e ↦ tx_rollback e rows
    | none ↦
        merge_found codec faults done.meta rows
          (newest (is_upload done.upload_id done.user_id) rows)
  ]
]
