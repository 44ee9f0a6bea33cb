-- ===== src/AsyncQuery/Commits.antt =====
-- What a commit does, when it fails and when it is repeated.
use odysee_api.Base.{String, ◌≡◌, ◌≢◌, true, some, List, ℤ, ◌⊎◌}
use odysee_api.Errors.{Error, wrapped}
use odysee_api.AsyncQuery.{Asynquery, Faults, newest, is_upload, received, failed}

-- The newest row of the upload is one that a commit does not change.
record IsSettled (user : ℤ) (upload : String) (rows : List Asynquery) (aq : Asynquery)
    : Type 0 where
  is_newest : newest (is_upload upload user) rows ≡ some aq
  is_ready : aq.status ≡ received → aq.ready_to_run ≡ true
  not_failed : aq.status ≢ failed

-- The database fails a transaction with this error: where it begins, locks the user's row, looks
-- the query up, or commits.
abbrev pub Fails : Faults → Error → Type 0
Fails f e =
    ((x : Error) × (f.begin ≡ some x) × (e ≡ wrapped "begin tx: " x))
    ⊎ ((x : Error) × (f.lock ≡ some x) × (e ≡ wrapped "locking user row: " x))
    ⊎ ((x : Error) × (f.lookup ≡ some x) × (e ≡ wrapped "looking up asynquery: " x))
    ⊎ ((x : Error) × (f.commit ≡ some x) × (e ≡ wrapped "commit tx: " x))
