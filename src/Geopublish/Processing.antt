-- ===== src/Geopublish/Processing.antt =====
-- app/geopublish/db.go: how an upload is handed to the queue for processing, and how the result of
-- its processing is saved.
use Prim.Native.String
use odysee_api.Base.{
  String, Bool, true, false, ◌&&◌, Option, none, some, [], ◌∷◌, ◌++◌, ◌==◌, if◌then◌else◌, ℤ, pos,
  Dict, insert, contains,
}
use odysee_api.Errors.{Error, wrapped, enclosed, Result, ok, err, err_text, message}
use odysee_api.Rpc.{Request, Response}
use odysee_api.Geopublish.Table.{
  Upload, PublishQuery, received, failed, finished, query_received, query_failed, succeeded, Task,
  World, Faults, Services, update_row, try_update, get, get_query, int_of, set_uploads,
}

module _ {W : Type 0} (services : Services W) (faults : Faults) where
  abbrev pub with_failure : String → Upload → Upload
  with_failure e u = record u { error = e; status = failed }

  -- markUploadFailed
  unfoldable pub mark_upload_failed : String → String → World W → Option Error × World W
  unfolding update_row
  mark_upload_failed id e w =
      set_uploads services faults w (try_update faults.fail_update id (with_failure e) w.uploads)

  abbrev pub enqueuing_failed : Error → Option Error × World W → Option Error × World W
  enqueuing_failed e (none, w) = (some (wrapped "enqueuing failed: " e), w)
  enqueuing_failed e (some x, w) = (
    some (
        enclosed "enqueuing failed: " e
          (String.◌++◌ " (db update failed as well: " (String.◌++◌ (message x) ")"))),
    w,
  )

  -- The answer of the queue, and the task that it took where it gave no error.
  abbrev pub after_enqueue : Task → World W → Option Error → Option Error × World W
  after_enqueue t w none = (none, record w { tasks = w.tasks ++ (t ∷ []) })
  after_enqueue t w (some e) =
      if services.is_duplicate e
      then (some (err_text "duplicate task"), w)
      else enqueuing_failed e (mark_upload_failed t.upload_id (message e) w)

  abbrev pub new_query : String → PublishQuery
  new_query body = record { status = query_received; error = ""; query = body; response = none }

  -- SetPublishQuery with an insertion
  abbrev pub insert_query :
      Option Error → String → PublishQuery → Dict PublishQuery → Option Error × Dict PublishQuery
  insert_query (some e) id q rows = (some (wrapped "failed to insert into foreign table: " e), rows)
  insert_query none id q rows =
      if contains id rows
      then (some (wrapped "failed to insert into foreign table: " services.taken), rows)
      else (none, insert id q rows)

  abbrev pub enqueue_query :
      Option Error → Task → World W → Option Error × Dict PublishQuery → Option Error × World W
  enqueue_query sent t w (some e, rows) = (some e, w)
  enqueue_query sent t w (none, rows) = after_enqueue t (record w { queries = rows }) sent

  abbrev pub add_query : Option Error → Task → World W → Result String → Option Error × World W
  add_query sent t w (err e) = (some e, w)
  add_query sent t w (ok body) =
      enqueue_query sent t w (insert_query faults.insert t.upload_id (new_query body) w.queries)

  abbrev pub process_updated :
      Option Error → Task → World W → Option Error × Dict Upload → Option Error × World W
  process_updated sent t w (some e, rows) = (some e, w)
  process_updated sent t w (none, rows) =
      add_query sent t (record w { uploads = rows }) (services.marshal_request t.request)

  abbrev pub process_found :
      Option Error → String → String → Request → World W → Result Upload → Option Error × World W
  process_found sent id path req w (err e) = (some e, w)
  process_found sent id path req w (ok u) =
      process_updated sent
        (record { upload_id = id; path = path; user_id = int_of u.user_id; request = req }) w
        (try_update faults.update id (λ r. record r { status = received; path = path }) w.uploads)

  -- processUpload, with the error that the queue gives, if it gives one
  unfoldable pub process_upload :
      Option Error → String → ℤ → String → Request → World W → Option Error × World W
  unfolding get update_row mark_upload_failed
  process_upload sent id user path req w =
      process_found sent id path req w (get faults.select id user w.uploads)

  abbrev pub after_finish : Upload → World W → Option Error × Dict Upload → World W
  after_finish u w (some e, rows) = w
  after_finish u w (none, rows) = record w {
    uploads = rows;
    files = (services.remove_all u.path w.files).1;
  }

  -- markUploadFinished: the file goes where the row was updated. The error is not used.
  unfoldable pub mark_upload_finished : String → Upload → World W → World W
  unfolding update_row
  mark_upload_finished id u w =
      after_finish u w (try_update faults.update id (λ r. record r { status = finished }) w.uploads)

  abbrev pub has_no_error : Response → Bool
  has_no_error r = elim r.error [ none ↦ true | some e ↦ false ]

  -- The row with its response and verdict
  abbrev pub answered : Response → String → String → PublishQuery → PublishQuery
  answered res body call_err q = record q {
    response = some body;
    error = call_err;
    status = if has_no_error res && call_err == "" then succeeded else query_failed;
  }

  abbrev pub update_query : World W → Option Error × Dict PublishQuery → Option Error × World W
  update_query w (e, rows) = (e, record w { queries = rows })

  abbrev pub save_marshaled :
      String
      → Upload
      → Response
      → String
      → PublishQuery
      → World W
      → Result String
      → Option Error × World W
  save_marshaled id u res call_err q w (err e) = (some e, w)
  save_marshaled id u res call_err q w (ok body) = update_query (mark_upload_finished id u w) (
      try_update faults.update_query id (λ r. answered res body call_err q)
        (mark_upload_finished id u w).queries)

  abbrev pub save_query :
      String → Upload → Response → String → World W → Result PublishQuery → Option Error × World W
  save_query id u res call_err w (err e) = (some e, w)
  save_query id u res call_err w (ok q) =
      save_marshaled id u res call_err q w (services.marshal_response res)

  abbrev pub save_found :
      String → Option Response → String → World W → Result Upload → Option Error × World W
  save_found id res call_err w (err e) = (some e, w)
  save_found id none call_err w (ok u) = mark_upload_failed id call_err w
  save_found id (some res) call_err w (ok u) =
      save_query id u res call_err w (get_query faults.select_query id w.queries)

  -- saveUploadProcessingResult
  unfoldable pub save_upload_processing_result :
      String → Option Response → String → World W → Option Error × World W
  unfolding get get_query mark_upload_failed mark_upload_finished
  save_upload_processing_result id res call_err w =
      save_found id res call_err w (get faults.select id (pos 0) w.uploads)
