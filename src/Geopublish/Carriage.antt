-- ===== src/Geopublish/Carriage.antt =====
-- app/geopublish/forklift/carriage.go: the task that turns an upload into a stream and sends its
-- query to the SDK. The analyzer, the blobs, the database and the SDK are a record `Carrier` over a
-- world; metrics and logs are left out, and so is the time that asynq gives a task.
use Prim.Native.String.{◌++◌}
use mathlib.Core.List
use odysee_api.Base.{
  ℕ, zero, suc, ◌*◌, ◌^◌, String, Bool, true, false, Option, none, some, List, [], ◌∷◌, ◌==◌,
  if◌then◌else◌, ℤ, Dict, insert, delete,
}
use odysee_api.Base.Decimal.{decimal, itoa}
use odysee_api.Errors.{
  Error, sentinel, plain, wrapped, enclosed, err_upload, Result, ok, err, message, is,
}
use odysee_api.Rpc.{Request, Response, Value, number, text, Params, named}
use odysee_api.Forklift.{FileInfo, MediaInfo, StreamSource, path_ext}
use odysee_api.AsyncQuery.{TaskResult, done, skip_retry, task_panicked, task_failed}
use odysee_api.Geopublish.Table.{Task}

-- UploadProcessResult
pub record ProcessResult : Type 0 where
  pub upload_id : String
  pub user_id : ℤ
  pub sd_hash : String
  pub response : Option Response
  pub error : String
  pub retry : Bool

pub record Carrier (W : Type 0) : Type 0 where
  -- the info, and the error that may stand beside it
  pub analyze : String → W → (Option FileInfo × Option Error) × W
  pub split : String → String → String → W → Result StreamSource × W
  -- the number of blobs that were not taken
  pub upload : String → String → String → W → Result ℕ × W
  -- the user's row, and the address of its server, which it may lack
  pub server_of : ℤ → W → Result (Option String) × W
  pub call : String → ℤ → Request → W → Result Response × W
  pub remove_all : String → W → Option Error × W
  -- path.Base, and path.Join of the blobs' directory and a name
  pub base : String → String
  pub blobs_of : String → String
  pub marshal : ProcessResult → Result String

-- The world, and the results that were written to the queue of results.
pub record Bus (W : Type 0) : Type 0 where
  pub rest : W
  pub results : List String

-- What Process returns: its result and error; or a panic.
pub data Processed : Type 0 where
  processed : ProcessResult → Option Error → Processed
  process_panicked : Processed

abbrev pub analyze_error : Option Error → Error
analyze_error none = plain "error analyzing file: %!w(<nil>)"
analyze_error (some e) = wrapped "error analyzing file: " e

abbrev pub with_extension : String → String → String
with_extension name extension = if path_ext name == "" then name ++ extension else name

abbrev pub patch_media : Option MediaInfo → Dict Value → Dict Value
patch_media none p = p
patch_media (some m) p =
    insert "duration" (number (itoa m.duration))
      (insert "height" (number (itoa m.height)) (insert "width" (number (itoa m.width)) p))

-- The parameters with the patch, and without the path of the file.
unfoldable pub patched : String → FileInfo → StreamSource → Dict Value → Dict Value
unfolding path_ext
patched name info source params = delete "file_path" (
    patch_media info.media (
      insert "sd_hash" (text source.sd_hash) (
        insert "file_hash" (text source.hash) (
          insert "file_name" (text (with_extension name info.extension))
            (insert "file_size" (number (decimal source.size)) params)))))

abbrev pub nanos : ℕ → ℕ
nanos seconds = seconds * 10 ^ 9

-- RetryDelay, in nanoseconds
unfoldable pub retry_delay : ℕ → Error → ℕ
unfolding is
retry_delay n e = if is e err_upload then n * nanos 60 else nanos 10

module _ {W : Type 0} (carrier : Carrier W) where
  abbrev pub answered : ProcessResult → Result Response × W → Processed × W
  answered r (err e, w) =
      (processed (record r { retry = true }) (some (wrapped "error calling sdk: " e)), w)
  answered r (ok res, w) = elim res.error [
    | none ↦ (processed (record r { response = some res }) none, w)
    | some e ↦ (
      processed (record r { response = some res })
          (some (plain ("sdk returned an error: " ++ e.message))),
      w,
    )
  ]

  abbrev pub send :
      Task → FileInfo → StreamSource → ProcessResult → String → W → Params → Processed × W
  send t info source r address w (named params) = answered r (
      carrier.call address t.user_id
        (record t.request { params = named (patched (carrier.base t.path) info source params) }) w)
  send t info source r address w _ = (process_panicked, w)

  abbrev pub on_user :
      Task → FileInfo → StreamSource → ProcessResult → Result (Option String) × W → Processed × W
  on_user t info source r (err e, w) = (
    processed r
        (some (wrapped ("error getting sdk address for user " ++ itoa t.user_id ++ ": ") e)),
    w,
  )
  on_user t info source r (ok none, w) = (process_panicked, w)
  on_user t info source r (ok (some address), w) = send t info source r address w t.request.params

  abbrev pub on_upload :
      Task → FileInfo → StreamSource → ProcessResult → Result ℕ × W → Processed × W
  on_upload t info source r (err e, w) = (processed r (some e), w)
  on_upload t info source r (ok (suc n), w) = (
    processed (record r { retry = true })
        (some (enclosed "" (sentinel err_upload) (" (" ++ decimal (suc n) ++ ")"))),
    w,
  )
  on_upload t info source r (ok zero, w) = on_user t info source r (carrier.server_of t.user_id w)

  -- The deferred removal of the blobs
  abbrev pub cleaned : String → Processed × W → Processed × W
  cleaned blobs (r, w) = (r, (carrier.remove_all blobs w).1)

  abbrev pub on_split : Task → FileInfo → ProcessResult → Result StreamSource × W → Processed × W
  on_split t info r (err e, w) = (processed r (some (wrapped "error splitting file: " e)), w)
  on_split t info r (ok source, w) = cleaned (carrier.blobs_of t.upload_id) (
      on_upload t info source (record r { sd_hash = source.sd_hash })
        (carrier.upload t.path (carrier.blobs_of t.upload_id) (carrier.base t.path) w))

  abbrev pub on_info : Task → ProcessResult → (Option FileInfo × Option Error) × W → Processed × W
  on_info t r ((none, e), w) = (processed r (some (analyze_error e)), w)
  on_info t r ((some info, e), w) =
      on_split t info r
        (carrier.split t.path (carrier.blobs_of t.upload_id) (carrier.base t.path) w)

  -- Process
  unfoldable pub process : Task → W → Processed × W
  unfolding patched
  process t w =
      on_info t
        (record {
          upload_id = t.upload_id;
          user_id = t.user_id;
          sd_hash = "";
          response = none;
          error = "";
          retry = false;
        })
        (carrier.analyze t.path w)

  abbrev pub with_error : Option Error → ProcessResult → ProcessResult
  with_error none r = r
  with_error (some e) r = record r { error = message e }

  -- RedisResultBus.Write, with the error that redis gives, if it gives one
  abbrev pub write : Option Error → String → Bus W → Option Error × Bus W
  write (some e) s b = (some e, b)
  write none s b = (none, record b { results = List.◌++◌ b.results (s ∷ []) })

  abbrev pub after_write : Option Error × Bus W → TaskResult × Bus W
  after_write (none, b) = (done, b)
  after_write (some e, b) = (task_failed (wrapped "error writing result: " e), b)

  -- What the task gives to the queue for a result, and what is written.
  abbrev pub finish : Option Error → ProcessResult → Bus W → Result String → TaskResult × Bus W
  finish fault r b (err e) = (skip_retry, b)
  finish fault r b (ok s) =
      if r.error == ""
      then after_write (write fault s b)
      else if r.retry
      then (task_failed (plain ("upload processing failed: " ++ r.error)), b)
      else (skip_retry, (write fault s b).1)

  abbrev pub on_processed : Option Error → Bus W → Processed × W → TaskResult × Bus W
  on_processed fault b (process_panicked, w) = (task_panicked, record b { rest = w })
  on_processed fault b (processed r e, w) =
      finish fault (with_error e r) (record b { rest = w }) (carrier.marshal (with_error e r))

  -- ProcessTask, for the type of the task and its payload, which is `none` where it does not decode.
  unfoldable pub process_task : Option Error → String → Option Task → Bus W → TaskResult × Bus W
  unfolding process
  process_task fault kind payload b =
      if kind == "upload:process"
      then (elim payload [
        | none ↦ (skip_retry, b)
        | some t ↦ on_processed fault b (process t b.rest)
      ])
      else (task_failed (plain ("cannot handle " ++ kind)), b)
