-- ===== src/Geopublish/Table.antt =====
-- app/geopublish/db.go: the uploads and their publish queries, the events that the upload handler
-- sends. The two tables stand under their primary keys, and the
-- times are left out. Each function reads and writes the tables in one step.
use Prim.Native.String
use odysee_api.Base.{
  ℕ, suc, String, Bool, true, false, ◌||◌, Option, none, some, List, ◌==◌, if◌then◌else◌, ℤ, pos,
  eqb_ℤ, eqb, Dict, lookup, insert, contains,
}
use odysee_api.Errors.{Error, sentinel, wrapped, no_rows, Result, ok, err}
use odysee_api.Rpc.{Request, Response}

pub data UploadStatus : Type 0 where
  created uploading received terminated abandoned failed finished : UploadStatus

pub data QueryStatus : Type 0 where
  query_received forwarded query_failed succeeded : QueryStatus

-- A row of the uploads under its id. The user's id is null once the user is deleted.
pub record Upload : Type 0 where
  pub user_id : Option ℤ
  pub path : String
  pub status : UploadStatus
  pub error : String
  pub size : ℕ
  pub received_bytes : ℕ

-- A row of the publish queries under the id of its upload, with the query and response as JSON.
pub record PublishQuery : Type 0 where
  pub status : QueryStatus
  pub error : String
  pub query : String
  pub response : Option String

-- forklift.UploadProcessPayload
pub record Task : Type 0 where
  pub upload_id : String
  pub path : String
  pub user_id : ℤ
  pub request : Request

-- The tables, the tasks that were sent, and the file system.
pub record World (W : Type 0) : Type 0 where
  pub uploads : Dict Upload
  pub queries : Dict PublishQuery
  pub tasks : List Task
  pub files : W

-- The errors that the database gives to the statements of one function, where it gives one.
pub record Faults : Type 0 where
  pub select : Option Error
  pub insert : Option Error
  pub update : Option Error
  pub fail_update : Option Error
  pub select_query : Option Error
  pub update_query : Option Error

-- The JSON library, the error of an id that is taken, the errors that are asynq.ErrDuplicateTask,
-- and os.RemoveAll.
pub record Services (W : Type 0) : Type 0 where
  pub marshal_request : Request → Result String
  pub marshal_response : Response → Result String
  pub taken : Error
  pub is_duplicate : Error → Bool
  pub remove_all : String → W → Option Error × W

-- UPDATE of the row under a primary key
unfoldable pub update_row : {A : Type 0} → String → (A → A) → Dict A → Dict A
update_row id change rows = elim (lookup id rows) [
  | none ↦ rows
  | some r ↦ insert id (change r) rows
]

-- An UPDATE that the database may refuse.
abbrev pub try_update :
    {A : Type 0} → Option Error → String → (A → A) → Dict A → Option Error × Dict A
try_update (some e) id change rows = (some e, rows)
try_update none id change rows = (none, update_row id change rows)

abbrev pub is_positive : ℤ → Bool
is_positive (pos (suc n)) = true
is_positive _ = false

abbrev pub owned_by : ℤ → Option ℤ → Bool
owned_by user none = false
owned_by user (some v) = eqb_ℤ v user

abbrev pub found : ℤ → Option Upload → Result Upload
found user none = err (sentinel no_rows)
found user (some u) =
    if is_positive user
    then (if owned_by user u.user_id then ok u else err (sentinel no_rows))
    else ok u

-- get
unfoldable pub get : Option Error → String → ℤ → Dict Upload → Result Upload
get (some e) id user rows = err e
get none id user rows = found user (lookup id rows)

abbrev pub no_query : String → String
no_query id = String.◌++◌ "cannot get query with id=" (String.◌++◌ id ": ")

-- getQuery
unfoldable pub get_query : Option Error → String → Dict PublishQuery → Result PublishQuery
get_query (some e) id rows = err (wrapped (no_query id) e)
get_query none id rows = elim (lookup id rows) [
  | none ↦ err (wrapped (no_query id) (sentinel no_rows))
  | some q ↦ ok q
]

-- The events of the upload handler that are listened to, each with the id of its upload: one that
-- was created, with its size; progress, with the offset; and one that was terminated.
pub data Event : Type 0 where
  upload_created : String → ℕ → Event
  upload_progress : String → ℕ → Event
  upload_terminated : String → Event

-- The id that null.Int shows
abbrev pub int_of : Option ℤ → ℤ
int_of none = pos 0
int_of (some v) = v

module _ {W : Type 0} (services : Services W) (faults : Faults) where
  abbrev pub set_uploads : World W → Option Error × Dict Upload → Option Error × World W
  set_uploads w (e, rows) = (e, record w { uploads = rows })

  abbrev pub insert_upload :
      Option Error → String → Upload → Dict Upload → Option Error × Dict Upload
  insert_upload (some e) id u rows = (some e, rows)
  insert_upload none id u rows =
      if id == "" || eqb u.size 0 || contains id rows
      then (some services.taken, rows)
      else (none, insert id u rows)

  -- markUploadCreated; the constraints of the table are an id that is new and not empty, and a size.
  unfoldable pub mark_upload_created : String → ℕ → ℤ → World W → Option Error × World W
  mark_upload_created id size user w = set_uploads w (
      insert_upload faults.insert id
        (record {
          user_id = some user;
          path = "";
          status = created;
          error = "";
          size = size;
          received_bytes = 0;
        })
        w.uploads)

  abbrev pub update_found :
      String → (Upload → Upload) → World W → Result Upload → Option Error × World W
  update_found id change w (err e) = (some e, w)
  update_found id change w (ok u) = set_uploads w (try_update faults.update id change w.uploads)

  -- markUploadProgress
  unfoldable pub mark_upload_progress : String → ℕ → ℤ → World W → Option Error × World W
  unfolding get update_row
  mark_upload_progress id offset user w =
      update_found id (λ u. record u { received_bytes = offset; status = uploading }) w
        (get faults.select id user w.uploads)

  -- markUploadTerminated
  unfoldable pub mark_upload_terminated : String → ℤ → World W → Option Error × World W
  unfolding get update_row
  mark_upload_terminated id user w =
      update_found id (λ u. record u { status = terminated }) w
        (get faults.select id user w.uploads)

  -- What the loop of listenToHandler does with an event, once `guardUser` has found its user.
  unfoldable pub handle_event : ℤ → Event → World W → Option Error × World W
  unfolding mark_upload_created mark_upload_progress mark_upload_terminated
  handle_event user (upload_created id size) w = mark_upload_created id size user w
  handle_event user (upload_progress id offset) w = mark_upload_progress id offset user w
  handle_event user (upload_terminated id) w = mark_upload_terminated id user w

  -- guardUser
  unfoldable pub guard_user : Result ℤ → Event → World W → Option Error × World W
  unfolding handle_event
  guard_user (err e) event w = (some e, w)
  guard_user (ok user) event w = handle_event user event w
