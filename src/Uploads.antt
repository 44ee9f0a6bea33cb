-- ===== src/Uploads.antt =====
-- apps/uploads: the table of uploads behind the queries of apps/uploads/database/queries.sql.go,
-- the listeners of apps/uploads/uploads.go that write it, and the check of access to an upload. The
-- statements are modelled by what their SQL does to the rows; times and metadata are left out.
pub mod Owners
pub mod Lifecycle
pub mod Admission
pub mod Tokens
pub mod Payload
pub mod Handing
pub mod Completions
pub mod Urls
use odysee_api.Base.{
  ℕ, String, Bool, true, false, not, ◌&&◌, ◌||◌, Option, none, some, List, [], ◌∷◌, ◌++◌, ◌==◌,
  eqb_ℤ, ℤ, pos, eqb, any, if◌then◌else◌,
}

-- upload_status
pub data UploadStatus : Type 0 where
  created receiving completed terminated processed : UploadStatus

pub record Upload : Type 0 where
  pub id : String
  pub user_id : ℤ
  pub filename : String
  pub key : String
  pub status : UploadStatus
  pub size : ℕ
  pub received : ℕ
  pub sd_hash : String

-- The row that a statement for a user's upload finds.
abbrev pub is_row : ℤ → String → Upload → Bool
is_row user id u = eqb_ℤ u.user_id user && u.id == id

-- UPDATE of the rows that pass the test
unfoldable pub update : (Upload → Bool) → (Upload → Upload) → List Upload → List Upload
update test change [] = []
update test change (u ∷ us) =
    let rest = update test change us in if test u then change u ∷ rest else u ∷ rest

abbrev pub has_id : String → Upload → Bool
has_id id u = u.id == id

-- CreateUpload; the constraints of the table are an id that is new and not empty, and a size.
unfoldable pub create_upload : ℤ → String → ℕ → List Upload → Option (List Upload)
create_upload user id size us =
    if id == "" || eqb size 0 || any (has_id id) us
    then none
    else some (
        us
        ++ record {
          id = id;
          user_id = user;
          filename = "";
          key = "";
          status = created;
          size = size;
          received = 0;
          sd_hash = "";
        }
          ∷ [])

-- GetUpload
unfoldable pub get_upload : ℤ → String → List Upload → Option Upload
get_upload user id [] = none
get_upload user id (u ∷ us) = if is_row user id u then some u else get_upload user id us

-- MarkUploadCompleted
unfoldable pub mark_upload_completed : ℤ → String → String → String → List Upload → List Upload
unfolding update
mark_upload_completed user id filename key =
    update (is_row user id) (λ u. record u { status = completed; filename = filename; key = key })

-- MarkUploadProcessed
unfoldable pub mark_upload_processed : String → String → List Upload → List Upload
unfolding update
mark_upload_processed id sd_hash =
    update (has_id id) (λ u. record u { status = processed; sd_hash = sd_hash })

-- MarkUploadTerminated, with the status that it writes
unfoldable pub mark_upload_terminated : ℤ → String → List Upload → List Upload
unfolding update
mark_upload_terminated user id = update (is_row user id) (λ u. record u { status = completed })

abbrev pub in_progress : UploadStatus → Bool
in_progress receiving = true
in_progress created = true
in_progress _ = false

-- RecordUploadProgress
unfoldable pub record_upload_progress : ℤ → String → ℕ → List Upload → List Upload
unfolding update
record_upload_progress user id received =
    update (λ u. is_row user id u && in_progress u.status) (λ u. record u { received = received })

-- The events of the upload handler that are listened to, each with the id of its upload.
pub data Event : Type 0 where
  upload_created : String → ℕ → Event
  upload_progress : String → ℕ → Event
  upload_terminated : String → Event
  upload_complete : String → String → String → Event

abbrev created_or : List Upload → Option (List Upload) → List Upload
created_or us none = us
created_or us (some vs) = vs

-- What a listener does for a user's event; where a statement fails the listener logs and returns.
-- An event whose token names no user is handled under the id 0.
unfoldable pub listen : ℤ → Event → List Upload → List Upload
unfolding create_upload record_upload_progress mark_upload_terminated mark_upload_completed
listen user (upload_created id size) us = created_or us (create_upload user id size us)
listen user (upload_progress id offset) us = record_upload_progress user id offset us
listen user (upload_terminated id) us = mark_upload_terminated user id us
listen user (upload_complete id filename key) us = mark_upload_completed user id filename key us

-- A sequence of events, each with the user of its token, in the order in which they are handled.
unfoldable pub listen_all : List (ℤ × Event) → List Upload → List Upload
unfolding listen
listen_all [] us = us
listen_all ((user, e) ∷ es) us = listen_all es (listen user e us)

abbrev present : Option Upload → Bool
present none = false
present (some u) = true

-- verifyUploadFileAccess: whether the request goes on, for the id in its path, which is empty
-- where it names no upload.
unfoldable pub verify_upload_file_access : ℤ → String → List Upload → Bool
unfolding get_upload
verify_upload_file_access user id us =
    not (eqb_ℤ user (pos 0)) && (id == "" || present (get_upload user id us))
