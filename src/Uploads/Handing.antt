-- ===== src/Uploads/Handing.antt =====
-- apps/uploads/uploads.go: what is handed to forklift. An upload that is complete
-- goes there from the listener of its event, and a URL from PostURL.
use odysee_api.Base.{
  ◌*◌, String, ◌||◌, Option, none, some, List, [], ◌∷◌, ◌==◌, if◌then◌else◌, ℤ, pos, Dict, insert,
  contains,
}
use odysee_api.Errors.{Error, Result, ok, err}
use odysee_api.Forklift.{Incoming}
use odysee_api.Queue.{
  Queue, Message, MessageOption, with_request_retry, with_request_timeout, hour, send_request,
}
use odysee_api.Uploads.{Upload, mark_upload_completed}
use odysee_api.Uploads.Payload.{
  UrlPayload, Reply, invalid_request, internal_error, url_created, UrlTools, bind,
}

-- tasks.FileLocationS3; the location of a URL is its text.
pub record S3Location : Type 0 where
  pub bucket : String
  pub key : String

-- A row of the urls under its id
pub record Url : Type 0 where
  pub user_id : ℤ
  pub url : String
  pub filename : String

-- CreateURL: an id that is new and not empty, a URL and a name; `taken` is the error of another.
abbrev pub create_url : Option Error → Error → String → Url → Dict Url → Result (Dict Url)
create_url (some e) taken id u rows = err e
create_url none taken id u rows =
    if id == "" || u.url == "" || u.filename == "" || contains id rows
    then err taken
    else ok (insert id u rows)

-- What was answered; or a panic.
pub data Answer : Type 0 where
  replied : Reply → Answer
  panicked : Answer

abbrev pub message_options : List MessageOption
message_options = with_request_retry 10 ∷ with_request_timeout (24 * hour) ∷ []

-- The user of an event: 0 where its token gives an error.
abbrev pub event_user : Result ℤ → ℤ
event_user (err e) = pos 0
event_user (ok user) = user

abbrev pub url_reply : {W : Type 0} → String → Option Error × W → Answer × W
url_reply id (none, w) = (replied (url_created id), w)
url_reply id (some e, w) = (replied (invalid_request e), w)

-- The queue is `none` where the service runs without one.
module _ {C H W : Type 0} (enqueue : Message C → W → Option Error × W)
    (upload_json : Incoming S3Location → Result String)
    (url_json : Incoming String → Result String) where
  -- UploadReceived
  unfoldable pub upload_received : Queue C H → Incoming S3Location → W → Option Error × W
  upload_received q p =
      send_request enqueue q "forklift:upload:incoming" (upload_json p) message_options

  -- URLReceived
  unfoldable pub url_received : Queue C H → Incoming String → W → Option Error × W
  url_received q p = send_request enqueue q "forklift:url:incoming" (url_json p) message_options

  abbrev pub notified : Option (Queue C H) → Incoming S3Location → W → W
  notified none p w = w
  notified (some q) p w = (upload_received q p w).1

  abbrev pub completed_for :
      Option Error
      → Option (Queue C H)
      → String
      → ℤ
      → String
      → String
      → String
      → List Upload
      → W
      → List Upload × W
  completed_for (some e) q bucket user id filename key us w = (us, w)
  completed_for none q bucket user id filename key us w = (
    mark_upload_completed user id filename key us,
    notified q
        (record {
          user_id = user;
          upload_id = id;
          file_name = filename;
          location = record { bucket = bucket; key = key };
        })
        w,
  )

  -- The listener of complete uploads, with the error of the database, if it gives one.
  unfoldable pub listen_complete :
      Option Error
      → Option (Queue C H)
      → String
      → Result ℤ
      → String
      → String
      → String
      → List Upload
      → W
      → List Upload × W
  unfolding mark_upload_completed upload_received
  listen_complete fault q bucket user = completed_for fault q bucket (event_user user)

  abbrev pub send_url : Option (Queue C H) → ℤ → UrlPayload → W → Answer × W
  send_url none user p w = (panicked, w)
  send_url (some q) user p w = url_reply p.upload_id (
      url_received q
        (record {
          user_id = user;
          upload_id = p.upload_id;
          file_name = p.filename;
          location = p.url;
        })
        w)

  abbrev pub on_created :
      Option (Queue C H)
      → ℤ
      → UrlPayload
      → Dict Url
      → W
      → Result (Dict Url)
      → (Answer × W) × Dict Url
  on_created q user p urls w (err e) = ((replied (internal_error e), w), urls)
  on_created q user p urls w (ok rows) = (send_url q user p w, rows)

  abbrev pub on_bound :
      Option Error
      → Error
      → Option (Queue C H)
      → ℤ
      → Dict Url
      → W
      → Result UrlPayload
      → (Answer × W) × Dict Url
  on_bound fault taken q user urls w (err e) = ((replied (invalid_request e), w), urls)
  on_bound fault taken q user urls w (ok p) = on_created q user p urls w (
      create_url fault taken p.upload_id
        (record { user_id = user; url = p.url; filename = p.filename }) urls)

  -- PostURL, on the URL of the body, or the error of its decoding.
  unfoldable pub post_url :
      UrlTools
      → Option Error
      → Error
      → Option (Queue C H)
      → ℤ
      → Result String
      → Dict Url
      → W
      → (Answer × W) × Dict Url
  unfolding bind url_received
  post_url tools fault taken q user (err e) urls w = ((replied (invalid_request e), w), urls)
  post_url tools fault taken q user (ok url) urls w =
      on_bound fault taken q user urls w (bind tools url)
