-- ===== src/Forklift.antt =====
-- apps/forklift/forklift.go: the processing of an uploaded file into a stream. The file system, the
-- analyzer, the stream library, the reflector, the database and the queue are a record `Tools` over
-- a world `W`; metrics and logs are left out. HandleUpload and HandleURL differ in the place of
-- their file, a type `L`, and in that only the first deletes it.
pub mod Runs
use Prim.Native.String.{◌++◌}
use odysee_api.Base.{
  ℕ, zero, suc, String, Bool, true, false, Option, none, some, ◌==◌, if◌then◌else◌, ℤ, pos,
}
use odysee_api.Errors.{Error, plain, Result, ok, err}
use odysee_api.AsyncQuery.{
  UploadMeta, UploadDone, TaskResult, done, skip_retry, task_failed, cut_first, cut_last,
}

pub record LocalFile : Type 0 where
  pub name : String
  pub size : ℕ

-- fileanalyzer's MediaInfo and FileInfo, by the fields that are read
pub record MediaInfo : Type 0 where
  pub width : ℤ
  pub height : ℤ
  pub duration : ℤ

pub record FileInfo : Type 0 where
  pub mime : String
  pub extension : String
  pub media : Option MediaInfo

-- The source of a stream; hashes are in hexadecimal digits.
pub record StreamSource : Type 0 where
  pub hash : String
  pub sd_hash : String
  pub size : ℕ

pub record Tools (L W : Type 0) : Type 0 where
  pub retrieve : String → L → W → Result LocalFile × W
  -- the info, and the error that may stand beside it
  pub analyze : String → String → W → (Option FileInfo × Option Error) × W
  pub split : String → String → String → W → Result StreamSource × W
  -- the number of blobs that the reflector did not take
  pub upload : String → String → String → W → Result ℕ × W
  pub marshal : UploadMeta → Option String
  pub mark_processed : String → String → Option String → W → Option Error × W
  pub send_response : UploadDone → W → Option Error × W
  pub delete_source : L → W → Option Error × W
  pub remove_blobs : String → W → Option Error × W
  pub cleanup : LocalFile → W → Option Error × W
  -- path.Join of the blobs' directory and a name
  pub blobs_of : String → String

-- ForkliftUploadIncomingPayload and ForkliftURLIncomingPayload
pub record Incoming (L : Type 0) : Type 0 where
  pub user_id : ℤ
  pub upload_id : String
  pub file_name : String
  pub location : L

-- ErrReflector
abbrev pub err_reflector : Error
err_reflector = plain "errors found while uploading blobs to reflector"

abbrev in_element : String → Option (String × String) → String
in_element after none = "." ++ after
in_element after (some slashed) = ""

-- path.Ext: what begins at the last dot, if no slash follows it.
unfoldable pub path_ext : String → String
unfolding cut_first cut_last
path_ext s = elim (cut_last 46 s) [
  | none ↦ ""
  | some (before, after) ↦ in_element after (cut_first 47 after)
]

abbrev with_extension : String → String → String
with_extension name extension = if path_ext name == "" then name ++ extension else name

abbrev media_of : Option MediaInfo → MediaInfo
media_of none = record { width = pos 0; height = pos 0; duration = pos 0 }
media_of (some m) = m

-- The metadata of a stream.
unfoldable pub meta_of : String → FileInfo → StreamSource → UploadMeta
unfolding path_ext
meta_of name info source = record {
  size = source.size;
  file_name = with_extension name info.extension;
  sd_hash = source.sd_hash;
  mime = info.mime;
  extension = info.extension;
  hash = source.hash;
  duration = (media_of info.media).duration;
  width = (media_of info.media).width;
  height = (media_of info.media).height;
}

-- Whether the handler deletes the file at its place when it is done: HandleUpload does.
pub data Source : Type 0 where
  from_uploads from_url : Source

module _ {L W : Type 0} (tools : Tools L W) where
  abbrev pub drop_result : Option Error × W → W
  drop_result r = r.1

  -- The deferred deletion, once the upload is marked.
  abbrev pub release : Source → Incoming L → TaskResult × W → TaskResult × W
  release from_uploads p (r, w) = (r, drop_result (tools.delete_source p.location w))
  release from_url p (r, w) = (r, w)

  abbrev pub after_send : Option Error × W → TaskResult × W
  after_send (none, w) = (done, w)
  after_send (some e, w) = (task_failed e, w)

  abbrev pub after_mark : Source → Incoming L → UploadMeta → Option Error × W → TaskResult × W
  after_mark source p meta (some e, w) = (task_failed e, w)
  after_mark source p meta (none, w) = release source p (
      after_send (
        tools.send_response (record { upload_id = p.upload_id; user_id = p.user_id; meta = meta })
          w))

  abbrev pub after_upload : Source → Incoming L → UploadMeta → Result ℕ × W → TaskResult × W
  after_upload source p meta (err e, w) = (task_failed e, w)
  after_upload source p meta (ok (suc n), w) = (task_failed err_reflector, w)
  after_upload source p meta (ok zero, w) =
      after_mark source p meta
        (tools.mark_processed p.upload_id meta.sd_hash (tools.marshal meta) w)

  abbrev pub after_split :
      Source → Incoming L → LocalFile → FileInfo → Result StreamSource × W → TaskResult × W
  after_split source p file info (err e, w) = (task_failed e, w)
  after_split source p file info (ok stream, w) =
      after_upload source p (meta_of p.file_name info stream)
        (tools.upload file.name (tools.blobs_of file.name) p.file_name w)

  -- An analysis without info ends the task with the error beside it, and as done if there is none.
  abbrev pub after_analysis :
      Source → Incoming L → LocalFile → (Option FileInfo × Option Error) × W → TaskResult × W
  after_analysis source p file ((none, none), w) = (done, w)
  after_analysis source p file ((none, some e), w) = (task_failed e, w)
  after_analysis source p file ((some info, e), w) =
      after_split source p file info
        (tools.split file.name (tools.blobs_of file.name) p.file_name w)

  -- The deferred calls that follow a retrieval.
  abbrev pub tidy : LocalFile → TaskResult × W → TaskResult × W
  tidy file (r, w) = (
    r,
    drop_result
        (tools.cleanup file (drop_result (tools.remove_blobs (tools.blobs_of file.name) w))),
  )

  abbrev pub after_retrieval : Source → Incoming L → Result LocalFile × W → TaskResult × W
  after_retrieval source p (err e, w) = (task_failed e, w)
  after_retrieval source p (ok file, w) =
      tidy file (after_analysis source p file (tools.analyze file.name p.file_name w))

  abbrev pub process : Source → Incoming L → W → TaskResult × W
  process source p w = after_retrieval source p (tools.retrieve p.upload_id p.location w)

  -- HandleUpload, on the type of the task and its payload if that decodes.
  unfoldable pub handle_upload : String → Option (Incoming L) → W → TaskResult × W
  unfolding meta_of
  handle_upload task none w = (skip_retry, w)
  handle_upload task (some p) w =
      if task == "forklift:upload:incoming" then process from_uploads p w else (skip_retry, w)

  -- HandleURL
  unfoldable pub handle_url : String → Option (Incoming L) → W → TaskResult × W
  unfolding meta_of
  handle_url task none w = (skip_retry, w)
  handle_url task (some p) w =
      if task == "forklift:url:incoming" then process from_url p w else (skip_retry, w)
