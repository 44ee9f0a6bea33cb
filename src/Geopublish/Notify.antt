-- ===== src/Geopublish/Notify.antt =====
-- app/geopublish/geopublish.go: Notify, which hands a complete upload over for processing. The lock,
-- the upload store and the file system are the record `Files` of Geopublish/Files; metrics and logs
-- are left out.
use Prim.Native.String
use odysee_api.Base.{
  String, Bool, true, false, not, Option, none, some, [], ◌∷◌, ◌==◌, if◌then◌else◌, eqb, Dict,
  lookup,
}
use odysee_api.Errors.{Error, plain, Result, ok, err, err_text}
use odysee_api.Rpc.{Request, named, new_invalid_params_error, new_json_parse_error}
use odysee_api.SdkRouter.{get_sdk_address}
use odysee_api.Wallet.{User}
use odysee_api.Auth.{CurrentUser}
use odysee_api.Proxy.{get_auth_error}
use odysee_api.Geopublish.Table.{World, Faults, Services}
use odysee_api.Geopublish.Processing.{process_upload}
use odysee_api.Geopublish.Status.{reply}
use odysee_api.Geopublish.Files.{
  FileInfo, Files, Answer, replied, panicked, refused, nil_error, rewritten, target_dir, on_files,
}

module _ {W : Type 0} (services : Services W) (faults : Faults) (files : Files W) where
  abbrev pub accepted : Option Error × World W → Answer × World W
  accepted (none, w) = (replied (reply 202), w)
  accepted (some e, w) = (refused e, w)

  -- The removal of the file with the information, whose error is logged, and the processing.
  abbrev pub hand_over :
      Option Error → User → FileInfo → String → String → Request → World W → Answer × World W
  hand_over sent user info path target req w = accepted (
      process_upload services faults sent info.id user.id target req
        (on_files w (
          files.remove (String.◌++◌ (files.join (files.dir path ∷ info.id ∷ [])) ".info")
            w.files)).1)

  abbrev pub on_request :
      Option Error
      → User
      → FileInfo
      → String
      → String
      → World W
      → Result (Option Request)
      → Answer × World W
  on_request sent user info path target w (err e) = (refused (new_json_parse_error e), w)
  on_request sent user info path target w (ok none) = (panicked, w)
  on_request sent user info path target w (ok (some req)) = elim req.params [
    | named params ↦ hand_over sent user info path target (rewritten req params) w
    | _ ↦ (refused (new_invalid_params_error (plain "cannot parse params")), w)
  ]

  abbrev pub after_rename :
      Option Error
      → User
      → FileInfo
      → String
      → String
      → Result (Option Request)
      → Option Error × World W
      → Answer × World W
  after_rename sent user info path target body (some e, w) = (refused e, w)
  after_rename sent user info path target body (none, w) =
      on_request sent user info path target w body

  abbrev pub after_mkdir :
      Option Error
      → User
      → FileInfo
      → String
      → String
      → Result (Option Request)
      → Option Error × World W
      → Answer × World W
  after_mkdir sent user info path target body (some e, w) = (refused e, w)
  after_mkdir sent user info path target body (none, w) =
      after_rename sent user info path target body (on_files w (files.rename path target w.files))

  abbrev pub move_file :
      Option Error
      → User
      → FileInfo
      → String
      → String
      → Result (Option Request)
      → World W
      → Answer × World W
  move_file sent user info name path body w =
      after_mkdir sent user info path (files.join (target_dir files user info path ∷ name ∷ []))
        body (on_files w (files.mkdir_all (target_dir files user info path) w.files))

  -- The name that the client gave, and the place of the file.
  abbrev pub with_path :
      Option Error
      → User
      → FileInfo
      → String
      → Result (Option Request)
      → World W
      → Option String
      → Answer × World W
  with_path sent user info name body w none = (nil_error, w)
  with_path sent user info name body w (some path) =
      if path == "" then (nil_error, w) else move_file sent user info name path body w

  abbrev pub with_name :
      Option Error
      → User
      → FileInfo
      → Result (Option Request)
      → World W
      → Option String
      → Answer × World W
  with_name sent user info body w none = (refused (plain "file name is required"), w)
  with_name sent user info body w (some name) =
      if name == ""
      then (refused (plain "file name is required"), w)
      else with_path sent user info name body w (lookup "Path" info.storage)

  abbrev pub has_none : Dict String → Bool
  has_none [] = true
  has_none _ = false

  abbrev pub on_info :
      Option Error → User → Result (Option Request) → World W → Result FileInfo → Answer × World W
  on_info sent user body w (err e) = (refused e, w)
  on_info sent user body w (ok info) =
      if not (eqb info.offset info.size)
      then (refused (plain "upload is still in process"), w)
      else if has_none info.metadata
      then (refused (plain "file metadata is required"), w)
      else with_name sent user info body w (lookup "filename" info.metadata)

  abbrev pub read_info :
      Option Error
      → User
      → Result (Option Request)
      → World W
      → Result FileInfo × W
      → Answer × World W
  read_info sent user body w (r, f) = on_info sent user body (record w { files = f }) r

  abbrev pub with_upload :
      Option Error
      → User
      → String
      → Result (Option Request)
      → Option Error × World W
      → Answer × World W
  with_upload sent user id body (some e, w) = (refused e, w)
  with_upload sent user id body (none, w) = read_info sent user body w (files.get_info id w.files)

  abbrev pub unlocked : String → Answer × World W → Answer × World W
  unlocked id (a, w) = (a, record w { files = files.unlock id w.files })

  -- The part under the lock.
  abbrev pub with_lock :
      Option Error
      → User
      → String
      → Result (Option Request)
      → Option Error × World W
      → Answer × World W
  with_lock sent user id body (some e, w) = (refused e, w)
  with_lock sent user id body (none, w) =
      unlocked id (with_upload sent user id body (on_files w (files.get_upload id w.files)))

  -- lockUpload
  abbrev pub lock_made : String → Option Error × W → Option Error × W
  lock_made id (some e, f) = (some e, f)
  lock_made id (none, f) = files.lock id f

  abbrev pub lock_upload : String → W → Option Error × W
  lock_upload id f = lock_made id (files.new_lock id f)

  abbrev pub notify_user :
      Option Error → String → Result (Option Request) → World W → User → Answer × World W
  notify_user sent id body w user =
      if get_sdk_address user.server == ""
      then (refused (err_text "user does not have sdk address assigned"), w)
      else if id == ""
      then (refused (new_invalid_params_error (plain "file id is required")), w)
      else with_lock sent user id body (on_files w (lock_upload id w.files))

  abbrev pub notify_authorized :
      Option Error
      → String
      → Result (Option Request)
      → World W
      → Option User
      → Option Error
      → Answer × World W
  notify_authorized sent id body w user (some e) = (refused e, w)
  notify_authorized sent id body w none none = (panicked, w)
  notify_authorized sent id body w (some user) none = notify_user sent id body w user

  -- Notify, for the user of the request, the id in its path and what its body decodes to: a request,
  -- or nil for the JSON text `null`. `sent` is the error of the queue, where it gives one.
  unfoldable pub notify :
      Option Error → CurrentUser → String → Result (Option Request) → World W → Answer × World W
  unfolding get_auth_error get_sdk_address rewritten process_upload
  notify sent cu id body w =
      notify_authorized sent id body w cu.user (get_auth_error cu.user cu.error)
