-- ===== src/Geopublish/Foreign.antt =====
-- A request to Notify for an upload of another user.
use Prim.Native.String
use odysee_api.Base.{
  String, ◌≡◌, ◌≢◌, true, false, Option, none, some, [], ◌∷◌, arith, eq_iff, eqb_ℤ_iff, ℤ, Dict,
  lookup,
}
use odysee_api.Errors.{Error, sentinel, no_rows, ok}
use odysee_api.Rpc.{Request, Value, named}
use odysee_api.SdkRouter.{get_sdk_address}
use odysee_api.Wallet.{User}
use odysee_api.Auth.{CurrentUser}
use odysee_api.Proxy.{get_auth_error}
use odysee_api.Geopublish.Table.{Upload, World, Faults, Services, get, is_positive}
use odysee_api.Geopublish.Processing.{process_upload}
use odysee_api.Geopublish.Files.{FileInfo, Files, target_dir, refused, rewritten}
use odysee_api.Geopublish.Notify.{has_none, lock_upload, notify}

-- A request of a user with a server, on its way through the store: every call of it succeeds.
pub record IsForeign {W : Type 0} (services : Services W) (faults : Faults) (files : Files W)
    (v : World W) (cu : CurrentUser) (id : String) (user : User) (info : FileInfo) (u : Upload)
    (owner : ℤ) (name path : String) (f g h : W) (req : Request) (params : Dict Value)
    : Type 0 where
  pub authorized : cu.user ≡ some user
  pub no_error : cu.error ≡ none
  pub is_user : is_positive user.id ≡ true
  pub has_server : get_sdk_address user.server ≢ ""
  pub has_id : id ≢ ""
  pub locks : lock_upload services faults files id v.files ≡ (none, f)
  pub gets : files.get_upload id f ≡ (none, g)
  pub reads : files.get_info id g ≡ (ok info, h)
  pub complete : info.offset ≡ info.size
  pub has_metadata : has_none services faults files info.metadata ≡ false
  pub has_name : lookup "filename" info.metadata ≡ some name
  pub named_file : name ≢ ""
  pub has_path : lookup "Path" info.storage ≡ some path
  pub named_path : path ≢ ""
  pub has_params : req.params ≡ named params
  pub row : lookup info.id v.uploads ≡ some u
  pub owns : u.user_id ≡ some owner
  pub other_user : owner ≢ user.id
  pub select_works : faults.select ≡ none

module _ {W : Type 0} (services : Services W) (faults : Faults) (files : Files W) (v : World W)
    (sent : Option Error) (cu : CurrentUser) (id : String) (user : User) (info : FileInfo)
    (u : Upload) (owner : ℤ) (name path : String) (f g h k l : W) (req : Request)
    (params : Dict Value)
    (p : IsForeign services faults files v cu id user info u owner name path f g h req params) where
  abbrev directory : String
  directory = target_dir files user info path

  abbrev info_file : String
  info_file = String.◌++◌ (files.join (files.dir path ∷ info.id ∷ [])) ".info"

  process-refuses :
      (target : String) (x : W)
      → process_upload services faults sent info.id user.id target
          (rewritten req params)
          (record v { files = x })
        ≡ (some (sentinel no_rows), record v { files = x })
  unfolding process_upload get
  process-refuses target x =
      ground (arith, p.row, p.owns, p.select_works, p.other_user, eqb_ℤ_iff owner user.id)

  -- A request for an upload of another user is refused, with the tables and tasks as they were; but
  -- by then, if the file system takes it, the upload's file has been moved to the directory of the
  -- user of the request, and the file with its information has been removed.
  pub foreign_file_taken :
      files.mkdir_all directory h ≡ (none, k)
      → files.rename path (files.join (directory ∷ name ∷ [])) k ≡ (none, l)
      → notify services faults files sent cu id (ok (some req)) v ≡ (
        refused (sentinel no_rows),
        record v { files = files.unlock id (files.remove info_file l).1 },
      )
  unfolding notify get_auth_error
  foreign_file_taken made moved = ground (
    arith,
    process-refuses (files.join (directory ∷ name ∷ [])) (files.remove info_file l).1,
    eq_iff (get_sdk_address user.server) "",
    eq_iff id "",
    eq_iff name "",
    eq_iff path "",
  )
