-- ===== src/Geopublish/Handover.antt =====
-- What a request to Notify can do: which uploads it hands over for processing.
use odysee_api.Base.{
  String, ◌≡◌, ◌≢◌, refl, Option, none, some, arith, ◌==◌, eqb, eq_iff, Bool-cases, inl, inr, Dict,
  lookup,
}
use odysee_api.Errors.{Error, plain, Result, ok, err}
use odysee_api.Rpc.{Request, Value, named, absent, other, Params, new_invalid_params_error}
use odysee_api.SdkRouter.{get_sdk_address}
use odysee_api.Wallet.{User}
use odysee_api.Auth.{CurrentUser}
use odysee_api.Proxy.{get_auth_error}
use odysee_api.Geopublish.Table.{World, Faults, Services}
use odysee_api.Geopublish.Processing.{process_upload}
use odysee_api.Geopublish.Files.{FileInfo, Files, Answer, rewritten, refused, on_files}
use odysee_api.Geopublish.Notify.{
  accepted, hand_over, on_request, after_rename, after_mkdir, with_path, with_name, has_none,
  on_info, with_upload, unlocked, with_lock, lock_upload, notify_user, notify_authorized, notify,
}

-- The request comes from a user with a server, and the upload that it names has all its bytes.
pub record IsReady {W : Type 0} (files : Files W) (cu : CurrentUser) (id : String) (user : User)
    (info : FileInfo) : Type 0 where
  pub authorized : cu.user ≡ some user
  pub no_error : cu.error ≡ none
  pub has_server : get_sdk_address user.server ≢ ""
  pub looked_up : W
  pub found_info : (files.get_info id looked_up).0 ≡ ok info
  pub complete : info.offset ≡ info.size

module _ {W : Type 0} (services : Services W) (faults : Faults) (files : Files W)
    (sent : Option Error) (cu : CurrentUser) (id : String) (body : Result (Option Request))
    (v : World W) where
  -- Only the files have changed; or a complete upload was given to the processing.
  pub data Notified : World W → Type 0 where
    kept : (f : W) → Notified (record v { files = f })
    handed :
        (user : User) (info : FileInfo) (target : String) (req : Request) (params : Dict Value)
        (f g : W)
        → IsReady files cu id user info
        → req.params ≡ named params
        → body ≡ ok (some req)
        → Notified
            (record (process_upload services faults sent info.id user.id target
              (rewritten req params)
              (record v { files = f })).1 { files = g })

  module _ (user : User) (info : FileInfo) (ready : IsReady files cu id user info) where
    accepted-world : (r : Option Error × World W) → (accepted services faults files r).1 ≡ r.1
    accepted-world (none, w) = refl
    accepted-world (some e, w) = refl

    -- The world in which only the files have changed.
    abbrev at : W → World W
    at f = record v { files = f }

    on_params :
        (path target : String) (req : Request) (p : Params) (f : W)
        → req.params ≡ p
        → body ≡ ok (some req)
        → Notified (
            (elim p as (λ x. Answer × World W) [
              | named params ↦
                  hand_over services faults files sent user info path target
                    (rewritten req params)
                    (at f)
              | _ ↦ (refused (new_invalid_params_error (plain "cannot parse params")), at f)
            ]).1)
    on_params path target req (named params) f e b =
        rw (accepted-world _) (handed user info target req params _ _ ready e b)
    on_params path target req absent f e b = kept f
    on_params path target req (other x) f e b = kept f

    on_request-Notified :
        (path target : String) (f : W) (r : Result (Option Request))
        → body ≡ r
        → Notified (on_request services faults files sent user info path target (at f) r).1
    on_request-Notified path target f (err e) b = kept f
    on_request-Notified path target f (ok none) b = kept f
    on_request-Notified path target f (ok (some req)) b =
        on_params path target req req.params f refl b

    after_rename-Notified :
        (path target : String) (f : W) (e : Option Error)
        → Notified (after_rename services faults files sent user info path target body (e, at f)).1
    after_rename-Notified path target f (some e) = kept f
    after_rename-Notified path target f none = on_request-Notified path target f body refl

    after_mkdir-Notified :
        (path target : String) (f : W) (e : Option Error)
        → Notified (after_mkdir services faults files sent user info path target body (e, at f)).1
    after_mkdir-Notified path target f (some e) = kept f
    after_mkdir-Notified path target f none =
        after_rename-Notified path target (files.rename path target f).1
          (files.rename path target f).0

    with_path-Notified :
        (name : String) (f : W) (o : Option String)
        → Notified (with_path services faults files sent user info name body (at f) o).1
    with_path-Notified name f none = kept f
    with_path-Notified name f (some path) = elim (Bool-cases (path == "")) [
      | inl empty ↦ rw empty (kept f)
      | inr there ↦ rw there (after_mkdir-Notified path _ _ _)
    ]

    with_name-Notified :
        (f : W) (o : Option String)
        → Notified (with_name services faults files sent user info body (at f) o).1
    with_name-Notified f none = kept f
    with_name-Notified f (some name) = elim (Bool-cases (name == "")) [
      | inl empty ↦ rw empty (kept f)
      | inr there ↦ rw there (with_path-Notified name f (lookup "Path" info.storage))
    ]

  module _ (user : User) (authorized : cu.user ≡ some user) (no_error : cu.error ≡ none) where
    on_info-Notified :
        (f g : W) (r : Result FileInfo)
        → get_sdk_address user.server ≢ ""
        → (files.get_info id f).0 ≡ r
        → Notified (on_info services faults files sent user body (record v { files = g }) r).1
    on_info-Notified f g (err e) has_server h = kept g
    on_info-Notified f g (ok info) has_server h = elim (Bool-cases (eqb info.offset info.size)) [
      | inl all ↦ elim (Bool-cases (has_none services faults files info.metadata)) [
        | inl empty ↦ rw (all, empty) (kept g)
        | inr there ↦
            rw (all, there)
              (with_name-Notified user info
                (record {
                  authorized = authorized;
                  no_error = no_error;
                  has_server = has_server;
                  looked_up = f;
                  found_info = h;
                  complete = ground arith;
                })
                g (lookup "filename" info.metadata))
      ]
      | inr part ↦ rw part (kept g)
    ]

    with_upload-Notified :
        (f : W) (e : Option Error)
        → get_sdk_address user.server ≢ ""
        → Notified
            (with_upload services faults files sent user id body (e, record v { files = f })).1
    with_upload-Notified f (some e) s = kept f
    with_upload-Notified f none s =
        on_info-Notified f (files.get_info id f).1 (files.get_info id f).0 s refl

    unlocked-Notified :
        (r : Answer × World W) → Notified r.1 → Notified (unlocked services faults files id r).1
    unlocked-Notified (a, w) (kept f) = kept _
    unlocked-Notified (a, w) (handed u i t r p f g ready e b) = handed u i t r p f _ ready e b

    notify_user-Notified : Notified (notify_user services faults files sent id body v user).1
    notify_user-Notified = elim (Bool-cases (get_sdk_address user.server == "")) [
      | inl missing ↦ rw missing (kept v.files)
      | inr there ↦ elim (Bool-cases (id == "")) [
        | inl empty ↦ rw (there, empty) (kept v.files)
        | inr named_id ↦
            rw (there, named_id)
              (on_lock (λ e. ground (arith, eq_iff (get_sdk_address user.server) ""))
                (lock_upload services faults files id v.files))
      ]
    ]
      where
        on_lock :
            get_sdk_address user.server ≢ ""
            → (r : Option Error × W)
            → Notified (with_lock services faults files sent user id body (on_files v r)).1
        on_lock s (some e, f) = kept f
        on_lock s (none, f) =
            unlocked-Notified
              (with_upload services faults files sent user id body
                (on_files (record v { files = f }) (files.get_upload id f)))
              (with_upload-Notified (files.get_upload id f).1 (files.get_upload id f).0 s)

  pub notify-Notified : Notified (notify services faults files sent cu id body v).1
  unfolding notify get_auth_error
  notify-Notified = on_user cu.user cu.error refl refl
    where
      on_user :
          (u : Option User) (e : Option Error)
          → cu.user ≡ u
          → cu.error ≡ e
          → Notified
              (notify_authorized services faults files sent id body v u (get_auth_error u e)).1
      on_user none none h k = kept v.files
      on_user none (some e) h k = kept v.files
      on_user (some u) (some e) h k = kept v.files
      on_user (some u) none h k = notify_user-Notified u h k
