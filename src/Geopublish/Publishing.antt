-- ===== src/Geopublish/Publishing.antt =====
-- Which uploads are handed over for processing.
use odysee_api.Base.{
  String, ◌≡◌, refl, true, Option, none, some, [], ◌∷◌, ◌++◌, arith, eqb_ℤ_iff, inl, inr, ◌⊎◌, ℤ,
  Dict,
}
use odysee_api.Errors.{Error, Result, ok}
use odysee_api.Rpc.{Request, Value, named}
use odysee_api.Wallet.{User}
use odysee_api.Auth.{CurrentUser}
use odysee_api.Geopublish.Table.{Task, World, Faults, Services, get, is_positive, int_of}
use odysee_api.Geopublish.Processing.{process_upload, mark_upload_failed}
use odysee_api.Geopublish.Files.{FileInfo, Files, rewritten}
use odysee_api.Geopublish.Notify.{notify}
use odysee_api.Geopublish.Handover.{IsReady, Notified, kept, handed, notify-Notified}

module _ {W : Type 0} (services : Services W) (faults : Faults) where
  -- A processing that sends a task sends it for the upload, the place and the request that it got,
  -- and where the user has an id, for that user.
  process_upload-tasks :
      (sent : Option Error) (id : String) (user : ℤ) (path : String) (req : Request) (w : World W)
      → is_positive user ≡ true
      → let task : Task = record { upload_id = id; path = path; user_id = user; request = req } in
        let after = (process_upload services faults sent id user path req w).1 in
        (after.tasks ≡ w.tasks) ⊎ (after.tasks ≡ w.tasks ++ (task ∷ []))
  unfolding process_upload get mark_upload_failed
  process_upload-tasks sent id user path req w h = ground (arith, eqb_ℤ_iff (int_of none) user)

-- The tasks are the same, or there is one more, as Notify sends it.
abbrev pub HandedOver :
    {W : Type 0}
    → Files W
    → CurrentUser
    → String
    → Result (Option Request)
    → World W
    → World W
    → Type 0
HandedOver files cu id body v w =
    (w.tasks ≡ v.tasks)
    ⊎ ((user : User) × (info : FileInfo) × (target : String) × (req : Request) × (params : Dict
          Value)
        × IsReady files cu id user info
        × (body ≡ ok (some req))
        × (req.params ≡ named params)
        × (w.tasks
            ≡ v.tasks
              ++ (record {
                upload_id = info.id;
                path = target;
                user_id = user.id;
                request = rewritten req params;
              }
                  ∷ [])))

module _ {W : Type 0} (services : Services W) (faults : Faults) (files : Files W)
    (sent : Option Error) (cu : CurrentUser) (id : String) (body : Result (Option Request))
    (v : World W) (positive : (u : User) → cu.user ≡ some u → is_positive u.id ≡ true) where
  Notified-HandedOver :
      (w : World W)
      → Notified services faults files sent cu id body v w
      → HandedOver files cu id body v w
  Notified-HandedOver w (kept f) = inl refl
  Notified-HandedOver w (handed user info target req params f g ready e b) =
      elim (process_upload-tasks services faults sent info.id user.id target (rewritten req params)
        (record v { files = f }) (positive user ready.authorized)) [
          | inl same ↦ inl same
          | inr more ↦ inr (user, info, target, req, params, ready, b, e, more)
        ]

  -- Notify leaves the tasks as they are, or sends one: for an upload that has all its bytes, in the
  -- name of the request's user, who has a server and was found without an error, and with the
  -- request of the body, rewritten. The ids of users are positive.
  pub handed_over : HandedOver files cu id body v (notify services faults files sent cu id body v).1
  handed_over = Notified-HandedOver _ (notify-Notified services faults files sent cu id body v)
