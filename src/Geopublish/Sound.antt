-- ===== src/Geopublish/Sound.antt =====
-- Over every sequence of events, processings and results: which tasks are sent.
use odysee_api.Base.{
  String, ◌≡◌, ◌≢◌, true, Option, List, [], ◌∷◌, ◌++◌, ℤ, Dict, contains, All, All-append, All-map,
}
use odysee_api.Errors.{Error, Result}
use odysee_api.Rpc.{Request, Response}
use odysee_api.Geopublish.Table.{
  Upload, PublishQuery, Task, World, Faults, Services, Event, guard_user,
}
use odysee_api.Auth.{CurrentUser}
use odysee_api.Geopublish.Files.{Files, rewritten}
use odysee_api.Geopublish.Notify.{notify}
use odysee_api.Geopublish.Handover.{Notified, kept, handed, notify-Notified}
use odysee_api.Geopublish.Processing.{save_upload_processing_result}
use odysee_api.Geopublish.Advance.{Extends, IsTask, Advance, extended, sent, guard_user-Advance}
use odysee_api.Geopublish.Sends.{process_upload-Advance, save-Advance}

-- No two tasks are for one upload.
abbrev pub HasDistinctTasks : List Task → Type 0
HasDistinctTasks [] = Unit {0}
HasDistinctTasks (t ∷ ts) = All (λ s. t.upload_id ≢ s.upload_id) ts × HasDistinctTasks ts

-- Every task is for another upload, which belongs to the task's user and has a publish query.
pub record IsSound {W : Type 0} (w : World W) : Type 0 where
  pub tasks_named : All (IsTask w.uploads w.queries) w.tasks
  pub tasks_distinct : HasDistinctTasks w.tasks

IsTask-Extends :
    {us vs : Dict Upload} {ps qs : Dict PublishQuery}
    → Extends us vs ps qs
    → (t : Task) → IsTask us ps t
    → IsTask vs qs t
IsTask-Extends x t (o, q) = (x.owners t.upload_id t.user_id o, x.queries t.upload_id q)

HasDistinctTasks-append :
    (ts : List Task) (t : Task)
    → All (λ s. s.upload_id ≢ t.upload_id) ts
    → HasDistinctTasks ts
    → HasDistinctTasks (ts ++ (t ∷ []))
HasDistinctTasks-append [] t h d = (tt, tt)
HasDistinctTasks-append (s ∷ ts) t (n, h) (m, d) = (
  All-append (λ x. s.upload_id ≢ x.upload_id) ts (t ∷ []) m (n, tt),
  HasDistinctTasks-append ts t h d,
)

Advance-IsSound : {W : Type 0} (v w : World W) → Advance v w → IsSound v → IsSound w
Advance-IsSound v w (extended x same) s = record {
  tasks_named = rw same (All-map _ _ v.tasks (IsTask-Extends x) s.tasks_named);
  tasks_distinct = rw same s.tasks_distinct;
}
Advance-IsSound v w (sent t x same fresh task) s = record {
  tasks_named = rw same (
      All-append (IsTask w.uploads w.queries) v.tasks (t ∷ [])
        (All-map _ _ v.tasks (IsTask-Extends x) s.tasks_named) (task, tt));
  tasks_distinct = rw same (
      HasDistinctTasks-append v.tasks t
        (All-map (IsTask v.uploads v.queries) (λ r. r.upload_id ≢ t.upload_id) v.tasks
          (λ r h e. other r h.1 e) s.tasks_named)
        s.tasks_distinct);
}
  where
    other : (r : Task) → contains r.upload_id v.queries ≡ true → r.upload_id ≡ t.upload_id → ⊥
    other r h e = (let k : contains t.upload_id v.queries ≡ true = rw (← e) h in cc)

module _ {W : Type 0} (services : Services W) (files : Files W) where
  -- One step of the program: an event of the upload handler, a request to Notify, or the result of
  -- a task, with any errors of the database and the queue, from any user and in any order.
  pub data Step : World W → World W → Type 0 where
    events :
        (faults : Faults) (user : Result ℤ) (e : Event) (w : World W)
        → Step w (guard_user services faults user e w).1
    notifies :
        (faults : Faults) (e : Option Error) (cu : CurrentUser) (id : String)
        (body : Result (Option Request)) (w : World W)
        → Step w (notify services faults files e cu id body w).1
    results :
        (faults : Faults) (id : String) (res : Option Response) (call_err : String) (w : World W)
        → Step w (save_upload_processing_result services faults id res call_err w).1

  pub data Reach (start : World W) : World W → Type 0 where
    here : Reach start start
    next : {v w : World W} → Reach start v → Step v w → Reach start w

  Notified-IsSound :
      (faults : Faults) (e : Option Error) (cu : CurrentUser) (id : String)
      (body : Result (Option Request)) (v w : World W)
      → Notified services faults files e cu id body v w
      → IsSound v
      → IsSound w
  Notified-IsSound faults e cu id body v w (kept f) s = record {
    tasks_named = s.tasks_named;
    tasks_distinct = s.tasks_distinct;
  }
  Notified-IsSound faults e cu id body v w (handed user info target req params f g ready p b) s =
      let processed =
        Advance-IsSound (record v { files = f }) _
          (process_upload-Advance services faults e info.id user.id target (rewritten req params)
            (record v { files = f }))
          (record { tasks_named = s.tasks_named; tasks_distinct = s.tasks_distinct }) in
      record { tasks_named = processed.tasks_named; tasks_distinct = processed.tasks_distinct }

  Step-IsSound : {v w : World W} → Step v w → IsSound v → IsSound w
  Step-IsSound (events faults user e w) =
      Advance-IsSound w _ (guard_user-Advance services faults user e w)
  Step-IsSound (notifies faults e cu id body w) =
      Notified-IsSound faults e cu id body w _
        (notify-Notified services faults files e cu id body w)
  Step-IsSound (results faults id res call_err w) =
      Advance-IsSound w _ (save-Advance services faults id res call_err w)

  -- Whatever events, requests and results come, in whatever order and with whatever errors of the
  -- database and the queue: no two tasks that were sent are for one upload, and every one is for an
  -- upload of the task's user that has a publish query; if so at the start.
  pub published_once : {v w : World W} → IsSound v → Reach v w → IsSound w
  published_once s here = s
  published_once s (next r step) = Step-IsSound step (published_once s r)
