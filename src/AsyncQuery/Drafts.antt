-- ===== src/AsyncQuery/Drafts.antt =====
-- Which queries run, over every sequence of calls, ends of uploads and tasks.
use odysee_api.Base.{ℕ, String, ◌≡◌, Option, some, inl, ℤ, All-get_elem?, get_elem?}
use odysee_api.Errors.{Error}
use odysee_api.Rpc.{Request}
use odysee_api.AsyncQuery.{
  Codec, Faults, QueryTask, Services, World, UploadDone, call, handle_merge, handle_query,
}
use odysee_api.AsyncQuery.Sound.{IsSound, IsTaskReady}
use odysee_api.AsyncQuery.Intake.{call-IsSound, call-sdk}
use odysee_api.AsyncQuery.Ran.{
  RanReady, handle_merge-IsSound, handle_merge-RanReady, handle_query-IsSound,
  handle_query-RanReady,
}

module _ {W : Type 0} (codec : Codec) (services : Services W) where
  -- One step of the program: a call, a task of an upload that is done, or a task of the queue,
  -- which may come any number of times and in any order; with any errors of the database.
  pub data Step : World W → World W → Type 0 where
    calls :
        (faults : Faults) (taken : Error) (now : ℕ) (send : Option Error) (user : ℤ) (req : Request)
        (w : World W)
        → Step w (call codec faults taken now send user req w).1
    merges :
        (faults : Faults) (name : String) (payload : Option UploadDone) (w : World W)
        → Step w (handle_merge codec faults services name payload w).1
    queries :
        (faults : Faults) (name : String) (i : ℕ) (task : QueryTask) (w : World W)
        → get_elem? w.queued i ≡ some task
        → Step w (handle_query codec faults services name (some task) w).1

  pub data Reach (start : World W) : World W → Type 0 where
    here : Reach start start
    next : {v w : World W} → Reach start v → Step v w → Reach start w

  Step-IsSound : {v w : World W} → Step v w → IsSound v → IsSound w
  Step-IsSound (calls faults taken now send user req w) s =
      call-IsSound codec faults taken now send user req w s
  Step-IsSound (merges faults name payload w) s =
      handle_merge-IsSound codec faults services name payload w s
  Step-IsSound (queries faults name i task w h) s =
      handle_query-IsSound codec faults services name (some task) w s

  Step-RanReady :
      {v w : World W} → Step v w → IsSound v → RanReady codec services v.rows v.sdk w.sdk
  Step-RanReady (calls faults taken now send user req w) s =
      inl (call-sdk codec faults taken now send user req w)
  Step-RanReady (merges faults name payload w) s =
      handle_merge-RanReady codec faults services name payload w s
  Step-RanReady (queries faults name i task w h) s =
      handle_query-RanReady codec faults services name task w s
        (All-get_elem? (IsTaskReady w.rows) w.queued i task s.tasks_ready h)

  -- Whatever calls, ends of uploads and tasks come, in whatever order and however often, and
  -- whatever errors the database gives: ids of rows stay distinct, and every task that was sent
  -- names a row that is ready.
  pub Reach-IsSound : {v w : World W} → IsSound v → Reach v w → IsSound w
  Reach-IsSound s here = s
  Reach-IsSound s (next r step) = Step-IsSound step (Reach-IsSound s r)

  -- From a world in which the tasks name ready rows with distinct ids, a draft never runs: a step
  -- from a world that can be reached leaves the SDK as it was, or makes one call of it, for a row
  -- of the table that is ready, with the row's request, from the row's user and at the server of
  -- that user.
  pub draft_never_runs :
      {start v w : World W}
      → IsSound start
      → Reach start v
      → Step v w
      → RanReady codec services v.rows v.sdk w.sdk
  draft_never_runs s r step = Step-RanReady step (Reach-IsSound s r)
