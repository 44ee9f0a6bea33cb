-- ===== src/Forklift/Runs.antt =====
-- The order of the steps of a task.
use odysee_api.Base.{ℕ, zero, suc, Bool, true, false, Option, none, some, List, [], ◌∷◌, ◌++◌}
use odysee_api.Errors.{Error, Result, ok, err}
use odysee_api.AsyncQuery.{UploadMeta, TaskResult, done, task_failed}
use odysee_api.Forklift.{
  Tools, Incoming, LocalFile, FileInfo, StreamSource, from_uploads, release, after_send, after_mark,
  after_upload, after_split, after_analysis, after_retrieval, tidy, meta_of, handle_upload,
  err_reflector,
}

-- A call of a tool, and whether it went well.
pub data Event : Type 0 where
  retrieved analyzed split_done uploaded marked sent deleted blobs_removed cleaned : Bool → Event

abbrev well : {A : Type 0} → Result A → Bool
well (ok a) = true
well (err e) = false

abbrev clear : Option Error → Bool
clear none = true
clear (some e) = false

abbrev informed : Option FileInfo × Option Error → Bool
informed (none, e) = false
informed (some i, e) = true

abbrev all_taken : Result ℕ → Bool
all_taken (ok zero) = true
all_taken (ok (suc n)) = false
all_taken (err e) = false

-- The tools, with their calls logged.
abbrev pub logged : {L W : Type 0} → Tools L W → Tools L (W × List Event)
logged t = record {
  retrieve =
      λ u l v. let r = t.retrieve u l v.0 in (r.0, (r.1, v.1 ++ (retrieved (well r.0) ∷ [])));
  analyze =
      λ f n v. let r = t.analyze f n v.0 in (r.0, (r.1, v.1 ++ (analyzed (informed r.0) ∷ [])));
  split = λ f b n v. let r = t.split f b n v.0 in (r.0, (r.1, v.1 ++ (split_done (well r.0) ∷ [])));
  upload =
      λ f b n v. let r = t.upload f b n v.0 in (r.0, (r.1, v.1 ++ (uploaded (all_taken r.0) ∷ [])));
  marshal = t.marshal;
  mark_processed = λ u s m v.
      let r = t.mark_processed u s m v.0 in (r.0, (r.1, v.1 ++ (marked (clear r.0) ∷ [])));
  send_response =
      λ d v. let r = t.send_response d v.0 in (r.0, (r.1, v.1 ++ (sent (clear r.0) ∷ [])));
  delete_source =
      λ l v. let r = t.delete_source l v.0 in (r.0, (r.1, v.1 ++ (deleted (clear r.0) ∷ [])));
  remove_blobs =
      λ b v. let r = t.remove_blobs b v.0 in (r.0, (r.1, v.1 ++ (blobs_removed (clear r.0) ∷ [])));
  cleanup = λ f v. let r = t.cleanup f v.0 in (r.0, (r.1, v.1 ++ (cleaned (clear r.0) ∷ [])));
  blobs_of = t.blobs_of;
}

-- The runs that a task of an upload can take, from its last call backwards: a file that was
-- retrieved is tidied up, whatever happens; the upload's end is told only when all blobs were
-- taken and the upload is marked; and then, told or not, the uploaded file is deleted.
pub data IsRun : TaskResult → List Event → Type 0 where
  not_retrieved : (e : Error) → IsRun (task_failed e) (retrieved false ∷ [])
  not_analyzed :
      (e : Error) (b c : Bool)
      → IsRun (task_failed e) (retrieved true ∷ analyzed false ∷ blobs_removed b ∷ cleaned c ∷ [])
  -- an analysis that gave neither info nor an error
  empty_analysis :
      (b c : Bool) → IsRun done (retrieved true ∷ analyzed false ∷ blobs_removed b ∷ cleaned c ∷ [])
  not_split :
      (e : Error) (b c : Bool)
      → IsRun
          (task_failed e)
          (retrieved true ∷ analyzed true ∷ split_done false ∷ blobs_removed b ∷ cleaned c ∷ [])
  not_uploaded :
      (e : Error) (b c : Bool)
      → IsRun (task_failed e) (
          retrieved true
          ∷ analyzed true
          ∷ split_done true
          ∷ uploaded false
          ∷ blobs_removed b
          ∷ cleaned c
          ∷ [])
  not_marked :
      (e : Error) (b c : Bool)
      → IsRun (task_failed e) (
          retrieved true
          ∷ analyzed true
          ∷ split_done true
          ∷ uploaded true
          ∷ marked false
          ∷ blobs_removed b
          ∷ cleaned c
          ∷ [])
  not_sent :
      (e : Error) (d b c : Bool)
      → IsRun (task_failed e) (
          retrieved true
          ∷ analyzed true
          ∷ split_done true
          ∷ uploaded true
          ∷ marked true
          ∷ sent false
          ∷ deleted d
          ∷ blobs_removed b
          ∷ cleaned c
          ∷ [])
  finished :
      (d b c : Bool)
      → IsRun done (
          retrieved true
          ∷ analyzed true
          ∷ split_done true
          ∷ uploaded true
          ∷ marked true
          ∷ sent true
          ∷ deleted d
          ∷ blobs_removed b
          ∷ cleaned c
          ∷ [])

module _ {L W : Type 0} (t : Tools L W) (p : Incoming L) (file : LocalFile) where
  abbrev Outcome : Type 0
  Outcome = TaskResult × (W × List Event)

  abbrev IsTidied : Outcome → Type 0
  IsTidied o = IsRun (tidy (logged t) file o).0 (tidy (logged t) file o).1.1

  abbrev so_far : List Event
  so_far = retrieved true ∷ analyzed true ∷ split_done true ∷ uploaded true ∷ marked true ∷ []

  sent-IsRun :
      (r : Option Error × W)
      → IsTidied (
          release
            (logged t)
            from_uploads
            p
            (after_send (logged t) (r.0, (r.1, so_far ++ (sent (clear r.0) ∷ [])))))
  sent-IsRun (none, w) = finished _ _ _
  sent-IsRun (some e, w) = not_sent e _ _ _

  marked-IsRun :
      (meta : UploadMeta) (r : Option Error × W)
      → IsTidied (
          after_mark (logged t) from_uploads p meta (
            r.0,
            (
              r.1,
              retrieved true
                  ∷ analyzed true
                  ∷ split_done true
                  ∷ uploaded true
                  ∷ marked (clear r.0)
                  ∷ [],
            ),
          ))
  marked-IsRun meta (some e, w) = not_marked e _ _
  marked-IsRun meta (none, w) = sent-IsRun (t.send_response _ w)

  uploaded-IsRun :
      (meta : UploadMeta) (r : Result ℕ × W)
      → IsTidied (
          after_upload (logged t) from_uploads p meta (
            r.0,
            (r.1, retrieved true ∷ analyzed true ∷ split_done true ∷ uploaded (all_taken r.0) ∷ []),
          ))
  uploaded-IsRun meta (err e, w) = not_uploaded e _ _
  uploaded-IsRun meta (ok (suc n), w) = not_uploaded err_reflector _ _
  uploaded-IsRun meta (ok zero, w) = marked-IsRun meta (t.mark_processed _ _ _ w)

  split-IsRun :
      (info : FileInfo) (r : Result StreamSource × W)
      → IsTidied (
          after_split
            (logged t)
            from_uploads
            p
            file
            info
            (r.0, (r.1, retrieved true ∷ analyzed true ∷ split_done (well r.0) ∷ [])))
  split-IsRun info (err e, w) = not_split e _ _
  split-IsRun info (ok stream, w) =
      uploaded-IsRun (meta_of p.file_name info stream) (t.upload _ _ _ w)

  analyzed-IsRun :
      (r : (Option FileInfo × Option Error) × W)
      → IsTidied (
          after_analysis
            (logged t)
            from_uploads
            p
            file
            (r.0, (r.1, retrieved true ∷ analyzed (informed r.0) ∷ [])))
  analyzed-IsRun ((none, none), w) = empty_analysis _ _
  analyzed-IsRun ((none, some e), w) = not_analyzed e _ _
  analyzed-IsRun ((some info, e), w) = split-IsRun info (t.split _ _ _ w)

module _ {L W : Type 0} (t : Tools L W) (p : Incoming L) where
  retrieved-IsRun :
      (r : Result LocalFile × W)
      → let o = after_retrieval (logged t) from_uploads p (r.0, (r.1, retrieved (well r.0) ∷ [])) in
        IsRun o.0 o.1.1
  retrieved-IsRun (err e, w) = not_retrieved e
  retrieved-IsRun (ok file, w) = analyzed-IsRun t p file (t.analyze _ _ w)

  -- HandleUpload refines the abstract runs of a task: its calls come in their order, each only
  -- after the ones before it went well, the task is done only when all did, or when the analysis
  -- gave nothing and no error, and what was retrieved is always tidied up.
  pub handle_upload-IsRun :
      (w : W)
      → let o = handle_upload (logged t) "forklift:upload:incoming" (some p) (w, []) in
        IsRun o.0 o.1.1
  unfolding handle_upload
  handle_upload-IsRun w = retrieved-IsRun (t.retrieve _ _ w)
