-- ===== src/AsyncQuery/Orders.antt =====
-- The two orders of a commit and the end of its upload.
use odysee_api.Base.{
  ℕ, String, ◌≡◌, refl, ap, ◌∙◌, true, false, none, some, List, [], ◌∷◌, ◌++◌, arith, delete, Dict,
  eq_refl, eqb_ℤ_iff,
}
use odysee_api.Errors.{Error}
use odysee_api.Rpc.{Request, Value, named}
use odysee_api.AsyncQuery.{
  Asynquery, Codec, UploadDone, Services, World, no_faults, newest, is_upload, has_id, save,
  committed, with_file, call, call_params, call_with_path, enqueue_if, call_upload_tx, handle_merge,
  after_merge, handle_query, run_query, get_query_record, robust_call, call_at_server, send_request,
  send_params, after_call, after_response, finalize_query_record, by_id, matches, done,
  build_patch_from_meta, sent_params,
}
use odysee_api.AsyncQuery.Table.{newest-save, newest-test, newest-id, newest-matches, newest-by_id}
use odysee_api.AsyncQuery.Pending.{
  sent_request, Commit, IsPending, task_for, commit, upload_done, run_task, call_upload_tx-draft,
  handle_merge_tx-draft, handle_merge_tx-ready,
}

module _ {W : Type 0} (codec : Codec) (services : Services W) where
  -- A run depends on the id, the user and the body of the row alone, where the row is there.
  robust_call-agrees :
      (a b : Asynquery) (patch : Dict Value) (v w : World W) (c d : Asynquery)
      → a.id ≡ b.id
      → a.user_id ≡ b.user_id
      → a.body ≡ b.body
      → v.sdk ≡ w.sdk
      → newest (matches (by_id a.id)) v.rows ≡ some c
      → newest (matches (by_id a.id)) w.rows ≡ some d
      → let x = robust_call codec no_faults services a patch v in
        let y = robust_call codec no_faults services b patch w in (x.0 ≡ y.0) × (x.1.sdk ≡ y.1.sdk)
  unfolding robust_call call_at_server send_request send_params after_call after_response
      finalize_query_record get_query_record
  robust_call-agrees a b patch v w c d i u t s m n = ground (arith, m, n)

  -- A run of a query that its user has a server for, and whose request is read with parameters, is
  -- one call.
  robust_call-calls :
      (a : Asynquery) (patch : Dict Value) (v : World W) (address : String) (req : Request)
      (params : Dict Value)
      → services.server_of a.user_id ≡ some (some address)
      → codec.unmarshal_request a.body ≡ some req
      → req.params ≡ named params
      → (robust_call codec no_faults services a patch v).1.sdk
        ≡ (services.call address a.user_id
            (record req { params = named (sent_params req.method patch params) })
            v.sdk).1
  unfolding robust_call call_at_server send_request send_params after_call after_response
  robust_call-calls a patch v address req params s r n = ground (arith, s, r, n)

module _ {W : Type 0} (codec : Codec) (services : Services W) (taken : Error) (now : ℕ)
    (w : World W) (c : Commit) (finished : UploadDone) (draft : Asynquery)
    (p : IsPending codec w.rows c finished draft) where
  draft_test : is_upload finished.upload_id finished.user_id draft ≡ true
  draft_test = newest-test _ draft w.rows p.is_newest

  abbrev with_meta : Asynquery
  with_meta = with_file draft c.stored_meta

  call-uploads :
      (v : World W)
      → call codec no_faults taken now none finished.user_id c.request v
        ≡ enqueue_if codec no_faults taken now none finished.user_id v (
            call_upload_tx codec no_faults taken now finished.user_id finished.upload_id false
              (record c.request { params = named (delete "_defer" c.params) })
              v.rows)
  unfolding call call_params call_with_path
  call-uploads v =
      ap (call_params codec no_faults taken now none finished.user_id c.request v) p.has_params
      ∙ rw (p.not_deferred, p.has_path, p.path_upload) refl

  -- A commit of a draft whose file is not there sends no task.
  commit-waits :
      commit codec services taken now c finished w
      ≡ record w { rows = save (committed draft c.body) w.rows }
  unfolding commit
  commit-waits =
      ap (λ x. x.1) (call-uploads w)
      ∙ rw
          (
            call_upload_tx-draft codec w.rows draft taken now finished.user_id finished.upload_id
                c.body _ p.is_newest p.waits p.not_ready p.writes_body,
            p.no_file,
          )
          refl

  -- The end of an upload whose query is a draft runs nothing.
  upload_done-waits :
      upload_done codec services taken now finished w
      ≡ (done, record w { rows = save with_meta w.rows })
  unfolding upload_done handle_merge after_merge
  upload_done-waits =
      rw
        (handle_merge_tx-draft codec w.rows draft finished c.stored_meta p.is_newest p.not_ready
          p.writes_meta)
        refl

  newest-committed :
      newest (is_upload finished.upload_id finished.user_id) (save (committed draft c.body) w.rows)
      ≡ some (committed draft c.body)
  newest-committed = newest-save _ draft (committed draft c.body) w.rows p.is_newest refl draft_test

  newest-with_meta :
      newest (is_upload finished.upload_id finished.user_id) (save with_meta w.rows)
      ≡ some with_meta
  newest-with_meta = newest-save _ draft with_meta w.rows p.is_newest refl draft_test

  draft_id : newest (has_id draft.id) w.rows ≡ some draft
  draft_id = newest-id _ draft w.rows p.distinct p.is_newest

  -- The upload's end runs the committed query.
  upload_done-runs :
      upload_done codec services taken now finished
        (record w { rows = save (committed draft c.body) w.rows })
      ≡ robust_call codec no_faults services
          (committed draft c.body)
          (build_patch_from_meta finished.meta)
          (record w { rows = save (committed draft c.body) w.rows })
  unfolding upload_done handle_merge after_merge
  upload_done-runs =
      rw
        (handle_merge_tx-ready codec _ (committed draft c.body) finished newest-committed refl
          p.waits)
        refl

  -- The commit after the upload's end sends a task.
  commit-sends :
      commit codec services taken now c finished (record w { rows = save with_meta w.rows })
      ≡ record w {
        rows = save (committed with_meta c.body) (save with_meta w.rows);
        queued = w.queued ++ (task_for draft finished.user_id ∷ []);
      }
  unfolding commit
  commit-sends =
      ap (λ x. x.1) (call-uploads (record w { rows = save with_meta w.rows }))
      ∙ rw
          (call_upload_tx-draft codec (save with_meta w.rows) with_meta taken now finished.user_id
            finished.upload_id c.body _ newest-with_meta p.waits p.not_ready p.writes_body)
          refl

  -- The task runs the committed query with the metadata that the row keeps.
  abbrev both_rows : List Asynquery
  both_rows = save (committed with_meta c.body) (save with_meta w.rows)

  both_id : newest (has_id draft.id) both_rows ≡ some (committed with_meta c.body)
  both_id =
      newest-save (has_id draft.id) with_meta (committed with_meta c.body) (save with_meta w.rows)
        (newest-save (has_id draft.id) draft with_meta w.rows draft_id refl (eq_refl draft.id)) refl
        (eq_refl draft.id)

  draft_user : draft.user_id ≡ finished.user_id
  draft_user = ground (arith, draft_test, eqb_ℤ_iff draft.user_id finished.user_id)

  run_task-runs :
      (v : World W)
      → v.rows ≡ both_rows
      → run_task codec services taken now (task_for draft finished.user_id) v
        ≡ robust_call codec no_faults services
            (committed with_meta c.body)
            (build_patch_from_meta finished.meta)
            v
  unfolding run_task handle_query run_query get_query_record
  run_task-runs v e =
      rw
        (
          e,
          ← draft_user,
          newest-matches (committed with_meta c.body) both_rows p.named_id both_id,
          p.reads_meta,
        )
        refl

  served_draft :
      (address : String)
      → services.server_of finished.user_id ≡ some (some address)
      → services.server_of draft.user_id ≡ some (some address)
  served_draft address h = rw draft_user h

  -- Whichever comes first, the commit or the end of the upload, nothing is sent to the SDK
  -- before the other, and then the SDK at the user's server gets one call: the committed request as
  -- the user's, its parameters completed with the file's metadata. Both orders have this effect and
  -- give the queue the same result. The user has a server, and the JSON library reads back the
  -- request that it wrote. Where the upload ends first, it is run by the one task that the
  -- commit sends; where it ends last, the commit sends none.
  pub either_order :
      (address : String)
      → services.server_of finished.user_id ≡ some (some address)
      → codec.unmarshal_request c.body
        ≡ some (record c.request { params = named (delete "_defer" c.params) })
      → let committed_first = commit codec services taken now c finished w in
        let ended = upload_done codec services taken now finished committed_first in
        let ended_first = upload_done codec services taken now finished w in
        let sent = commit codec services taken now c finished ended_first.1 in
        let ran = run_task codec services taken now (task_for draft finished.user_id) sent in
        (committed_first.sdk ≡ w.sdk)
        × (committed_first.queued ≡ w.queued)
        × (sent.sdk ≡ w.sdk)
        × (sent.queued ≡ w.queued ++ (task_for draft finished.user_id ∷ []))
        × (ended.1.sdk ≡ (services.call address finished.user_id (sent_request c finished) w.sdk).1)
        × (ended.1.sdk ≡ ran.1.sdk)
        × (ended.0 ≡ ran.0)
  either_order address served reads =
      let sent = record w {
        rows = both_rows;
        queued = w.queued ++ (task_for draft finished.user_id ∷ []);
      } in
      let runs =
        robust_call-agrees codec services (committed draft c.body) (committed with_meta c.body)
          (build_patch_from_meta finished.meta)
          (record w { rows = save (committed draft c.body) w.rows }) sent (committed draft c.body)
          (committed with_meta c.body) refl refl refl refl
          (newest-by_id (committed draft c.body) _ p.named_id (
            newest-save (has_id draft.id) draft (committed draft c.body) w.rows draft_id refl
              (eq_refl draft.id)))
          (newest-by_id (committed with_meta c.body) _ p.named_id both_id) in
      let called =
        robust_call-calls codec services (committed draft c.body)
          (build_patch_from_meta finished.meta)
          (record w { rows = save (committed draft c.body) w.rows }) address
          (record c.request { params = named (delete "_defer" c.params) })
          (delete "_defer" c.params) (served_draft address served) reads refl in
      rw (upload_done-waits, commit-waits, commit-sends, upload_done-runs, run_task-runs sent refl)
        (
          refl,
          refl,
          refl,
          refl,
          called ∙ ap (λ u. (services.call address u (sent_request c finished) w.sdk).1) draft_user,
          runs.1,
          runs.0,
        )
