-- ===== src/AsyncQuery/Ran.antt =====
-- What the two handlers of tasks run: only rows that are ready.
use odysee_api.Base.{
  String, ◌≡◌, refl, sym, subst, true, false, Option, none, some, List, [], arith, eq_iff, inl, inr,
  ◌⊎◌, Bool-cases, ◌==◌,
}
use odysee_api.Errors.{Result, ok, err}
use odysee_api.AsyncQuery.{
  Asynquery, Codec, Faults, QueryParams, QueryTask, Services, World, UploadDone, UploadMeta,
  Outcome, newest, has_id, is_upload, matches, handle_merge_tx, merge_found, merge_ready,
  after_merge, handle_merge, run_patched, run_stored, run_query, handle_query, get_query_record,
  robust_call, build_patch_from_meta, skip_or_fail, bad_meta_text,
}
use odysee_api.AsyncQuery.Table.{HasDistinctIds, newest-id, newest-test}
use odysee_api.AsyncQuery.Changes.{Change, handle_merge_tx-Change, finalize_query_record-Change}
use odysee_api.AsyncQuery.Firings.{
  IsFired, robust_call-Change, robust_call-IsFired, robust_call-queued,
}
use odysee_api.AsyncQuery.Sound.{IsSound, is_ready, IsTaskReady, IsSound-Change}

-- The SDK was left alone, or has answered one call for a row of the table that is ready.
abbrev pub RanReady : {W : Type 0} → Codec → Services W → List Asynquery → W → W → Type 0
RanReady codec services rows before after =
    (after ≡ before)
    ⊎ ((aq : Asynquery) × (newest (has_id aq.id) rows ≡ some aq)
        × (aq.ready_to_run ≡ true)
        × IsFired codec services aq before after)

module _ {W : Type 0} (codec : Codec) (faults : Faults) (services : Services W) where
  robust_call-IsSound :
      (aq : Asynquery) (patch : _) (w : World W)
      → IsSound w
      → IsSound (robust_call codec faults services aq patch w).1
  robust_call-IsSound aq patch w s =
      IsSound-Change w _ (robust_call-Change codec faults services aq patch w s.rows_distinct)
        (robust_call-queued codec faults services aq patch w) s

  robust_call-RanReady :
      (rows : List Asynquery) (aq : Asynquery) (patch : _) (w : World W)
      → newest (has_id aq.id) rows ≡ some aq
      → aq.ready_to_run ≡ true
      → RanReady codec services rows w.sdk (robust_call codec faults services aq patch w).1.sdk
  robust_call-RanReady rows aq patch w n r =
      elim (robust_call-IsFired codec faults services aq patch w) [
        | inl same ↦ inl same
        | inr fired ↦ inr (aq, n, r, fired)
      ]

  after_merge-IsSound :
      (payload : UploadDone) (w : World W) (o : Outcome)
      → Change w.rows o.1
      → IsSound w
      → IsSound (after_merge codec faults services payload w o).1
  unfolding after_merge
  after_merge-IsSound payload w (err e, rows) c s = IsSound-Change w _ c refl s
  after_merge-IsSound payload w (ok (aq, false), rows) c s = IsSound-Change w _ c refl s
  after_merge-IsSound payload w (ok (aq, true), rows) c s =
      robust_call-IsSound aq (build_patch_from_meta payload.meta) (record w { rows = rows })
        (IsSound-Change w _ c refl s)

  after_merge-RanReady :
      (payload : UploadDone) (w : World W) (o : Outcome)
      → ((aq : Asynquery)
          → o.0 ≡ ok (aq, true)
          → (newest (has_id aq.id) w.rows ≡ some aq) × (aq.ready_to_run ≡ true))
      → RanReady codec services w.rows w.sdk (after_merge codec faults services payload w o).1.sdk
  unfolding after_merge
  after_merge-RanReady payload w (err e, rows) h = inl refl
  after_merge-RanReady payload w (ok (aq, false), rows) h = inl refl
  after_merge-RanReady payload w (ok (aq, true), rows) h =
      robust_call-RanReady w.rows aq (build_patch_from_meta payload.meta) (record w { rows = rows })
        (h aq refl).0 (h aq refl).1

  run_patched-IsSound :
      (aq : Asynquery) (w : World W) (m : Result UploadMeta)
      → IsSound w
      → IsSound (run_patched codec faults services aq w m).1
  run_patched-IsSound aq w (ok meta) s = robust_call-IsSound aq (build_patch_from_meta meta) w s
  run_patched-IsSound aq w (err e) s =
      skip w _
        (finalize_query_record-Change codec faults aq.id none (bad_meta_text e) w.rows
          s.rows_distinct)
        s
    where
      skip :
          (v : World W) (r : Result (Unit {0}) × List Asynquery)
          → Change v.rows r.1
          → IsSound v
          → IsSound (skip_or_fail codec faults services v r).1
      skip v (ok u, rows) c k = IsSound-Change v _ c refl k
      skip v (err x, rows) c k = IsSound-Change v _ c refl k

  run_patched-RanReady :
      (rows : List Asynquery) (aq : Asynquery) (w : World W) (m : Result UploadMeta)
      → newest (has_id aq.id) rows ≡ some aq
      → aq.ready_to_run ≡ true
      → RanReady codec services rows w.sdk (run_patched codec faults services aq w m).1.sdk
  run_patched-RanReady rows aq w (ok meta) n r =
      robust_call-RanReady rows aq (build_patch_from_meta meta) w n r
  run_patched-RanReady rows aq w (err e) n r = inl (ground arith)

  found-row :
      (task : QueryTask) (params : QueryParams) (aq : Asynquery) (rows : List Asynquery)
      → params.query_id ≡ task.query_id
      → HasDistinctIds rows
      → IsTaskReady rows task
      → get_query_record faults.lookup params rows ≡ ok aq
      → (newest (has_id aq.id) rows ≡ some aq) × (aq.ready_to_run ≡ true)
  unfolding get_query_record
  found-row task params aq rows i d (ne, ready) h =
      let row : newest (matches params) rows ≡ some aq = ground arith in
      let here = newest-id (matches params) aq rows d row in
      let passes = newest-test (matches params) aq rows row in
      let same : aq.id ≡ task.query_id =
        ground (arith, eq_iff params.query_id "", eq_iff aq.id params.query_id) in
      let ready_row : is_ready aq.id rows ≡ true =
        subst (λ i. is_ready i rows ≡ true) (sym same) ready in
      (here, rw here at ready_row)

  run_query-IsSound :
      (w : World W) (r : Result Asynquery)
      → IsSound w
      → IsSound (run_query codec faults services w r).1
  unfolding run_query
  run_query-IsSound w (err e) s = s
  run_query-IsSound w (ok aq) s = on_meta aq.file_meta
    where
      on_meta : (m : Option String) → IsSound (run_stored codec faults services aq w m).1
      on_meta none = robust_call-IsSound aq [] w s
      on_meta (some stored) = run_patched-IsSound aq w (codec.unmarshal_meta stored) s

  run_query-RanReady :
      (w : World W) (r : Result Asynquery)
      → ((aq : Asynquery)
          → r ≡ ok aq
          → (newest (has_id aq.id) w.rows ≡ some aq) × (aq.ready_to_run ≡ true))
      → RanReady codec services w.rows w.sdk (run_query codec faults services w r).1.sdk
  unfolding run_query
  run_query-RanReady w (err e) h = inl refl
  run_query-RanReady w (ok aq) h = on_meta aq.file_meta
    where
      on_meta :
          (m : Option String)
          → RanReady codec services w.rows w.sdk (run_stored codec faults services aq w m).1.sdk
      on_meta none = robust_call-RanReady w.rows aq [] w (h aq refl).0 (h aq refl).1
      on_meta (some stored) =
          run_patched-RanReady w.rows aq w (codec.unmarshal_meta stored) (h aq refl).0 (h aq refl).1

  merge-ready :
      (payload : UploadDone) (rows : List Asynquery) (aq : Asynquery)
      → HasDistinctIds rows
      → (handle_merge_tx codec faults payload rows).0 ≡ ok (aq, true)
      → (newest (has_id aq.id) rows ≡ some aq) × (aq.ready_to_run ≡ true)
  unfolding handle_merge_tx merge_found merge_ready
  merge-ready payload rows aq d h =
      let both : (newest (is_upload payload.upload_id payload.user_id) rows ≡ some aq)
          × (aq.ready_to_run ≡ true) =
        ground arith in
      (newest-id _ aq rows d both.0, both.1)

  pub handle_merge-IsSound :
      (name : String) (payload : Option UploadDone) (w : World W)
      → IsSound w
      → IsSound (handle_merge codec faults services name payload w).1
  unfolding handle_merge
  handle_merge-IsSound name none w s = s
  handle_merge-IsSound name (some payload) w s =
      elim (Bool-cases (name == "forklift:upload:done")) [
        | inl its ↦ rw its (
            after_merge-IsSound payload w _
              (handle_merge_tx-Change codec faults payload w.rows s.rows_distinct) s)
        | inr strange ↦ rw strange s
      ]

  pub handle_merge-RanReady :
      (name : String) (payload : Option UploadDone) (w : World W)
      → IsSound w
      → RanReady codec services w.rows w.sdk
          (handle_merge codec faults services name payload w).1.sdk
  unfolding handle_merge
  handle_merge-RanReady name none w s = inl refl
  handle_merge-RanReady name (some payload) w s =
      elim (Bool-cases (name == "forklift:upload:done")) [
        | inl its ↦ rw its (
            after_merge-RanReady payload w _
              (λ aq h. merge-ready payload w.rows aq s.rows_distinct h))
        | inr strange ↦ rw strange (inl refl)
      ]

  pub handle_query-IsSound :
      (name : String) (task : Option QueryTask) (w : World W)
      → IsSound w
      → IsSound (handle_query codec faults services name task w).1
  unfolding handle_query
  handle_query-IsSound name none w s = s
  handle_query-IsSound name (some task) w s = elim (Bool-cases (name == "asynquery:incoming")) [
    | inl its ↦ rw its (run_query-IsSound w _ s)
    | inr strange ↦ rw strange s
  ]

  pub handle_query-RanReady :
      (name : String) (task : QueryTask) (w : World W)
      → IsSound w
      → IsTaskReady w.rows task
      → RanReady codec services w.rows w.sdk
          (handle_query codec faults services name (some task) w).1.sdk
  unfolding handle_query
  handle_query-RanReady name task w s t = elim (Bool-cases (name == "asynquery:incoming")) [
    | inl its ↦
        rw its
          (run_query-RanReady w _ (λ aq h. found-row task _ aq w.rows refl s.rows_distinct t h))
    | inr strange ↦ rw strange (inl refl)
  ]
