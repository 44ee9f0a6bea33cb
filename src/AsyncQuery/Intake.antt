-- ===== src/AsyncQuery/Intake.antt =====
-- Which queries run, over every sequence of calls, ends of uploads and tasks.
use odysee_api.Base.{
  ℕ, String, ◌≡◌, refl, ◌∙◌, Bool, true, false, Option, none, some, List, [], ◌∷◌, arith, ◌==◌,
  eq_iff, eq_refl, Bool-cases, Option-cases, inl, inr, ℤ, All, All-append, lookup, delete,
}
use odysee_api.Errors.{Error, Result, ok, err, Result-cases}
use odysee_api.Rpc.{
  Request, Params, absent, named, other, Value, null, flag, number, text, texts, list, object,
}
use odysee_api.AsyncQuery.{
  Asynquery, Codec, Faults, QueryParams, World, Outcome, newest, has_id, is_upload, committed,
  commit_draft, call_upload_tx, commit_found, commit_by_status, create_query_record, enqueue,
  enqueue_new, enqueue_if, call_at, call_with_path, call_params, call, parse_file_path,
  FileLocation,
}
use odysee_api.AsyncQuery.Table.{HasDistinctIds, newest-id, newest-save}
use odysee_api.AsyncQuery.Changes.{Change, call_upload_tx-Change, create_query_record-Change}
use odysee_api.AsyncQuery.Sound.{IsSound, IsNamed, is_ready, IsTaskReady, IsSound-Change}

newest-IsNamed :
    (test : Asynquery → Bool) (a : Asynquery) (rs : List Asynquery)
    → All IsNamed rs
    → newest test rs ≡ some a
    → IsNamed a
unfolding newest
newest-IsNamed test a [] h n = cc
newest-IsNamed test a (r ∷ rs) (i, h) n = elim (Bool-cases (test r)) [
  | inl hit ↦ (let e : r ≡ a = ground arith in rw (← e) i)
  | inr miss ↦ newest-IsNamed test a rs h (rw (newest, miss) at n)
]

-- What a commit that is to run at once leaves: the row is there and ready.
commit_draft-run :
    (codec : Codec) (faults : Faults) (user : ℤ) (upload : String) (req : Request)
    (rows after : List Asynquery) (old aq : Asynquery)
    → newest (has_id old.id) rows ≡ some old
    → commit_draft codec faults req old rows old.ready_to_run ≡ (ok (aq, true), after)
    → (aq.id ≡ old.id) × (is_ready aq.id after ≡ true)
commit_draft-run codec faults user upload req rows after old aq n h =
    elim (Result-cases (codec.marshal_request req)) [
      | inl (body, m) ↦
          ground (
            arith,
            eq_refl old.id,
            newest-save (has_id old.id) old (committed old body) rows n refl,
          )
      | inr (e, m) ↦ ground arith
    ]

call_upload_tx-run :
    (codec : Codec) (faults : Faults) (taken : Error) (now : ℕ) (user : ℤ) (upload : String)
    (defer_run : Bool) (req : Request) (rows after : List Asynquery) (aq : Asynquery)
    → HasDistinctIds rows
    → All IsNamed rows
    → call_upload_tx codec faults taken now user upload defer_run req rows ≡ (ok (aq, true), after)
    → IsNamed aq × (is_ready aq.id after ≡ true)
unfolding call_upload_tx commit_found commit_by_status create_query_record
call_upload_tx-run codec faults taken now user upload defer_run req rows after aq d i h =
    elim (Option-cases (newest (is_upload upload user) rows)) [
      | inl nothing ↦ ground arith
      | inr (old, n) ↦
          let named_id = newest-IsNamed (is_upload upload user) old rows i n in
          ground (
            arith,
            commit_draft-run codec faults user upload req rows after old aq
                (newest-id (is_upload upload user) old rows d n),
          )
    ]

created-run :
    (codec : Codec) (faults : Faults) (taken : Error) (now : ℕ) (params : QueryParams)
    (req : Request) (rows after : List Asynquery) (aq : Asynquery)
    → params.ready_to_run ≡ true
    → create_query_record codec faults taken now params req rows ≡ ok (aq, after)
    → is_ready aq.id after ≡ true
unfolding create_query_record newest
created-run codec faults taken now params req rows after aq r h = ground (arith, eq_refl aq.id)

created-IsNamed :
    (after : List Asynquery) (aq : Asynquery)
    → All IsNamed after
    → is_ready aq.id after ≡ true
    → IsNamed aq
unfolding newest
created-IsNamed [] aq i r = absurd (ground arith)
created-IsNamed (x ∷ xs) aq (n, i) r = elim (Bool-cases (x.id == aq.id)) [
  | inl same ↦ (λ e. n ((eq_iff x.id aq.id).0 same ∙ e))
  | inr other_id ↦ created-IsNamed xs aq i (rw (newest, other_id) at r)
]

module _ {W : Type 0} (codec : Codec) (faults : Faults) (taken : Error) (now : ℕ) where
  enqueue-IsSound :
      (send : Option Error) (aq : Asynquery) (user : ℤ) (w : World W)
      → IsSound w
      → IsNamed aq
      → is_ready aq.id w.rows ≡ true
      → IsSound (enqueue codec faults taken now send aq user w).1
  enqueue-IsSound (some e) aq user w s i r = s
  enqueue-IsSound none aq user w s i r = record {
    rows_named = s.rows_named;
    rows_distinct = s.rows_distinct;
    tasks_ready = All-append (IsTaskReady w.rows) w.queued _ s.tasks_ready ((i, r), tt);
  }

  enqueue_if-IsSound :
      (send : Option Error) (user : ℤ) (w : World W) (o : Outcome)
      → Change w.rows o.1
      → ((aq : Asynquery) → o.0 ≡ ok (aq, true) → IsNamed aq × (is_ready aq.id o.1 ≡ true))
      → IsSound w
      → IsSound (enqueue_if codec faults taken now send user w o).1
  enqueue_if-IsSound send user w (err e, rows) c r s = IsSound-Change w _ c refl s
  enqueue_if-IsSound send user w (ok (aq, true), rows) c r s =
      enqueue-IsSound send aq user (record w { rows = rows }) (IsSound-Change w _ c refl s)
        (r aq refl).0 (r aq refl).1
  enqueue_if-IsSound send user w (ok (aq, false), rows) c r s = IsSound-Change w _ c refl s

  enqueue_new-IsSound :
      (send : Option Error) (user : ℤ) (w : World W) (r : Result (Asynquery × List Asynquery))
      → ((aq : Asynquery) (after : List Asynquery)
          → r ≡ ok (aq, after)
          → Change w.rows after × (is_ready aq.id after ≡ true))
      → IsSound w
      → IsSound (enqueue_new codec faults taken now send user w r).1
  enqueue_new-IsSound send user w (err e) h s = s
  enqueue_new-IsSound send user w (ok (aq, after)) h s =
      let made = h aq after refl in
      let sound = IsSound-Change w (record w { rows = after }) made.0 refl s in
      enqueue-IsSound send aq user (record w { rows = after }) sound
        (created-IsNamed after aq sound.rows_named made.1) made.1

  call_at-IsSound :
      (send : Option Error) (user : ℤ) (defer_run : Bool) (req : Request) (w : World W)
      (at : Result FileLocation)
      → IsSound w
      → IsSound (call_at codec faults taken now send user defer_run req w at).1
  call_at-IsSound send user defer_run req w (err e) s = s
  call_at-IsSound send user defer_run req w (ok at) s =
      enqueue_if-IsSound send user w _
        (call_upload_tx-Change codec faults taken now user at.upload_id req w.rows defer_run
          s.rows_distinct)
        (λ aq h.
          call_upload_tx-run codec faults taken now user at.upload_id defer_run req w.rows _ aq
            s.rows_distinct s.rows_named (pair_eq _ _ h))
        s
    where
      pair_eq : (o : Outcome) (r : Result (Asynquery × Bool)) → o.0 ≡ r → o ≡ (r, o.1)
      pair_eq (x, y) r e = rw e refl

  call_with_path-IsSound :
      (send : Option Error) (user : ℤ) (defer_run : Bool) (req : Request) (w : World W)
      (path : Option Value)
      → IsSound w
      → IsSound (call_with_path codec faults taken now send user defer_run req w path).1
  unfolding call_with_path
  call_with_path-IsSound send user defer_run req w none s =
      enqueue_new-IsSound send user w _
        (λ aq after h. (
          create_query_record-Change codec faults taken now _ req w.rows after aq h,
          created-run codec faults taken now _ req w.rows after aq refl h,
        ))
        s
  call_with_path-IsSound send user defer_run req w (some (text path)) s =
      call_at-IsSound send user defer_run req w (parse_file_path path) s
  call_with_path-IsSound send user defer_run req w (some null) s = s
  call_with_path-IsSound send user defer_run req w (some (flag b)) s = s
  call_with_path-IsSound send user defer_run req w (some (number n)) s = s
  call_with_path-IsSound send user defer_run req w (some (texts t)) s = s
  call_with_path-IsSound send user defer_run req w (some (list l)) s = s
  call_with_path-IsSound send user defer_run req w (some (object o)) s = s

  call_params-IsSound :
      (send : Option Error) (user : ℤ) (req : Request) (w : World W) (params : Params)
      → IsSound w
      → IsSound (call_params codec faults taken now send user req w params).1
  unfolding call_params
  call_params-IsSound send user req w absent s = s
  call_params-IsSound send user req w (other v) s = s
  call_params-IsSound send user req w (named m) s =
      call_with_path-IsSound send user _ _ w (lookup "file_path" (delete "_defer" m)) s

  pub call-IsSound :
      (send : Option Error) (user : ℤ) (req : Request) (w : World W)
      → IsSound w
      → IsSound (call codec faults taken now send user req w).1
  unfolding call
  call-IsSound send user req w s = call_params-IsSound send user req w req.params s

  pub call-sdk :
      (send : Option Error) (user : ℤ) (req : Request) (w : World W)
      → (call codec faults taken now send user req w).1.sdk ≡ w.sdk
  unfolding call call_params call_with_path
  call-sdk send user req w = ground arith
