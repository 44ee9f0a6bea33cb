-- ===== src/Geopublish/Sends.antt =====
-- What the processing of an upload and the saving of its result do to the tables and the tasks.
use odysee_api.Base.{
  String, ◌≡◌, refl, ap, ◌∙◌, false, Option, none, some, [], ◌∷◌, ◌++◌, arith, eq_refl, Bool-cases,
  inl, inr, ℤ, pos, Dict, lookup, contains, lookup-insert,
}
use odysee_api.Errors.{Error, Result, ok, err, Result-cases, message}
use odysee_api.Rpc.{Request, Response}
use odysee_api.Geopublish.Table.{
  Upload, PublishQuery, finished, Task, World, Faults, Services, try_update, get, found,
}
use odysee_api.Geopublish.Processing.{
  mark_upload_failed, after_enqueue, enqueuing_failed, insert_query, enqueue_query, add_query,
  process_updated, process_upload, after_finish, mark_upload_finished, save_marshaled, save_query,
  save_found, save_upload_processing_result,
}
use odysee_api.Geopublish.Rows.{owner, owner-update_row}
use odysee_api.Geopublish.Advance.{
  Advance, extended, sent, Extends, IsTask, Extends-refl, Extends-trans, Extends-update,
  Extends-update_query, Extends-insert_query,
}

module _ {W : Type 0} (services : Services W) (faults : Faults) where
  mark_upload_failed-Extends :
      (id e : String) (w : World W)
      → Extends w.uploads (mark_upload_failed services faults id e w).1.uploads w.queries w.queries
  unfolding mark_upload_failed
  mark_upload_failed-Extends id e w =
      Extends-update faults.fail_update id _ w.uploads w.queries (λ u. refl)

  enqueuing_failed-world :
      (e : Error) (r : Option Error × World W) → (enqueuing_failed services faults e r).1 ≡ r.1
  enqueuing_failed-world e (none, w) = refl
  enqueuing_failed-world e (some x, w) = refl

  after_enqueue-Advance :
      (v w : World W) (t : Task) (e : Option Error)
      → Extends v.uploads w.uploads v.queries w.queries
      → w.tasks ≡ v.tasks
      → contains t.upload_id v.queries ≡ false
      → IsTask w.uploads w.queries t
      → Advance v (after_enqueue services faults t w e).1
  unfolding mark_upload_failed
  after_enqueue-Advance v w t none x same fresh task =
      sent t x (ap (λ ts. ts ++ (t ∷ [])) same) fresh task
  after_enqueue-Advance v w t (some e) x same fresh task =
      elim (Bool-cases (services.is_duplicate e)) [
        | inl duplicate ↦ rw duplicate (extended x same)
        | inr other ↦
            rw
              (
                other,
                enqueuing_failed-world e
                    (mark_upload_failed services faults t.upload_id (message e) w),
              )
              (extended (Extends-trans x (mark_upload_failed-Extends t.upload_id (message e) w))
                same)
      ]

  enqueue_query-Advance :
      (v w : World W) (t : Task) (fault e : Option Error) (q : PublishQuery)
      → Extends v.uploads w.uploads v.queries w.queries
      → w.tasks ≡ v.tasks
      → w.queries ≡ v.queries
      → owner (lookup t.upload_id w.uploads) ≡ some t.user_id
      → Advance v
          (enqueue_query services faults e t w
            (insert_query services faults fault t.upload_id q w.queries)).1
  enqueue_query-Advance v w t (some x) e q ext same qs own = extended ext same
  enqueue_query-Advance v w t none e q ext same qs own =
      elim (Bool-cases (contains t.upload_id w.queries)) [
        | inl taken ↦ rw taken (extended ext same)
        | inr fresh ↦ rw fresh (
            after_enqueue-Advance v _ t e
              (Extends-trans ext (Extends-insert_query t.upload_id q w.uploads w.queries)) same
              (rw (← qs) fresh)
              (
                own,
                ground
                    (arith, lookup-insert t.upload_id t.upload_id q w.queries, eq_refl t.upload_id),
              ))
      ]

  add_query-Advance :
      (v w : World W) (t : Task) (e : Option Error) (r : Result String)
      → Extends v.uploads w.uploads v.queries w.queries
      → w.tasks ≡ v.tasks
      → w.queries ≡ v.queries
      → owner (lookup t.upload_id w.uploads) ≡ some t.user_id
      → Advance v (add_query services faults e t w r).1
  add_query-Advance v w t e (err x) ext same qs own = extended ext same
  add_query-Advance v w t e (ok body) ext same qs own =
      enqueue_query-Advance v w t faults.insert e _ ext same qs own

  process_updated-Advance :
      (w : World W) (t : Task) (fault e : Option Error) (change : Upload → Upload)
      → ((u : Upload) → (change u).user_id ≡ u.user_id)
      → owner (lookup t.upload_id w.uploads) ≡ some t.user_id
      → Advance w
          (process_updated services faults e t w (try_update fault t.upload_id change w.uploads)).1
  process_updated-Advance w t (some x) e change keeps own = extended (Extends-refl _ _) refl
  process_updated-Advance w t none e change keeps own =
      add_query-Advance w _ t e _ (Extends-update none t.upload_id change w.uploads w.queries keeps)
        refl refl (owner-update_row t.upload_id t.upload_id change w.uploads keeps ∙ own)

  get-row :
      (fault : Option Error) (id : String) (user : ℤ) (us : Dict Upload) (u : Upload)
      → get fault id user us ≡ ok u
      → lookup id us ≡ some u
  unfolding get
  get-row (some e) id user us u h = cc
  get-row none id user us u h = from_found (lookup id us) h
    where
      from_found : (o : Option Upload) → found user o ≡ ok u → o ≡ some u
      from_found none k = cc
      from_found (some x) k = ground arith

  pub process_upload-Advance :
      (e : Option Error) (id : String) (user : ℤ) (path : String) (req : Request) (w : World W)
      → Advance w (process_upload services faults e id user path req w).1
  unfolding process_upload
  process_upload-Advance e id user path req w =
      elim (Result-cases (get faults.select id user w.uploads)) [
        | inl (u, there) ↦ rw there (
            process_updated-Advance w _ faults.update e _ (λ r. refl)
              (ap owner (get-row faults.select id user w.uploads u there)))
        | inr (x, missing) ↦ rw missing (extended (Extends-refl _ _) refl)
      ]

  mark_upload_finished-Extends :
      (id : String) (u : Upload) (w : World W)
      → let v = mark_upload_finished services faults id u w in
        Extends w.uploads v.uploads w.queries v.queries × (v.tasks ≡ w.tasks)
  unfolding mark_upload_finished
  mark_upload_finished-Extends id u w = on_fault faults.update
    where
      on_fault :
          (fault : Option Error)
          → let v =
              after_finish services faults u w
                (try_update fault id (λ r. record r { status = finished }) w.uploads) in
            Extends w.uploads v.uploads w.queries v.queries × (v.tasks ≡ w.tasks)
      on_fault (some e) = (Extends-refl _ _, refl)
      on_fault none = (Extends-update none id _ w.uploads w.queries (λ r. refl), refl)

  save_query-Advance :
      (id : String) (u : Upload) (res : Response) (call_err : String) (w : World W)
      (r : Result PublishQuery)
      → Advance w (save_query services faults id u res call_err w r).1
  save_query-Advance id u res call_err w (err e) = extended (Extends-refl _ _) refl
  save_query-Advance id u res call_err w (ok q) = on_body (services.marshal_response res)
    where
      on_body :
          (b : Result String) → Advance w (save_marshaled services faults id u res call_err q w b).1
      on_body (err e) = extended (Extends-refl _ _) refl
      on_body (ok body) =
          let (kept, same) = mark_upload_finished-Extends id u w in
          extended (Extends-trans kept (Extends-update_query faults.update_query id _ _ _)) same

  pub save-Advance :
      (id : String) (res : Option Response) (call_err : String) (w : World W)
      → Advance w (save_upload_processing_result services faults id res call_err w).1
  unfolding save_upload_processing_result
  save-Advance id res call_err w = on_row res (get faults.select id (pos 0) w.uploads)
    where
      on_row :
          (o : Option Response) (r : Result Upload)
          → Advance w (save_found services faults id o call_err w r).1
      on_row o (err e) = extended (Extends-refl _ _) refl
      on_row none (ok u) = extended (mark_upload_failed-Extends id call_err w) refl
      on_row (some x) (ok u) = save_query-Advance id u x call_err w _
