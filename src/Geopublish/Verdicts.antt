-- ===== src/Geopublish/Verdicts.antt =====
-- What a user is told of an upload once its result is saved, and whose uploads change.
use odysee_api.Base.{
  String, ◌≡◌, ◌≢◌, refl, ◌∙◌, true, Option, none, some, arith, ◌==◌, ◌&&◌, if◌then◌else◌, eq_iff,
  eq_refl, eqb_ℤ_iff, Bool-cases, inl, inr, ℤ, Dict, lookup, lookup-insert,
}
use odysee_api.Errors.{Error, ok, err_text}
use odysee_api.Rpc.{Response}
use odysee_api.Geopublish.Table.{
  Upload, PublishQuery, failed, finished, query_received, World, Faults, Services, update_row, get,
  get_query, update_found, insert_upload, is_positive, Event, upload_created, upload_progress,
  upload_terminated, handle_event, guard_user, mark_upload_created, mark_upload_progress,
  mark_upload_terminated,
}
use odysee_api.Geopublish.Processing.{
  save_upload_processing_result, mark_upload_finished, mark_upload_failed, with_failure, answered,
  has_no_error,
}
use odysee_api.Geopublish.Rows.{lookup-update_row}
use odysee_api.Geopublish.Status.{reply, rpc_error, stored, status, show_query}

-- A database that gives no error
abbrev pub no_faults : Faults
no_faults = record {
  select = none;
  insert = none;
  update = none;
  fail_update = none;
  select_query = none;
  update_query = none;
}

-- The user's upload, and its publish query.
pub record IsPublished {W : Type 0} (w : World W) (id : String) (user : ℤ) (u : Upload)
    (q : PublishQuery) : Type 0 where
  pub has_id : id ≢ ""
  pub is_user : is_positive user ≡ true
  pub upload_row : lookup id w.uploads ≡ some u
  pub owns : u.user_id ≡ some user
  pub query_row : lookup id w.queries ≡ some q

-- What the owner is told.
status-rows :
    {W : Type 0} (errorf : String → String) (w : World W) (id : String) (user : ℤ) (u : Upload)
    (q : PublishQuery)
    → IsPublished w id user u q
    → status errorf no_faults id (ok user) w ≡ show_query errorf q
unfolding status get
status-rows errorf w id user u q p =
    ground (arith, eq_iff id "", p.upload_row, p.owns, p.query_row, eqb_ℤ_iff user user)

lookup-changed :
    {A : Type 0} (id : String) (change : A → A) (rows : Dict A) (r : A)
    → lookup id rows ≡ some r
    → lookup id (update_row id change rows) ≡ some (change r)
lookup-changed id change rows r h = ground (arith, lookup-update_row id id change rows, eq_refl id)

module _ {W : Type 0} (services : Services W) (errorf : String → String) (w : World W) (id : String)
    (user : ℤ) (u : Upload) (q : PublishQuery) (p : IsPublished w id user u q)
    (call_err : String) where
  failed-world :
      (save_upload_processing_result services no_faults id none call_err w).1
      ≡ record w { uploads = update_row id (with_failure services no_faults call_err) w.uploads }
  unfolding save_upload_processing_result mark_upload_failed get
  failed-world = rw p.upload_row refl

  -- A result without a response marks the upload as failed, and leaves its query as it was: an owner
  -- whose query was received is told, as before, that the upload is being processed.
  pub failure_looks_pending :
      q.status ≡ query_received
      → let after = (save_upload_processing_result services no_faults id none call_err w).1 in
        (lookup id after.uploads ≡ some (record u { error = call_err; status = failed }))
        × (status errorf no_faults id (ok user) w ≡ reply 202)
        × (status errorf no_faults id (ok user) after ≡ reply 202)
  failure_looks_pending s =
      let row =
        lookup-changed id (with_failure services no_faults call_err) w.uploads u p.upload_row in
      rw failed-world (
        row,
        status-rows errorf w id user u q p ∙ pending s,
        status-rows errorf _ id user _ q (record {
          has_id = p.has_id;
          is_user = p.is_user;
          upload_row = row;
          owns = p.owns;
          query_row = p.query_row;
        })
            ∙ pending s,
      )
    where
      pending : q.status ≡ query_received → show_query errorf q ≡ reply 202
      pending h = rw h refl

  module _ (res : Response) (body : String) (m : services.marshal_response res ≡ ok body) where
    abbrev saved_world : World W
    saved_world = record w {
      uploads = update_row id (λ r. record r { status = finished }) w.uploads;
      queries = update_row id (λ r. answered services no_faults res body call_err q) w.queries;
      files = (services.remove_all u.path w.files).1;
    }

    save-saved_world :
        (save_upload_processing_result services no_faults id (some res) call_err w).1 ≡ saved_world
    unfolding save_upload_processing_result mark_upload_finished get get_query
    save-saved_world = ground (arith, p.upload_row, p.query_row, m)

    -- A response finishes the upload, with an error in it too, and then the owner is told: the
    -- response, if there was neither an error in it nor one of the call; and else the text of the
    -- call's error, taken for a format, which may be empty, under the status of success.
    pub response_told :
        let after = (save_upload_processing_result services no_faults id (some res) call_err w).1 in
        (lookup id after.uploads ≡ some (record u { status = finished }))
        × (status errorf no_faults id (ok user) after ≡ (
            if has_no_error services no_faults res && call_err == ""
            then record { status = 200; body = stored body }
            else rpc_error (err_text (errorf call_err))))
    response_told =
        let row =
          lookup-changed id (λ r. record r { status = finished }) w.uploads u p.upload_row in
        let after : IsPublished saved_world id user (record u { status = finished })
            (answered services no_faults res body call_err q) =
          record {
            has_id = p.has_id;
            is_user = p.is_user;
            upload_row = row;
            owns = p.owns;
            query_row =
                lookup-changed id (λ r. answered services no_faults res body call_err q) w.queries q
                  p.query_row;
          } in
        rw save-saved_world (
          row,
          status-rows errorf _ id user _ _ after
              ∙ (elim (Bool-cases (has_no_error services no_faults res && call_err == "")) [
                | inl good ↦ rw good refl
                | inr bad ↦ rw bad refl
              ]),
        )

module _ {W : Type 0} (services : Services W) (faults : Faults) (w : World W) (j : String)
    (u : Upload) (owner user : ℤ) (row : lookup j w.uploads ≡ some u)
    (owns : u.user_id ≡ some owner) (other_user : owner ≢ user)
    (is_user : is_positive user ≡ true) where
  not_changed :
      (id : String) (change : Upload → Upload)
      → lookup j
          (update_found services faults id change w (get faults.select id user w.uploads)).1.uploads
        ≡ some u
  unfolding get
  not_changed id change = ground (
    arith,
    lookup-update_row id j change w.uploads,
    eq_iff id j,
    eqb_ℤ_iff owner user,
    row,
    owns,
    other_user,
  )

  not_inserted :
      (fault : Option Error) (id : String) (x : Upload)
      → lookup j (insert_upload services faults fault id x w.uploads).1 ≡ some u
  not_inserted (some e) id x = row
  not_inserted none id x = ground (arith, lookup-insert id j x w.uploads, eq_iff id j, row)

  -- An event of a user leaves the uploads of other users as they are, also one that has their ids.
  pub foreign_event_refused :
      (e : Event) → lookup j (guard_user services faults (ok user) e w).1.uploads ≡ some u
  unfolding guard_user handle_event mark_upload_created mark_upload_progress mark_upload_terminated
  foreign_event_refused (upload_created id size) = not_inserted faults.insert id _
  foreign_event_refused (upload_progress id offset) = not_changed id _
  foreign_event_refused (upload_terminated id) = not_changed id _
