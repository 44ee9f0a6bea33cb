-- ===== src/Geopublish/Advance.antt =====
-- What one operation does to the tables and the tasks: rows stay with their users, and a task is
-- sent for an upload that had no publish query, which gets one.
use odysee_api.Base.{
  String, ◌≡◌, refl, ◌∙◌, true, false, Option, none, some, [], ◌∷◌, ◌++◌, arith, ◌==◌, ◌||◌, eqb,
  eq_iff, Bool-cases, inl, inr, ℤ, Dict, lookup, insert, contains, lookup-insert,
}
use odysee_api.Errors.{Error, Result, ok, err}
use odysee_api.Geopublish.Table.{
  Upload, PublishQuery, Task, World, Faults, Services, try_update, Event, upload_created,
  upload_progress, upload_terminated, insert_upload, update_found, mark_upload_created,
  mark_upload_progress, mark_upload_terminated, handle_event, guard_user,
}
use odysee_api.Geopublish.Rows.{owner, owner-update_row, contains-update_row}

pub record Extends (us vs : Dict Upload) (ps qs : Dict PublishQuery) : Type 0 where
  pub owners : (id : String) (x : ℤ) → owner (lookup id us) ≡ some x → owner (lookup id vs) ≡ some x
  pub queries : (id : String) → contains id ps ≡ true → contains id qs ≡ true

-- An upload of the task's user, and a publish query
abbrev pub IsTask : Dict Upload → Dict PublishQuery → Task → Type 0
IsTask us qs t = (owner (lookup t.upload_id us) ≡ some t.user_id) × (contains t.upload_id qs ≡ true)

pub data Advance {W : Type 0} (v w : World W) : Type 0 where
  extended : Extends v.uploads w.uploads v.queries w.queries → w.tasks ≡ v.tasks → Advance v w
  sent :
      (t : Task)
      → Extends v.uploads w.uploads v.queries w.queries
      → w.tasks ≡ v.tasks ++ (t ∷ [])
      → contains t.upload_id v.queries ≡ false
      → IsTask w.uploads w.queries t
      → Advance v w

pub Extends-refl : (us : Dict Upload) (qs : Dict PublishQuery) → Extends us us qs qs
Extends-refl us qs = record { owners = λ id x h. h; queries = λ id h. h }

pub Extends-update :
    (fault : Option Error) (id : String) (change : Upload → Upload) (us : Dict Upload)
    (qs : Dict PublishQuery)
    → ((u : Upload) → (change u).user_id ≡ u.user_id)
    → Extends us (try_update fault id change us).1 qs qs
Extends-update (some e) id change us qs keeps = Extends-refl us qs
Extends-update none id change us qs keeps = record {
  owners = λ j x h. owner-update_row id j change us keeps ∙ h;
  queries = λ j h. h;
}

pub Extends-update_query :
    (fault : Option Error) (id : String) (change : PublishQuery → PublishQuery) (us : Dict Upload)
    (qs : Dict PublishQuery)
    → Extends us us qs (try_update fault id change qs).1
Extends-update_query (some e) id change us qs = Extends-refl us qs
Extends-update_query none id change us qs = record {
  owners = λ j x h. h;
  queries = λ j h. contains-update_row id j change qs ∙ h;
}

pub Extends-trans :
    {us vs ws : Dict Upload} {ps qs rs : Dict PublishQuery}
    → Extends us vs ps qs
    → Extends vs ws qs rs
    → Extends us ws ps rs
Extends-trans a b = record {
  owners = λ id x h. b.owners id x (a.owners id x h);
  queries = λ id h. b.queries id (a.queries id h);
}

pub Extends-insert_query :
    (id : String) (q : PublishQuery) (us : Dict Upload) (qs : Dict PublishQuery)
    → Extends us us qs (insert id q qs)
Extends-insert_query id q us qs = record {
  owners = λ j x h. h;
  queries = λ j h. ground (arith, lookup-insert id j q qs);
}

Extends-insert_upload :
    (id : String) (u : Upload) (us : Dict Upload) (qs : Dict PublishQuery)
    → contains id us ≡ false
    → Extends us (insert id u us) qs qs
Extends-insert_upload id u us qs fresh = record {
  owners = λ j x h. ground (arith, lookup-insert id j u us, eq_iff id j);
  queries = λ j h. h;
}

module _ {W : Type 0} (services : Services W) (faults : Faults) where
  update_found-Advance :
      (id : String) (change : Upload → Upload) (w : World W) (r : Result Upload)
      → ((u : Upload) → (change u).user_id ≡ u.user_id)
      → Advance w (update_found services faults id change w r).1
  update_found-Advance id change w (err e) keeps = extended (Extends-refl _ _) refl
  update_found-Advance id change w (ok u) keeps =
      extended (Extends-update faults.update id change w.uploads w.queries keeps) refl

  insert_upload-Extends :
      (fault : Option Error) (id : String) (u : Upload) (us : Dict Upload) (qs : Dict PublishQuery)
      → Extends us (insert_upload services faults fault id u us).1 qs qs
  insert_upload-Extends (some e) id u us qs = Extends-refl us qs
  insert_upload-Extends none id u us qs =
      elim (Bool-cases (id == "" || eqb u.size 0 || contains id us)) [
        | inl refuses ↦ rw refuses (Extends-refl us qs)
        | inr fresh ↦ rw fresh (Extends-insert_upload id u us qs (ground (arith, fresh)))
      ]

  handle_event-Advance :
      (user : ℤ) (e : Event) (w : World W) → Advance w (handle_event services faults user e w).1
  unfolding handle_event mark_upload_created mark_upload_progress mark_upload_terminated
  handle_event-Advance user (upload_created id size) w =
      extended (insert_upload-Extends faults.insert id _ w.uploads w.queries) refl
  handle_event-Advance user (upload_progress id offset) w =
      update_found-Advance id _ w _ (λ u. refl)
  handle_event-Advance user (upload_terminated id) w = update_found-Advance id _ w _ (λ u. refl)

  pub guard_user-Advance :
      (user : Result ℤ) (e : Event) (w : World W)
      → Advance w (guard_user services faults user e w).1
  unfolding guard_user
  guard_user-Advance (err x) e w = extended (Extends-refl _ _) refl
  guard_user-Advance (ok user) e w = handle_event-Advance user e w
