-- ===== src/Uploads/Lifecycle.antt =====
-- Which statuses an upload goes through.
use odysee_api.Base.{
  ℕ, String, ◌≡◌, ◌≢◌, ◌⊎◌, inl, inr, Bool, false, List, [], ◌∷◌, arith, refl, ℤ, ◌==◌, ◌||◌, ◌&&◌,
  eqb, any, Bool-cases, All, All-append,
}
use odysee_api.Uploads.{
  Upload, Event, completed, terminated, upload_created, upload_progress, upload_terminated,
  upload_complete, is_row, has_id, in_progress, update, listen, listen_all, create_upload,
  mark_upload_completed, mark_upload_terminated, record_upload_progress,
}

abbrev pub NotTerminated : Upload → Type 0
NotTerminated u = u.status ≢ terminated

All-update :
    (test : Upload → Bool) (change : Upload → Upload) (us : List Upload)
    → ((u : Upload) → NotTerminated u → NotTerminated (change u))
    → All NotTerminated us
    → All NotTerminated (update test change us)
unfolding update
All-update test change [] keeps h = tt
All-update test change (u ∷ us) keeps (n, h) = elim (Bool-cases (test u)) [
  | inl hit ↦ rw hit (keeps u n, All-update test change us keeps h)
  | inr miss ↦ rw miss (n, All-update test change us keeps h)
]

All-listen :
    (user : ℤ) (e : Event) (us : List Upload)
    → All NotTerminated us
    → All NotTerminated (listen user e us)
unfolding listen create_upload mark_upload_completed mark_upload_terminated record_upload_progress
All-listen user (upload_created id size) us h =
    elim (Bool-cases (id == "" || eqb size 0 || any (has_id id) us)) [
      | inl refused ↦ rw refused h
      | inr fresh ↦ rw fresh (All-append NotTerminated us _ h (λ e. cc, tt))
    ]
All-listen user (upload_progress id offset) us h = All-update _ _ us (λ u n. n) h
All-listen user (upload_terminated id) us h = All-update _ _ us (λ u n e. cc) h
All-listen user (upload_complete id f k) us h = All-update _ _ us (λ u n e. cc) h

-- If no upload has the status of a terminated one, none has it after any sequence of events,
-- terminations included.
pub NotTerminated-listen_all :
    (es : List (ℤ × Event)) (us : List Upload)
    → All NotTerminated us
    → All NotTerminated (listen_all es us)
unfolding listen_all
NotTerminated-listen_all [] us h = h
NotTerminated-listen_all ((user, e) ∷ es) us h =
    NotTerminated-listen_all es (listen user e us) (All-listen user e us h)

-- The user's upload under the id is over.
abbrev pub IsOver : ℤ → String → List Upload → Type 0
IsOver user id [] = Unit {0}
IsOver user id (u ∷ us) =
    ((is_row user id u ≡ false) ⊎ (in_progress u.status ≡ false)) × IsOver user id us

update_late :
    (user : ℤ) (id : String) (us : List Upload) (change : Upload → Upload)
    → IsOver user id us
    → update (λ u. is_row user id u && in_progress u.status) change us ≡ us
unfolding update
update_late user id [] change h = refl
update_late user id (u ∷ us) change (o, h) = ground (arith, update_late user id us change h)

update-IsOver :
    (user : ℤ) (id : String) (us : List Upload) (change : Upload → Upload)
    → ((u : Upload) → (change u).status ≡ completed)
    → IsOver user id (update (is_row user id) change us)
unfolding update
update-IsOver user id [] change h = tt
update-IsOver user id (u ∷ us) change h = elim (Bool-cases (is_row user id u)) [
  | inl hit ↦ rw hit (inr (rw (h u) refl), update-IsOver user id us change h)
  | inr miss ↦ rw miss (inl miss, update-IsOver user id us change h)
]

-- Progress that is reported for an upload right after it was completed or terminated by its user
-- changes nothing.
pub no_late_progress :
    (user : ℤ) (id filename key : String) (offset : ℕ) (us : List Upload)
    → let done = listen user (upload_complete id filename key) us in
      let stopped = listen user (upload_terminated id) us in
      (listen user (upload_progress id offset) done ≡ done)
      × (listen user (upload_progress id offset) stopped ≡ stopped)
unfolding listen mark_upload_completed mark_upload_terminated record_upload_progress
no_late_progress user id filename key offset us = (
  update_late user id _ _ (update-IsOver user id us _ (λ u. refl)),
  update_late user id _ _ (update-IsOver user id us _ (λ u. refl)),
)
