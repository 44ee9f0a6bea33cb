-- ===== src/Uploads/Owners.antt =====
-- Whose uploads change, and who may reach them.
use odysee_api.Base.{
  String, ◌≡◌, ◌≢◌, ◌⊎◌, inl, inr, Bool, true, false, some, List, [], ◌∷◌, ◌++◌, arith, refl, ℤ,
  pos, eqb_ℤ_iff, ◌==◌, eq_iff, Bool-cases, any, eqb, ◌||◌, Option-cases,
}
use odysee_api.Uploads.{
  Upload, Event, upload_created, upload_progress, upload_terminated, upload_complete, is_row,
  update, listen, listen_all, create_upload, mark_upload_completed, mark_upload_terminated,
  record_upload_progress, get_upload, verify_upload_file_access, has_id,
}

abbrev pub Mem : Upload → List Upload → Type 0
Mem u [] = ⊥
Mem u (v ∷ vs) = (v ≡ u) ⊎ Mem u vs

Mem-update :
    (test : Upload → Bool) (change : Upload → Upload) (u : Upload) (us : List Upload)
    → test u ≡ false
    → Mem u us
    → Mem u (update test change us)
unfolding update
Mem-update test change u [] h m = elim m [ ]
Mem-update test change u (v ∷ vs) h (inl e) = rw (e, h) (inl refl)
Mem-update test change u (v ∷ vs) h (inr m) = elim (Bool-cases (test v)) [
  | inl hit ↦ rw hit (inr (Mem-update test change u vs h m))
  | inr miss ↦ rw miss (inr (Mem-update test change u vs h m))
]

Mem-append_left : (u : Upload) (us vs : List Upload) → Mem u us → Mem u (us ++ vs)
Mem-append_left u [] vs h = elim h [ ]
Mem-append_left u (x ∷ us) vs (inl e) = inl e
Mem-append_left u (x ∷ us) vs (inr h) = inr (Mem-append_left u us vs h)

not_row : (user : ℤ) (id : String) (u : Upload) → u.user_id ≢ user → is_row user id u ≡ false
not_row user id u ne = ground (arith, eqb_ℤ_iff u.user_id user)

Mem-listen :
    (user : ℤ) (e : Event) (u : Upload) (us : List Upload)
    → u.user_id ≢ user
    → Mem u us
    → Mem u (listen user e us)
unfolding listen create_upload mark_upload_completed mark_upload_terminated record_upload_progress
Mem-listen user (upload_created id size) u us ne m =
    elim (Bool-cases (id == "" || eqb size 0 || any (has_id id) us)) [
      | inl refused ↦ rw refused m
      | inr fresh ↦ rw fresh (Mem-append_left u us _ m)
    ]
Mem-listen user (upload_progress id offset) u us ne m =
    Mem-update _ _ u us (rw (not_row user id u ne) refl) m
Mem-listen user (upload_terminated id) u us ne m = Mem-update _ _ u us (not_row user id u ne) m
Mem-listen user (upload_complete id f k) u us ne m = Mem-update _ _ u us (not_row user id u ne) m

-- No event comes from the user.
abbrev pub NoneFrom : ℤ → List (ℤ × Event) → Type 0
NoneFrom user [] = Unit {0}
NoneFrom user ((v, e) ∷ es) = (user ≢ v) × NoneFrom user es

-- The uploads of a user stay as they are whatever events come from other users.
pub Mem-listen_all :
    (es : List (ℤ × Event)) (u : Upload) (us : List Upload)
    → NoneFrom u.user_id es
    → Mem u us
    → Mem u (listen_all es us)
unfolding listen_all
Mem-listen_all [] u us h m = m
Mem-listen_all ((v, e) ∷ es) u us (ne, h) m = Mem-listen_all es u _ h (Mem-listen v e u us ne m)

get_upload-Mem :
    (user : ℤ) (id : String) (us : List Upload) (u : Upload)
    → get_upload user id us ≡ some u
    → Mem u us × (u.user_id ≡ user) × (u.id ≡ id)
unfolding get_upload
get_upload-Mem user id [] u h = cc
get_upload-Mem user id (v ∷ vs) u h = elim (Bool-cases (is_row user id v)) [
  | inl hit ↦
      let same : v ≡ u = ground arith in
      (
        inl same,
        rw (← same) (ground (arith, eqb_ℤ_iff v.user_id user)),
        rw (← same) (ground (arith, eq_iff v.id id)),
      )
  | inr miss ↦ let (m, o, i) = get_upload-Mem user id vs u (rw miss at h) in (inr m, o, i)
]

-- A request that the access check lets through has a user, and where it names an upload the table
-- has one with that id and that user.
pub verify_upload_file_access_lem :
    (user : ℤ) (id : String) (us : List Upload)
    → verify_upload_file_access user id us ≡ true
    → (user ≢ pos 0) × ((id ≡ "") ⊎ ((u : Upload) × Mem u us × (u.user_id ≡ user) × (u.id ≡ id)))
unfolding verify_upload_file_access
verify_upload_file_access_lem user id us h = (
  ground (arith, eqb_ℤ_iff user (pos 0)),
  elim (Bool-cases (id == "")) [
    | inl empty ↦ inl ((eq_iff id "").0 empty)
    | inr named ↦ elim (Option-cases (get_upload user id us)) [
      | inl none_found ↦ absurd (ground (arith, none_found))
      | inr (u, found) ↦ (let (m, o, i) = get_upload-Mem user id us u found in inr (u, m, o, i))
    ]
  ],
)
