-- ===== src/Examples/Uploading.antt =====
-- An upload from its creation to its end (apps/uploads).
use odysee_api.Base.{◌≡◌, ◌≢◌, true, List, [], ◌∷◌, refl, ℤ, pos, All, arith}
use odysee_api.Uploads.{
  Upload, Event, created, upload_created, upload_progress, upload_terminated,
  verify_upload_file_access, get_upload,
}
use odysee_api.Uploads.Lifecycle.{NotTerminated}

abbrev started : Upload
started = record {
  id = "up1";
  user_id = pos 5;
  filename = "";
  key = "";
  status = created;
  size = 100;
  received = 0;
  sd_hash = "";
}

abbrev table : List Upload
table = started ∷ []

-- Events of another user, for the same id too.
abbrev events : List (ℤ × Event)
events =
    (pos 6, upload_created "up2" 30)
    ∷ (pos 6, upload_terminated "up1")
    ∷ (pos 0, upload_progress "up1" 90)
    ∷ []

five_ne_six : pos 5 ≢ pos 6
five_ne_six e = ground arith

five_ne_zero : pos 5 ≢ pos 0
five_ne_zero e = ground arith

table-NotTerminated : All NotTerminated table
table-NotTerminated = ((λ e. cc), tt)

let_through : verify_upload_file_access (pos 5) "up1" table ≡ true
unfolding verify_upload_file_access get_upload
let_through = refl
