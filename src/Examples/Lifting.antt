-- ===== src/Examples/Lifting.antt =====
-- A file on its way through apps/forklift, where the queue does not take the last message.
use odysee_api.Base.{ℕ, suc, String, ◌≡◌, refl, some, none, [], pos}
use odysee_api.Errors.{plain, ok}
use odysee_api.Forklift.{Tools, Incoming, handle_upload, meta_of, path_ext}
use odysee_api.AsyncQuery.{cut_first, cut_last}
use odysee_api.Forklift.Runs.{logged, IsRun, handle_upload-IsRun}

abbrev tools : Tools String ℕ
tools = record {
  retrieve = λ id location n. (ok (record { name = "/tmp/up1"; size = 9 }), suc n);
  analyze = λ file name n.
      ((some (record { mime = "video/mp4"; extension = ".mp4"; media = none }), none), suc n);
  split = λ file blobs name n. (ok (record { hash = "h"; sd_hash = "s"; size = 9 }), suc n);
  upload = λ file blobs name n. (ok 0, suc n);
  marshal = λ meta. some "meta";
  mark_processed = λ id hash meta n. (none, suc n);
  send_response = λ finished n. (some (plain "no queue"), suc n);
  delete_source = λ location n. (none, suc n);
  remove_blobs = λ blobs n. (none, suc n);
  cleanup = λ file n. (none, suc n);
  blobs_of = λ name. name;
}

abbrev incoming : Incoming String
incoming = record { user_id = pos 7; upload_id = "up1"; file_name = "a.b/c"; location = "bucket" }

extension_added :
    (meta_of "a.b/c"
      (record { mime = "video/mp4"; extension = ".mp4"; media = none })
      (record { hash = "h"; sd_hash = "s"; size = 9 })).file_name
    ≡ "a.b/c.mp4"
unfolding meta_of path_ext cut_first cut_last
extension_added = refl

handle_upload-IsRun_example :
    IsRun
      (handle_upload (logged tools) "forklift:upload:incoming" (some incoming) (0, [])).0
      (handle_upload (logged tools) "forklift:upload:incoming" (some incoming) (0, [])).1.1
handle_upload-IsRun_example = handle_upload-IsRun tools incoming 0
