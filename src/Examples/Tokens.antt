-- ===== src/Examples/Tokens.antt =====
-- Tokens of the upload service (pkg/keybox, apps/uploads), an upload that ends with one, a URL that
-- is posted, and the locks of uploads.
use odysee_api.Base.{
  ℕ, suc, ◌*◌, String, ◌≡◌, ◌≢◌, ◌⊎◌, refl, false, Option, some, none, List, [], ◌∷◌, arith, pos,
  ne_of_test, lookup, insert, Dict, eqb, ltb, if◌then◌else◌,
}
use odysee_api.Base.Decimal.{itoa, decimal}
use odysee_api.Errors.{Error, Result, ok, err, plain}
use odysee_api.Forklift.{Incoming}
use odysee_api.Keybox.{Jwt, IsJwt, text_of, generate_token, add_claims}
use odysee_api.Queue.{
  Queue, Message, default_options, hour, send_by, send_message, set_message_options,
}
use odysee_api.Uploads.{Upload, created, completed, get_upload, verify_upload_file_access}
use odysee_api.Uploads.Owners.{Mem}
use odysee_api.Uploads.Admission.{
  admit, passed, extract_upload_id_from_path, extract_user_id_from_request,
}
use odysee_api.Uploads.Tokens.{NoReserved, extract_user_id-generate_token, admit-owner}
use odysee_api.Uploads.Payload.{UrlTools, url_created}
use odysee_api.Uploads.Handing.{S3Location, Url, listen_complete, replied, post_url, url_received}
use odysee_api.Uploads.Completions.{completion_sent, late_completion_lost}
use odysee_api.Redislocker.{Redsync, Lock, Locker, lock, unlock}
use odysee_api.Redislocker.Holders.{stale_unlock_forgets}

-- A library that knows one time of expiry, and whose tokens are their subjects.
abbrev jwt : Jwt ℕ ℕ String
jwt = record {
  public = λ k. k;
  build = λ claims expiry.
      if eqb expiry 100 then ok (text_of (lookup "sub" claims)) else err (plain "expiry");
  sign = λ k t. ok t;
  parse = λ k now s. if ltb now 100 then (some s, none) else (none, some (plain "expired"));
  validate = λ now t. none;
  subject = λ t. t;
}

jwt_laws : IsJwt jwt
jwt_laws = record {
  parses = λ sk claims expiry now t s u b w early. ground arith;
  expires = λ sk claims expiry now t s u b w late. (plain "expired", ground arith);
  validates = λ claims expiry now t u b early. refl;
  has_subject = λ claims expiry t b. ground arith;
}

abbrev quote : String → String
quote s = s

made : generate_token jwt 1 (pos 5) 100 ("upload_id" ∷ "up1" ∷ []) ≡ some (ok "5")
unfolding generate_token add_claims itoa decimal lookup insert
made = refl

not_empty : ◌≢◌ {A = String} "5" ""
not_empty = ne_of_test _ _ refl

abbrev fields : List String
fields = "upload_id" ∷ "up1" ∷ []

not_reserved : NoReserved fields
not_reserved = (
  (ne_of_test _ _ refl, tt),
  (ne_of_test _ _ refl, tt),
  (ne_of_test _ _ refl, tt),
  (ne_of_test _ _ refl, tt),
)

extract_user_id-generate_token_example :
    extract_user_id_from_request jwt quote 1 99 "5" ≡ ok (pos 5)
extract_user_id-generate_token_example =
    extract_user_id-generate_token jwt jwt_laws 1 quote (pos 5) 100 ("upload_id" ∷ "up1" ∷ []) "5"
      not_reserved made 99 (omega arith) (omega arith) not_empty

abbrev long_id : String
long_id = "0123456789abcdef0123456789abcdef"

abbrev upload : Upload
upload = record {
  id = long_id;
  user_id = pos 5;
  filename = "";
  key = "";
  status = created;
  size = 100;
  received = 0;
  sd_hash = "";
}

let_in :
    admit jwt quote 1 99 "PATCH" "5" "/0123456789abcdef0123456789abcdef/" (upload ∷ [])
    ≡ passed (some (pos 5))
unfolding admit verify_upload_file_access get_upload
let_in = refl

admit-owner_example :
    (pos 5 ≡ pos 5)
    × (pos 5 ≢ pos 0)
    × ((extract_upload_id_from_path "/0123456789abcdef0123456789abcdef/" ≡ "")
        ⊎ ((u : Upload) × Mem u (upload ∷ [])
            × (u.user_id ≡ pos 5)
            × (u.id ≡ extract_upload_id_from_path "/0123456789abcdef0123456789abcdef/")))
admit-owner_example =
    admit-owner jwt jwt_laws 1 quote (pos 5) 100 ("upload_id" ∷ "up1" ∷ []) "5" not_reserved made 99
      "PATCH" "/0123456789abcdef0123456789abcdef/" (upload ∷ []) (pos 5) (omega arith) (omega arith)
      not_empty let_in

-- A queue that keeps its messages
abbrev enqueue : Message ℕ → List (Message ℕ) → Option Error × List (Message ℕ)
enqueue m ms = (none, m ∷ ms)

abbrev queue : Queue ℕ ℕ
queue = record {
  options = default_options;
  requests_client = some 7;
  responses_client = none;
  handlers = [];
}

abbrev s3_json : Incoming S3Location → Result String
s3_json p = ok "upload"

abbrev url_json : Incoming String → Result String
url_json p = ok "url"

abbrev sent : Message ℕ
sent = record {
  client = 7;
  kind = "forklift:upload:incoming";
  body = "upload";
  options = record { retry = 10; timeout = 24 * hour; retention = 72 * hour };
}

row : get_upload (pos 5) long_id (upload ∷ []) ≡ some upload
unfolding get_upload
row = refl

completion_sent_example :
    let after =
      listen_complete enqueue s3_json url_json none
        (some queue)
        "bucket"
        (extract_user_id_from_request jwt quote 1 99 "5")
        long_id
        "a.mp4"
        "key"
        (upload ∷ [])
        [] in
    (get_upload (pos 5) long_id after.0
      ≡ some (record upload { status = completed; filename = "a.mp4"; key = "key" }))
    × (after.1 ≡ sent ∷ [])
completion_sent_example =
    completion_sent jwt jwt_laws 1 enqueue s3_json url_json quote (pos 5) 100
      ("upload_id" ∷ "up1" ∷ []) "5" not_reserved made not_empty 99 queue 7 refl "bucket" long_id
      "a.mp4" "key" "upload" (upload ∷ []) [] upload (omega arith) (omega arith) row refl

late_completion_lost_example :
    listen_complete enqueue s3_json url_json none
      (some queue)
      "bucket"
      (extract_user_id_from_request jwt quote 1 100 "5")
      long_id
      "a.mp4"
      "key"
      (upload ∷ [])
      []
    ≡ (upload ∷ [], sent ∷ [])
late_completion_lost_example =
    late_completion_lost jwt jwt_laws 1 enqueue s3_json url_json quote (pos 5) 100
      ("upload_id" ∷ "up1" ∷ []) "5" not_reserved made not_empty 100 queue 7 refl "bucket" long_id
      "a.mp4" "key" "upload" (upload ∷ []) [] (omega arith) (refl, tt) refl

abbrev url_tools : UrlTools
url_tools = record {
  byte_length = λ s. 18;
  parse_request_uri = λ s. ok "/a.mp4";
  base = λ s. "a.mp4";
  random_id = ok "id1";
}

abbrev url_sent : Message ℕ
url_sent = record {
  client = 7;
  kind = "forklift:url:incoming";
  body = "url";
  options = record { retry = 10; timeout = 24 * hour; retention = 72 * hour };
}

abbrev rows : Dict Url
rows = ("id1", record { user_id = pos 5; url = "http://host/a.mp4"; filename = "a.mp4" }) ∷ []

posted :
    post_url enqueue s3_json url_json url_tools none
      (plain "taken")
      (some queue)
      (pos 5)
      (ok "http://host/a.mp4")
      []
      []
    ≡ ((replied (url_created "id1"), url_sent ∷ []), rows)
unfolding post_url url_received send_by send_message set_message_options insert lookup
posted = refl

-- Locks that are always granted; the world counts the requests to let go.
abbrev redsync : Redsync ℕ ℕ ℕ
redsync = record {
  lock_context = λ m n. (none, n);
  unlock = λ m n. ((false, some (plain "expired")), n);
  request_release = λ f n. suc n;
  err_lock_timeout = plain "timeout";
  err_file_locked = plain "locked";
  is_over = λ n. false;
}

abbrev file_lock : ℕ → Lock ℕ
file_lock m = record { name = "up1"; mutex = m }

abbrev no_holders : Locker ℕ ℕ
no_holders = record { holders = []; world = 0 }

taken : (lock redsync (file_lock 1) 11 no_holders).0 ≡ none
unfolding lock
taken = refl

stale_unlock_forgets_example :
    (lock redsync
      (file_lock 3)
      13
      (unlock redsync (file_lock 1) (lock redsync (file_lock 2) 12 no_holders).1).1).1.world
    ≡ (unlock redsync (file_lock 1) (lock redsync (file_lock 2) 12 no_holders).1).1.world
stale_unlock_forgets_example =
    stale_unlock_forgets redsync (file_lock 1) (file_lock 3) 13
      (lock redsync (file_lock 2) 12 no_holders).1 refl
