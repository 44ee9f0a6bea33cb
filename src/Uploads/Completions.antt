-- ===== src/Uploads/Completions.antt =====
-- The end of an upload: with a token that still holds, and with one that expired on the way.
use odysee_api.Base.{
  ℕ, ◌*◌, ◌<◌, ◌≤◌, String, ◌≡◌, ◌≢◌, refl, ap, Bool, true, false, Option, none, some, List, [],
  ◌∷◌, arith, ℤ, pos, Bool-cases, inl, inr, All,
}
use odysee_api.Base.Decimal.Reading.{IsInt32}
use odysee_api.Errors.{Error, Result, ok}
use odysee_api.Forklift.{Incoming}
use odysee_api.Keybox.{Jwt, IsJwt, generate_token}
use odysee_api.Queue.{Queue, Message, hour, send_by, send_message, set_message_options}
use odysee_api.Uploads.{Upload, completed, is_row, update, get_upload, mark_upload_completed}
use odysee_api.Uploads.Admission.{extract_user_id_from_request}
use odysee_api.Uploads.Tokens.{NoReserved, extract_user_id-generate_token, late_user}
use odysee_api.Uploads.Handing.{S3Location, listen_complete, upload_received}

get_upload-update :
    (user : ℤ) (id : String) (change : Upload → Upload) (us : List Upload) (u : Upload)
    → ((x : Upload) → is_row user id x ≡ true → is_row user id (change x) ≡ true)
    → get_upload user id us ≡ some u
    → get_upload user id (update (is_row user id) change us) ≡ some (change u)
unfolding get_upload update
get_upload-update user id change [] u keeps h = cc
get_upload-update user id change (x ∷ us) u keeps h = elim (Bool-cases (is_row user id x)) [
  | inl hit ↦ (let e : x ≡ u = ground arith in rw (hit, keeps x hit, e) refl)
  | inr miss ↦ rw (miss, miss) (get_upload-update user id change us u keeps (rw miss at h))
]

-- No row passes the test
update-none :
    (test : Upload → Bool) (change : Upload → Upload) (us : List Upload)
    → All (λ u. test u ≡ false) us
    → update test change us ≡ us
unfolding update
update-none test change [] h = refl
update-none test change (u ∷ us) (n, h) = rw n (ap (λ r. u ∷ r) (update-none test change us h))

module _ {Sk Pk T C H W : Type 0} (j : Jwt Sk Pk T) (laws : IsJwt j) (sk : Sk)
    (enqueue : Message C → W → Option Error × W) (upload_json : Incoming S3Location → Result String)
    (url_json : Incoming String → Result String) (quote : String → String) (user : ℤ) (expiry : ℕ)
    (fields : List String) (token : String) (n : NoReserved fields)
    (made : generate_token j sk user expiry fields ≡ some (ok token)) (ne : token ≢ "") (now : ℕ)
    (q : Queue C H) (client : C) (has_client : q.requests_client ≡ some client)
    (bucket id filename key body : String) where
  abbrev from_token : Result ℤ
  from_token = extract_user_id_from_request j quote (j.public sk) now token

  abbrev incoming : ℤ → Incoming S3Location
  incoming who = record {
    user_id = who;
    upload_id = id;
    file_name = filename;
    location = record { bucket = bucket; key = key };
  }

  -- The message to forklift
  abbrev message_to_forklift : Message C
  message_to_forklift = record {
    client = client;
    kind = "forklift:upload:incoming";
    body = body;
    options = record { retry = 10; timeout = 24 * hour; retention = 72 * hour };
  }

  received-world :
      (who : ℤ) (w : W)
      → upload_json (incoming who) ≡ ok body
      → (upload_received enqueue upload_json url_json q (incoming who) w).1
        ≡ (enqueue message_to_forklift w).1
  unfolding upload_received send_by send_message set_message_options
  received-world who w written = ground (arith, has_client, written)

  -- Where an upload is complete before its token expires, it is found as such under its user, with
  -- the name and the key of the file, and the queue is given one message for forklift: with the
  -- upload of that user in its body, ten retries, a day's time, and kept for three days.
  pub completion_sent :
      (us : List Upload) (w : W) (u : Upload)
      → IsInt32 user
      → now < expiry
      → get_upload user id us ≡ some u
      → upload_json (incoming user) ≡ ok body
      → let after =
          listen_complete enqueue upload_json url_json none
            (some q)
            bucket
            from_token
            id
            filename
            key
            us
            w in
        (get_upload user id after.0
          ≡ some (record u { status = completed; filename = filename; key = key }))
        × (after.1 ≡ (enqueue message_to_forklift w).1)
  unfolding listen_complete mark_upload_completed
  completion_sent us w u fits early there written =
      rw
        (extract_user_id-generate_token j laws sk quote user expiry fields token n made now fits
          early ne)
        (get_upload-update user id _ us u (λ x h. h) there, received-world user w written)

  -- Where the token expired before the upload is complete, the upload stays as it was, if none
  -- belongs to the user 0; but forklift is told of it all the same, as an upload of the user 0.
  pub late_completion_lost :
      (us : List Upload) (w : W)
      → expiry ≤ now
      → All (λ u. is_row (pos 0) id u ≡ false) us
      → upload_json (incoming (pos 0)) ≡ ok body
      → listen_complete enqueue upload_json url_json none
          (some q)
          bucket
          from_token
          id
          filename
          key
          us
          w
        ≡ (us, (enqueue message_to_forklift w).1)
  unfolding listen_complete mark_upload_completed
  late_completion_lost us w late nobody written =
      let (e, refused) = late_user j laws sk quote user expiry fields token n made now late ne in
      rw (refused, update-none (is_row (pos 0) id) _ us nobody, received-world (pos 0) w written)
        refl
