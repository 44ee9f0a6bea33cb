-- ===== src/Uploads/Admission.antt =====
-- apps/uploads/uploads.go: which requests go through authByToken and verifyUploadFileAccess. The
-- token of a request's header is an argument, empty where there is none; `quote` is strconv.Quote.
use Prim.Native.String.{◌++◌, count}
use odysee_api.Base.{ℕ, String, Option, none, some, List, ◌==◌, if◌then◌else◌, ℤ, leb}
use odysee_api.Base.Decimal.Reading.{Reading, value, err_syntax, err_range, parse_int32}
use odysee_api.Errors.{Error, plain, wrapped, Result, ok, err, message}
use odysee_api.AsyncQuery.{cut_last}
use odysee_api.Keybox.{Jwt, parse_token}
use odysee_api.Uploads.{Upload, verify_upload_file_access}

-- The path up to a slash at its end
abbrev without_slash : String → Option (String × String) → String
without_slash path none = path
without_slash path (some (before, after)) = if after == "" then before else path

abbrev last_segment : String → Option (String × String) → String
last_segment path none = path
last_segment path (some (before, after)) = after

-- extractUploadIDFromPath: the last segment of the path, if it has 32 characters.
unfoldable pub extract_upload_id_from_path : String → String
unfolding cut_last
extract_upload_id_from_path path =
    let whole = without_slash path (cut_last 47 path) in
    let segment = last_segment whole (cut_last 47 whole) in
    if leb 32 (count segment) then segment else ""

-- strconv.NumError
abbrev num_error : (String → String) → String → String → Error
num_error quote s what = plain ("strconv.ParseInt: parsing " ++ quote s ++ ": " ++ what)

abbrev pub user_of : (String → String) → String → Reading ℤ → Result ℤ
user_of quote s (value user) = ok user
user_of quote s err_syntax =
    err (wrapped "cannot parse user id: " (num_error quote s "invalid syntax"))
user_of quote s err_range =
    err (wrapped "cannot parse user id: " (num_error quote s "value out of range"))

-- A request that was answered with a status and a text, or one that goes on, with the user that is
-- put into its context, if one is.
pub data Admission : Type 0 where
  answered : ℕ → String → Admission
  passed : Option ℤ → Admission

module _ {Sk Pk T : Type 0} (j : Jwt Sk Pk T) (quote : String → String) (pk : Pk) (now : ℕ) where
  abbrev pub on_subject : String → Result ℤ
  on_subject s =
      if s == "" then err (plain "missing user id in token") else user_of quote s (parse_int32 s)

  abbrev pub validated : T → Option Error → Result ℤ
  validated t none = on_subject (j.subject t)
  validated t (some e) = err (wrapped "cannot validate token: " e)

  abbrev pub on_token : Option T × Option Error → Result ℤ
  on_token (t, some e) = err e
  on_token (none, none) = err (plain "unreachable")
  on_token (some t, none) = validated t (j.validate now t)

  -- extractUserIDFromRequest
  unfoldable pub extract_user_id_from_request : String → Result ℤ
  unfolding parse_token parse_int32
  extract_user_id_from_request token =
      if token == ""
      then err (plain "missing authentication token in request")
      else on_token (parse_token j pk now token)

  abbrev pub with_user : Result ℤ → Admission
  with_user (err e) = answered 401 (message e)
  with_user (ok user) = passed (some user)

  -- authByToken
  unfoldable pub auth_by_token : String → String → Admission
  unfolding extract_user_id_from_request
  auth_by_token method token =
      if method == "OPTIONS" then passed none else with_user (extract_user_id_from_request token)

  abbrev pub verified : String → List Upload → ℤ → Admission
  verified path us user =
      if verify_upload_file_access user (extract_upload_id_from_path path) us
      then passed (some user)
      else answered 404 "Not Found"

  abbrev pub then_verify : String → List Upload → Admission → Admission
  then_verify path us (passed (some user)) = verified path us user
  then_verify path us (passed none) = passed none
  then_verify path us (answered status m) = answered status m

  -- The two in the order of the routes of uploads. An OPTIONS request ends in between, at the
  -- middleware of tus.
  unfoldable pub admit : String → String → String → List Upload → Admission
  unfolding auth_by_token extract_upload_id_from_path
  admit method token path us = then_verify path us (auth_by_token method token)
