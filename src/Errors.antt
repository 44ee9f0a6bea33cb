-- ===== src/Errors.antt =====
-- internal/errors/errors.go: the values of Go's `error` that the program builds, with the
-- stack traces left out. internal/lbrynet/errors.go has the wallet errors.
pub mod Chain
use Prim.Native.String.{◌++◌}
use odysee_api.Base.{String, Bool, true, false, ℤ, ◌==◌, if◌then◌else◌, ◌≡◌, refl, ◌⊎◌, inl, inr}

-- The package-level error variables that the program compares with `errors.Is`. Each is one
-- pointer, so two of them differ even where their messages agree.
pub data Sentinel : Type 0 where
  auth_required claim_not_found need_signed_url need_signed_livestream_url : Sentinel
  wallet_not_found wallet_exists wallet_not_loaded wallet_already_loaded : Sentinel
  no_rows sdk_net_error err_upload : Sentinel

pub data Error : Type 0 where
  -- a package-level variable
  sentinel : Sentinel → Error
  -- fmt.Errorf or errors.New without `%w`
  plain : String → Error
  -- fmt.Errorf with `%w` at the end, the text before it
  wrapped : String → Error → Error
  -- fmt.Errorf with `%w`, the text before it and the text after it
  enclosed : String → Error → String → Error
  -- *traced, with its prefix
  traced : String → Error → Error
  -- rpcerrors.RPCError, with its code
  rpc : ℤ → Error → Error
  -- lbrynet.WalletError
  wallet_error : Error → Error
  -- ljsonrpc.Error: its name and message
  sdk : String → String → Error
  -- pq.Error: its code and message
  pg : String → String → Error

unfoldable pub same_sentinel : Sentinel → Sentinel → Bool
same_sentinel auth_required auth_required = true
same_sentinel claim_not_found claim_not_found = true
same_sentinel need_signed_url need_signed_url = true
same_sentinel need_signed_livestream_url need_signed_livestream_url = true
same_sentinel wallet_not_found wallet_not_found = true
same_sentinel wallet_exists wallet_exists = true
same_sentinel wallet_not_loaded wallet_not_loaded = true
same_sentinel wallet_already_loaded wallet_already_loaded = true
same_sentinel no_rows no_rows = true
same_sentinel sdk_net_error sdk_net_error = true
same_sentinel err_upload err_upload = true
same_sentinel _ _ = false

-- Is, which calls through to the builtin errors.Is: the chain of `Unwrap` is searched.
unfoldable pub is : Error → Sentinel → Bool
unfolding same_sentinel
is (sentinel s) t = same_sentinel s t
is (plain m) t = false
is (wrapped m e) t = is e t
is (enclosed m e n) t = is e t
is (traced p e) t = is e t
is (rpc c e) t = is e t
is (wallet_error e) t = is e t
is (sdk n m) t = false
is (pg c m) t = false

abbrev sentinel_message : Sentinel → String
sentinel_message auth_required = "authentication required"
sentinel_message claim_not_found = "couldn't find claim"
sentinel_message need_signed_url = "need signed url"
sentinel_message need_signed_livestream_url = "need signed url"
sentinel_message wallet_not_found = "wallet not found"
sentinel_message wallet_exists = "wallet exists and is loaded"
sentinel_message wallet_not_loaded = "wallet is not loaded"
sentinel_message wallet_already_loaded = "wallet is already loaded"
sentinel_message no_rows = "sql: no rows in result set"
sentinel_message sdk_net_error = "network level sdk error"
sentinel_message err_upload = "several errors detected uploading blobs"

abbrev pub show_prefixed : String → String → String
show_prefixed p m = if p == "" then m else p ++ ": " ++ m

-- Error(); an RPCError and a WalletError show the error that they hold.
unfoldable pub message : Error → String
message (sentinel s) = sentinel_message s
message (plain m) = m
message (wrapped m e) = m ++ message e
message (enclosed m e n) = m ++ message e ++ n
message (traced p e) = show_prefixed p (message e)
message (rpc c e) = message e
message (wallet_error e) = message e
message (sdk n m) = m
message (pg c m) = m

-- The error of `wrap`: an error that is traced comes back as it is. `claim_not_found` and the
-- two `need_signed` variables are built by `Err` and so are traced themselves.
unfoldable pub err_of : Error → Error
err_of (traced p e) = traced p e
err_of (sentinel claim_not_found) = sentinel claim_not_found
err_of (sentinel need_signed_url) = sentinel need_signed_url
err_of (sentinel need_signed_livestream_url) = sentinel need_signed_livestream_url
err_of e = traced "" e

-- Err applied to a text with no parameters.
abbrev pub err_text : String → Error
err_text m = traced "" (plain m)

abbrev pub join_prefix : String → String → String
join_prefix prefix old = if old == "" then prefix else prefix ++ ": " ++ old

-- Prefix of an error that is not one of the traced variables; the source writes the new prefix
-- into the traced error that it was given.
unfoldable pub prefix : String → Error → Error
prefix p (traced old e) = traced (join_prefix p old) e
prefix p e = traced p e

-- The error names of ljsonrpc that NewWalletError tells apart; their texts are that package's.
pub record WalletErrorNames : Type 0 where
  pub not_found : String
  pub already_exists : String
  pub not_loaded : String
  pub already_loaded : String

-- NewWalletError
unfoldable pub new_wallet_error : WalletErrorNames → Error → Error
new_wallet_error names (sdk name m) =
    if name == names.not_found
    then wallet_error (sentinel wallet_not_found)
    else if name == names.already_exists
    then wallet_error (sentinel wallet_exists)
    else if name == names.not_loaded
    then wallet_error (sentinel wallet_not_loaded)
    else if name == names.already_loaded
    then wallet_error (sentinel wallet_already_loaded)
    else wallet_error (sdk name m)
new_wallet_error names e = wallet_error e

-- The pair of a value and an error that a fallible function returns, where the source never uses
-- the value beside an error.
pub data Result {ℓ} (A : Type ℓ) : Type ℓ where
  ok : A → Result A
  err : Error → Result A

-- A return, or a panic.
pub data Exit (A : Type 0) : Type 0 where
  returned : Result A → Exit A
  panicked : Exit A

pub Result-cases {ℓ} :
    {A : Type ℓ} (r : Result A) → ((a : A) × (r ≡ ok a)) ⊎ ((e : Error) × (r ≡ err e))
Result-cases (ok a) = inl (a, refl)
Result-cases (err e) = inr (e, refl)
