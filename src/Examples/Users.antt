-- ===== src/Examples/Users.antt =====
-- Users and their wallets (app/wallet, app/auth) over a small database and SDK.
use odysee_api.Base.{
  ℕ, ◌+◌, ◌≤◌, ◌<◌, String, ◌≡◌, ◌≢◌, ◌⊎◌, refl, true, false, Option, none, some, [], ◌∷◌, arith,
  pos, ℤ, inl, eqb_ℤ, if◌then◌else◌, ne_of_test, any, ◌==◌, drop_prefix,
}
use odysee_api.Errors.{Error, Result, ok, err, plain, sdk, sentinel, no_rows}
use odysee_api.SdkRouter.{Server, wallet_id}
use odysee_api.Wallet.{
  User, UserDb, WalletSdk, LbrynetServer, in_tx, create, local_user, in_tx_rounds,
  get_or_create_local_user, get_db_user,
}
use odysee_api.Wallet.Transactions.{counted, counted_work, no_counts, in_tx_balanced, is_ok}
use odysee_api.Wallet.Creation.{
  WalletState, absent, stored, loaded, SdkLaws, SaysExists, create_loads,
}
use odysee_api.Wallet.Assignment.{DbLaws, HasServer, local_user-HasServer}
use odysee_api.Wallet.Tokens.{
  UserInfo, RemoteUser, Login, authenticate, check_authorization, token_prefix,
}
use odysee_api.Wallet.Sessions.{authenticate_checked}
use odysee_api.Auth.{CurrentUser, middleware}

abbrev pub server : Server
server = record { name = "one"; address = "http://sdk"; private = false }

-- The world is the state of the wallet.
abbrev after_add : WalletState → Option Error × WalletState
after_add absent = (some (sdk "WalletNotFound" "no wallet"), absent)
after_add stored = (none, loaded)
after_add loaded = (some (sdk "WalletAlreadyLoaded" "loaded"), loaded)

abbrev after_create : WalletState → Option Error × WalletState
after_create absent = (none, loaded)
after_create stored = (some (sdk "WalletNotLoaded" "not loaded"), stored)
after_create loaded = (some (sdk "WalletAlreadyLoaded" "loaded"), loaded)

abbrev wallets : WalletSdk WalletState
wallets = record {
  wallet_create = λ address id w. after_create w;
  wallet_add = λ address id w. after_add w;
  wallet_remove = λ address id w. (none, stored);
  names = record {
    not_found = "WalletNotFound";
    already_exists = "WalletExists";
    not_loaded = "WalletNotLoaded";
    already_loaded = "WalletAlreadyLoaded";
  };
}

abbrev pub user : User
user = record { id = pos 7; idp_id = none; server_id = some (pos 1); server = some server }

-- A database with that user under every key; its update changes no row, since the user has a server
-- and there is no other.
abbrev db : UserDb WalletState
db = record {
  begin = λ w. (none, w);
  commit = λ w. (none, w);
  rollback = λ w. w;
  find = λ by w. (ok user, w);
  insert = λ u w. (none, w);
  set_server = λ s u w. (ok 0, w);
  reload = λ u w. (if eqb_ℤ u.id (pos 7) then ok user else err (sentinel no_rows), w);
  server_of = λ u w. (
    elim u.server_id [
      | some i ↦ if eqb_ℤ i (pos 1) then ok server else err (sentinel no_rows)
      | none ↦ err (sentinel no_rows)
    ],
    w,
  );
  update = λ u w. (none, w);
  delete = λ u w. (none, w);
}

wallets-SdkLaws : SdkLaws wallets "http://sdk" (wallet_id (pos 7)) (λ w. w)
wallets-SdkLaws = record {
  create_absent = λ w h. rw h (refl, refl);
  create_loaded = λ w h. rw h ("loaded", inl refl, refl);
  create_stored = λ w h. rw h ("not loaded", inl refl, refl);
  add_stored = λ w h. rw h (refl, refl);
  distinct = (
    ne_of_test "WalletNotFound" "WalletExists" refl,
    ne_of_test "WalletNotFound" "WalletNotLoaded" refl,
    ne_of_test "WalletNotFound" "WalletAlreadyLoaded" refl,
    ne_of_test "WalletExists" "WalletNotLoaded" refl,
    ne_of_test "WalletExists" "WalletAlreadyLoaded" refl,
    ne_of_test "WalletNotLoaded" "WalletAlreadyLoaded" refl,
  );
}

create_loads_example :
    ((create wallets "http://sdk" (pos 7) stored).0 ≡ none)
    × (((create wallets "http://sdk" (pos 7) stored).1 ≡ loaded)
        ⊎ ((stored ≡ stored)
            × ((create wallets "http://sdk" (pos 7) stored).1 ≡ stored)
            × SaysExists wallets (wallets.wallet_create "http://sdk" (wallet_id (pos 7)) stored).0))
create_loads_example = create_loads wallets "http://sdk" (pos 7) (λ w. w) wallets-SdkLaws stored

abbrev failing : WalletState → Result ℕ × WalletState
failing w = (err (plain "no"), w)

in_tx_balanced_example :
    let out = in_tx (counted db) (counted_work failing) (absent, no_counts) in
    let c = out.1.1 in
    (c.begun ≡ c.committed_count + c.rolled_back)
    × (c.runs ≡ c.begun)
    × (c.begun ≤ 2)
    × (c.committed_count ≤ 1)
    × (is_ok out.0 ≤ c.committed_count)
in_tx_balanced_example = in_tx_balanced db failing absent

abbrev servers : ℤ → Option Server
servers i = if eqb_ℤ i (pos 1) then some server else none

db-DbLaws : DbLaws db servers
db-DbLaws = record {
  joined = λ by w u i h s. ground arith;
  reloaded = λ i u v w h k. ground arith;
  related = λ u w s i h k. ground arith;
}

abbrev chosen : LbrynetServer
chosen = record { id = pos 1; server = server }

abbrev unknown : User
unknown = record { id = pos 7; idp_id = none; server_id = none; server = none }

one_ne_zero : pos 1 ≢ pos 0
one_ne_zero e = ground arith

logs_in : (local_user db wallets chosen unknown absent).0 ≡ ok user
unfolding local_user in_tx_rounds get_or_create_local_user get_db_user
logs_in = refl

local_user-HasServer_example : HasServer servers user
local_user-HasServer_example =
    local_user-HasServer db servers db-DbLaws wallets chosen one_ne_zero unknown user absent refl
      logs_in

abbrev no_user : WalletState → Result (Option User) × WalletState
no_user w = (ok none, w)

abbrev session : Login WalletState
session = record { cache = []; world = absent }

below : (n : ℕ) → 0 < n → 0 < n
below n h = h

abbrev info : UserInfo
info = record { aud = "odysee-apis" ∷ []; sub = "s" }

abbrev verify : String → Result UserInfo
verify token = ok info

abbrev remote : String → String → WalletState → Result RemoteUser × WalletState
remote token ip w = (ok (record { id = pos 7; has_verified_email = true }), w)

authenticated :
    (authenticate db wallets chosen remote verify "odysee-apis" "Bearer t" "1.2.3.4" absent).0
    ≡ ok user
unfolding authenticate check_authorization get_db_user
authenticated = refl

authenticate_checked_example :
    (bearer : String) × (claims : UserInfo) × (drop_prefix token_prefix "Bearer t" ≡ some bearer)
    × (verify bearer ≡ ok claims)
    × (any (λ a. a == "odysee-apis") claims.aud ≡ true)
authenticate_checked_example =
    authenticate_checked db wallets chosen remote verify "odysee-apis" "Bearer t" "1.2.3.4" absent
      user authenticated

abbrev knows : String → WalletState → CurrentUser × WalletState
knows token w = (record { user = some user; error = none }, w)

-- An authenticator whose transaction is not committed.
abbrev fails : String → WalletState → CurrentUser × WalletState
fails token w = (record { user = some user; error = some (plain "commit") }, w)

abbrev oauth : CurrentUser × WalletState
oauth = middleware fails (some "Bearer t") absent
