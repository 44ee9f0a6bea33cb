-- ===== src/Wallet.antt =====
-- app/wallet: users and their wallets on the SDK servers.
mod Database
pub use Database.*
unfoldable pub use Database.{
  pg_code, get_db_user, delete_db_user, in_tx_rounds, create_user, get_or_create_local_user,
}
pub mod Transactions
pub mod Creation
pub mod Assignment
pub mod Tokens
pub mod Sessions
use odysee_api.Base.{
  ℕ, zero, suc, ◌+◌, ◌*◌, ◌^◌, String, Bool, true, false, Option, none, some, List, [], ◌∷◌, ◌==◌,
  if◌then◌else◌, ℤ, pos, eqb_ℤ, eqb, any, Dict, lookup, insert, starts_with,
}
use odysee_api.Errors.{
  Error, Result, ok, err, is, err_of, err_text, no_rows, new_wallet_error, WalletErrorNames,
  wallet_already_loaded, wallet_exists, wallet_not_loaded,
}
use odysee_api.SdkRouter.{Server, wallet_id}

-- What the program uses of ljsonrpc on a server, and the error names of that package.
pub record WalletSdk (W : Type 0) : Type 0 where
  pub wallet_create : String → String → W → Option Error × W
  pub wallet_add : String → String → W → Option Error × W
  pub wallet_remove : String → String → W → Option Error × W
  pub names : WalletErrorNames

module _ {W : Type 0} (sdk : WalletSdk W) where
  abbrev pub wallet_failure : Option Error × W → Option Error × W
  wallet_failure (none, w) = (none, w)
  wallet_failure (some e, w) = (some (new_wallet_error sdk.names e), w)

  -- createWallet
  unfoldable pub create_wallet : String → ℤ → W → Option Error × W
  create_wallet address user w = wallet_failure (sdk.wallet_create address (wallet_id user) w)

  unfoldable pub load_wallet : String → ℤ → W → Option Error × W
  load_wallet address user w = wallet_failure (sdk.wallet_add address (wallet_id user) w)

  unfoldable pub unload_wallet : String → ℤ → W → Option Error × W
  unload_wallet address user w = wallet_failure (sdk.wallet_remove address (wallet_id user) w)

  abbrev pub after_load : Option Error × W → Option Error × W
  after_load (none, w) = (none, w)
  after_load (some e, w) = if is e wallet_already_loaded then (none, w) else (some e, w)

  abbrev pub after_create : String → ℤ → Option Error × W → Option Error × W
  after_create address user (none, w) = (none, w)
  after_create address user (some e, w) =
      if is e wallet_already_loaded
      then (none, w)
      else if is e wallet_exists
      then (none, w)
      else if is e wallet_not_loaded
      then after_load (load_wallet address user w)
      else (some e, w)

  -- Create
  unfoldable pub create : String → ℤ → W → Option Error × W
  unfolding create_wallet load_wallet
  create address user w = after_create address user (create_wallet address user w)

-- models.LbrynetServer with its id, which is 0 for a server of the configuration.
pub record LbrynetServer : Type 0 where
  pub id : ℤ
  pub server : Server

module _ {W : Type 0} (db : UserDb W) (sdk : WalletSdk W) where
  abbrev pub after_creation : User → Option Error × W → Result User × W
  after_creation u (none, w) = (ok u, w)
  after_creation u (some e, w) = (err e, w)

  -- The end of the assignment: the server is loaded into the user, and a wallet is created where
  -- this request made the assignment.
  abbrev pub after_server : Server → Bool → User → Result Server × W → Result User × W
  after_server chosen fresh u (err e, w) = (err (err_of e), w)
  after_server chosen true u (ok srv, w) =
      after_creation (record u { server = some srv }) (create sdk chosen.address u.id w)
  after_server chosen false u (ok srv, w) = (ok (record u { server = some srv }), w)

  abbrev pub after_reload : Server → Result User × W → Result User × W
  after_reload chosen (err e, w) = (err (err_of e), w)
  after_reload chosen (ok u, w) = after_server chosen false u (db.server_of u w)

  -- No row is changed where another request got there first; that one made the wallet.
  abbrev pub after_count : LbrynetServer → User → W → ℕ → Result User × W
  after_count chosen u w zero = after_reload chosen.server (db.reload u w)
  after_count chosen u w (suc n) =
      let assigned = record u { server_id = some chosen.id } in
      after_server chosen.server true assigned (db.server_of assigned w)

  abbrev pub after_update : LbrynetServer → User → Result ℕ × W → Result User × W
  after_update chosen u (err e, w) = (err (err_of e), w)
  after_update chosen u (ok count, w) = after_count chosen u w count

  abbrev pub assign_new : LbrynetServer → User → W → Result User × W
  assign_new chosen u w =
      if eqb_ℤ u.id (pos 0)
      then (err (err_text "user must already exist in db"), w)
      else if eqb_ℤ chosen.id (pos 0)
      then after_creation u (create sdk chosen.server.address u.id w)
      else after_update chosen u (db.set_server chosen.id u.id w)

  -- assignSDKServerToUser; the user that it changes is returned.
  unfoldable pub assign_sdk_server_to_user : LbrynetServer → User → W → Result User × W
  unfolding create
  assign_sdk_server_to_user chosen u w = elim u.server_id [
    | some i ↦
        if eqb_ℤ u.id (pos 0)
        then (err (err_text "user must already exist in db"), w)
        else (err (err_text "user already has an sdk assigned"), w)
    | none ↦ assign_new chosen u w
  ]

  abbrev pub assign_if_none : LbrynetServer → Result User × W → Result User × W
  assign_if_none chosen (err e, w) = (err e, w)
  assign_if_none chosen (ok u, w) = elim u.server_id [
    | some i ↦ (ok u, w)
    | none ↦ assign_sdk_server_to_user chosen u w
  ]

  -- The transaction of GetUserWithSDKServer and of Authenticate, with the least loaded server.
  unfoldable pub local_user : LbrynetServer → User → W → Result User × W
  unfolding assign_sdk_server_to_user get_or_create_local_user in_tx_rounds
  local_user chosen u w = in_tx db (λ v. assign_if_none chosen (get_or_create_local_user db u v)) w
