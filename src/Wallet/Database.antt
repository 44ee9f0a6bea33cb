-- ===== src/Wallet/Database.antt =====
-- The users' database of app/wallet/wallet.go: inTx, getOrCreateLocalUser, createUser, getDBUser,
-- deleteDBUser and the update of a user's server. The database is a record of operations over a
-- world `W`, which other requests may change between two of them.
use odysee_api.Base.{
  ℕ, zero, suc, String, Bool, true, false, Option, none, some, ◌==◌, if◌then◌else◌, ℤ,
}
use odysee_api.Errors.{
  Error, sentinel, plain, wrapped, enclosed, traced, rpc, wallet_error, sdk, pg, Result, ok, err,
  is, no_rows, err_of,
}
use odysee_api.SdkRouter.{Server}

-- models.User: its server's id, and the server that it is joined with.
pub record User : Type 0 where
  pub id : ℤ
  pub idp_id : Option String
  pub server_id : Option ℤ
  pub server : Option Server

-- ByID and ByIDPID
pub data By : Type 0 where
  by_id : ℤ → By
  by_idp_id : String → By

pub record UserDb (W : Type 0) : Type 0 where
  pub begin : W → Option Error × W
  pub commit : W → Option Error × W
  pub rollback : W → W
  -- the row with its server; without a row the error is `no_rows`
  pub find : By → W → Result User × W
  pub insert : User → W → Option Error × W
  -- the update of a server that is null; its result is the number of rows
  pub set_server : ℤ → ℤ → W → Result ℕ × W
  pub reload : User → W → Result User × W
  pub server_of : User → W → Result Server × W
  pub update : User → W → Option Error × W
  pub delete : User → W → Option Error × W

-- errors.As into a *pq.Error: the code of the first one in the chain.
unfoldable pub pg_code : Error → String
pg_code (sentinel s) = ""
pg_code (plain m) = ""
pg_code (wrapped m e) = pg_code e
pg_code (enclosed m e n) = pg_code e
pg_code (traced p e) = pg_code e
pg_code (rpc c e) = pg_code e
pg_code (wallet_error e) = pg_code e
pg_code (sdk n m) = ""
pg_code (pg c m) = c

-- By the id of the identity provider, if there is one.
abbrev pub lookup_of : User → By
lookup_of u = elim u.idp_id [ none ↦ by_id u.id | some i ↦ by_idp_id i ]

abbrev pub unique_constraint_violation : String
unique_constraint_violation = "23505"

abbrev pub aborted_transaction_violation : String
aborted_transaction_violation = "25P02"

abbrev pub with_trace : {A W : Type 0} → Result A × W → Result A × W
with_trace (ok a, w) = (ok a, w)
with_trace (err e, w) = (err (err_of e), w)

abbrev pub trace_none : {W : Type 0} → Option Error × W → Option Error × W
trace_none (none, w) = (none, w)
trace_none (some e, w) = (some (err_of e), w)

module _ {W : Type 0} (db : UserDb W) where
  -- getDBUser, and GetDBUserG
  unfoldable pub get_db_user : By → W → Result User × W
  get_db_user by w = with_trace (db.find by w)

  abbrev delete_found : Result User × W → Option Error × W
  delete_found (err e, w) = (some (err_of e), w)
  delete_found (ok u, w) = trace_none (db.delete u w)

  -- deleteDBUser, and DeleteUser
  unfoldable pub delete_db_user : ℤ → W → Option Error × W
  unfolding get_db_user
  delete_db_user id w = delete_found (get_db_user (by_id id) w)

  module _ {A : Type 0} (f : W → Result A × W) where
    abbrev pub committed : A → Option Error × W → Result A × W
    committed a (none, w) = (ok a, w)
    committed a (some e, w) = (err e, w)

    -- A round whose work failed: a transaction that was aborted goes to `retry`.
    abbrev pub after_failure : (Error → W → Result A × W) → Error → W → Bool → Result A × W
    after_failure retry e w true = retry e (db.rollback w)
    after_failure retry e w false = (err e, db.rollback w)

    abbrev pub after_work : (Error → W → Result A × W) → Result A × W → Result A × W
    after_work retry (ok a, w) = committed a (db.commit w)
    after_work retry (err e, w) =
        after_failure retry e w (pg_code e == aborted_transaction_violation)

    abbrev pub after_begin : (Error → W → Result A × W) → Option Error × W → Result A × W
    after_begin retry (some e, w) = (err e, w)
    after_begin retry (none, w) = after_work retry (f w)

    -- The rounds of inTx, `left` of them after this one.
    unfoldable pub in_tx_rounds : ℕ → W → Result A × W
    unfolding pg_code
    in_tx_rounds zero w = after_begin (λ e v. (err e, v)) (db.begin w)
    in_tx_rounds (suc left) w = after_begin (λ e v. in_tx_rounds left v) (db.begin w)

  -- inTx, with txMaxRetries rounds
  abbrev pub in_tx : {A : Type 0} → (W → Result A × W) → W → Result A × W
  in_tx f w = in_tx_rounds f 1 w

  abbrev pub after_insert : User → Option Error × W → Result User × W
  after_insert u (none, w) = (ok u, w)
  after_insert u (some e, w) =
      if pg_code e == unique_constraint_violation then get_db_user (lookup_of u) w else (err e, w)

  -- createUser
  unfoldable pub create_user : User → W → Result User × W
  unfolding get_db_user pg_code
  create_user u w = after_insert u (db.insert u w)

  abbrev pub found_or_create : User → Result User × W → Result User × W
  found_or_create u (ok found, w) = (ok found, w)
  found_or_create u (err e, w) = if is e no_rows then create_user u w else (err e, w)

  -- getOrCreateLocalUser
  unfoldable pub get_or_create_local_user : User → W → Result User × W
  unfolding create_user get_db_user
  get_or_create_local_user u w = found_or_create u (get_db_user (lookup_of u) w)
