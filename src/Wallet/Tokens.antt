-- ===== src/Wallet/Tokens.antt =====
-- How a token becomes a user: the token cache (app/wallet/cache.go), GetUserWithSDKServer
-- (wallet.go) and the authenticator of OAuth tokens (oauth.go). The cache is one in memory, where
-- nothing expires; the clock, the internal API, the verifier of tokens and the oauth2 library are
-- arguments.
use odysee_api.Base.{
  ℕ, ◌+◌, ◌*◌, ◌^◌, String, Bool, Option, none, some, List, ◌==◌, if◌then◌else◌, ℤ, any, Dict,
  lookup, insert, drop_prefix,
}
use odysee_api.Errors.{Error, Result, ok, err, is, err_of, err_text, no_rows}
use odysee_api.Wallet.{
  User, UserDb, by_id, by_idp_id, WalletSdk, LbrynetServer, get_db_user, local_user,
}

-- remoteUser
pub record RemoteUser : Type 0 where
  pub id : ℤ
  pub has_verified_email : Bool

abbrev pub ttl_unconfirmed : ℕ
ttl_unconfirmed = 15 * 10 ^ 9

abbrev pub ttl_confirmed : ℕ
ttl_confirmed = 15 * 60 * 10 ^ 9

abbrev base_ttl : Option User → ℕ
base_ttl none = ttl_unconfirmed
base_ttl (some u) = ttl_confirmed

-- How long a user stays in the cache, in nanoseconds; `int63n` is rand.Int63n.
unfoldable pub token_ttl : (ℕ → ℕ) → Option User → ℕ
token_ttl int63n u = base_ttl u + int63n (base_ttl u)

-- The cache of the process beside the rest.
pub record Login (W : Type 0) : Type 0 where
  pub cache : Dict (Option User)
  pub world : W

module _ {W : Type 0} where
  abbrev pub keep_user :
      String → Dict (Option User) → Result (Option User) × W → Result (Option User) × Login W
  keep_user token cache (err e, w) = (err e, record { cache = cache; world = w })
  keep_user token cache (ok u, w) = (ok u, record { cache = insert token u cache; world = w })

  -- tokenCache.get
  unfoldable pub get :
      String → (W → Result (Option User) × W) → Login W → Result (Option User) × Login W
  get token retriever s = elim (lookup token s.cache) [
    | some u ↦ (ok u, s)
    | none ↦ keep_user token s.cache (retriever s.world)
  ]

  abbrev pub as_known : Result User × W → Result (Option User) × W
  as_known (ok u, w) = (ok (some u), w)
  as_known (err e, w) = (err e, w)

abbrev pub new_user : ℤ → Option String → User
new_user id idp = record { id = id; idp_id = idp; server_id = none; server = none }

module _ {W : Type 0} (db : UserDb W) (sdk : WalletSdk W) (chosen : LbrynetServer) where
  -- What a token that the cache does not have is looked up by.
  abbrev pub of_remote : Result RemoteUser × W → Result (Option User) × W
  of_remote (err e, w) = (err e, w)
  of_remote (ok remote, w) =
      if remote.has_verified_email
      then as_known (local_user db sdk chosen (new_user remote.id none) w)
      else (ok none, w)

  -- GetUserWithSDKServer; `remote` is GetRemoteUserLegacy of the internal API's server.
  unfoldable pub get_user_with_sdk_server :
      (String → String → W → Result RemoteUser × W)
      → String
      → String
      → Login W
      → Result (Option User) × Login W
  unfolding get local_user
  get_user_with_sdk_server remote token ip s = get token (λ w. of_remote (remote token ip w)) s

abbrev pub token_prefix : String
token_prefix = "Bearer "

-- The claims of a token that the program reads.
pub record UserInfo : Type 0 where
  pub aud : List String
  pub sub : String

-- checkAuthorization
unfoldable pub check_authorization : String → UserInfo → Option Error
check_authorization client info =
    if any (λ a. a == client) info.aud
    then none
    else some (err_text "this token is not meant for Odysee APIs")

abbrev pub traced_info : Result UserInfo → Result UserInfo
traced_info (ok i) = ok i
traced_info (err e) = err (err_of e)

module _ {W : Type 0} (db : UserDb W) (sdk : WalletSdk W) (chosen : LbrynetServer)
    (remote : String → String → W → Result RemoteUser × W) where
  abbrev pub after_idp_update : User → Option Error × W → Result User × W
  after_idp_update u (none, w) = (ok u, w)
  after_idp_update u (some e, w) = (err (err_of e), w)

  -- The user of the internal API's id, who is given the id of the identity provider.
  abbrev pub by_remote_id : String → RemoteUser → Result User × W → Result User × W
  by_remote_id sub r (ok u, w) =
      let known = record u { idp_id = some sub } in after_idp_update known (db.update known w)
  by_remote_id sub r (err e, w) =
      if is e no_rows then local_user db sdk chosen (new_user r.id (some sub)) w else (err e, w)

  abbrev pub after_remote : String → Result RemoteUser × W → Result User × W
  after_remote sub (err e, w) = (err e, w)
  after_remote sub (ok r, w) = by_remote_id sub r (get_db_user db (by_id r.id) w)

  abbrev pub by_sub : String → String → String → Result User × W → Result User × W
  by_sub sub token ip (ok u, w) = (ok u, w)
  by_sub sub token ip (err e, w) =
      if is e no_rows then after_remote sub (remote token ip w) else (err e, w)

  abbrev pub authorized : String → String → String → W → Result UserInfo → Result User × W
  authorized client token ip w (err e) = (err e, w)
  authorized client token ip w (ok info) = elim (check_authorization client info) [
    | some e ↦ (err e, w)
    | none ↦ by_sub info.sub token ip (get_db_user db (by_idp_id info.sub) w)
  ]

  abbrev pub with_bearer :
      (String → Result UserInfo) → String → String → W → Option String → Result User × W
  with_bearer verify client ip w none = (err (err_text "token passed must be Bearer token"), w)
  with_bearer verify client ip w (some token) =
      authorized client token ip w (traced_info (verify token))

  -- Authenticate, less the user that its last return may have beside an error; `verify` is the verification of a token and the reading of its claims, and
  -- `remote` is GetRemoteUser.
  unfoldable pub authenticate :
      (String → Result UserInfo) → String → String → String → W → Result User × W
  unfolding check_authorization get_db_user local_user
  authenticate verify client token ip w =
      with_bearer verify client ip w (drop_prefix token_prefix token)
