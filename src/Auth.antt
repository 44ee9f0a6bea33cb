-- ===== src/Auth.antt =====
-- app/auth/auth.go and middleware.go: the user of a request. The internal API's client that the
-- source keeps beside the user is left out.
use odysee_api.Base.{String, Option, none, some, ◌==◌, if◌then◌else◌, ◌≡◌, ◌≢◌, ◌⊎◌}
use odysee_api.Errors.{Error, plain, err_text}
use odysee_api.Wallet.{User}

-- CurrentUser: the user and the error of its authentication, either of which may be nil.
pub record CurrentUser : Type 0 where
  pub user : Option User
  pub error : Option Error

-- FromRequest over GetCurrentUserData: the user that the middleware attached, if it ran.
unfoldable pub from_request : Option CurrentUser → CurrentUser
from_request none = record { user = none; error = some (err_text "auth middleware is required") }
from_request (some cu) = cu

-- wallet.ErrNoAuthInfo
abbrev pub no_auth_info : Error
no_auth_info = plain "authentication token missing"

module _ {W : Type 0} where
  -- Middleware, on the first `Authorization` header; it gives the token to the authenticator, which
  -- may return a user beside an error.
  unfoldable pub middleware : (String → W → CurrentUser × W) → Option String → W → CurrentUser × W
  middleware authenticate none w = (record { user = none; error = some no_auth_info }, w)
  middleware authenticate (some token) w = authenticate token w

  -- Without a legacy token the user that came before stays, beside the error.
  abbrev pub legacy_token :
      (String → W → CurrentUser × W) → String → W → Option User → CurrentUser × W
  legacy_token provider token w user =
      if token == ""
      then (record { user = user; error = some no_auth_info }, w)
      else provider token w

  abbrev pub legacy_on :
      (String → W → CurrentUser × W) → String → W → CurrentUser → Option Error → CurrentUser × W
  legacy_on provider token w cu none = (cu, w)
  legacy_on provider token w cu (some e) = legacy_token provider token w cu.user

  -- LegacyMiddleware, on the legacy header, which is empty where the request has none.
  unfoldable pub legacy_middleware :
      (String → W → CurrentUser × W) → String → Option CurrentUser → W → CurrentUser × W
  unfolding from_request
  legacy_middleware provider token cu w =
      legacy_on provider token w (from_request cu) (from_request cu).error

  -- Whose user a request has, once it went through both middlewares.
  abbrev pub Attached :
      (String → W → CurrentUser × W) → String → User → CurrentUser × W → CurrentUser × W → Type 0
  Attached provider token u first last =
      ((first.0.error ≡ none) × (first.0.user ≡ some u) × (last ≡ first))
      ⊎ ((first.0.error ≢ none)
          × (token ≡ "")
          × (first.0.user ≡ some u)
          × (last ≡ (record first.0 { error = some no_auth_info }, first.1)))
      ⊎ ((first.0.error ≢ none) × (token ≢ "") × (last ≡ provider token first.1))
