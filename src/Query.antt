-- ===== src/Query.antt =====
-- app/query/query.go: the check and the rewriting that every client request goes through.
mod Const
pub mod Gate
pub mod Wallets
pub use Const.*
unfoldable pub use Const.{forbidden_params, relaxed_methods, wallet_specific_methods}
use Prim.Native.String.{◌++◌}
use Prim.Native.String
use Prim.Native.Char.{code}
use odysee_api.Base.{
  ℕ, String, Bool, true, false, ◌&&◌, ◌||◌, not, Option, none, some, List, [], ◌∷◌, leb, eqb, ◌==◌,
  if◌then◌else◌, Dict, insert, contains, ℤ, any,
}
use odysee_api.Errors.{
  Error, sentinel, plain, auth_required, err_text, Result, ok, err, claim_not_found,
}
use odysee_api.Rpc.{
  Value, null, text, Params, absent, named, other, Request, Response, new_method_not_allowed_error,
  new_invalid_params_error, new_auth_required_error,
}

pub record Query : Type 0 where
  pub request : Request
  pub wallet_id : String

-- strings.TrimSpace leaves nothing: every character is white space to `unicode.IsSpace`.
is_space : ℕ → Bool
is_space c =
    (leb 9 c && leb c 13)
    || eqb c 32
    || eqb c 0x85
    || eqb c 0xa0
    || eqb c 0x1680
    || (leb 0x2000 c && leb c 0x200a)
    || eqb c 0x2028
    || eqb c 0x2029
    || eqb c 0x202f
    || eqb c 0x205f
    || eqb c 0x3000

unfoldable pub is_blank : String → Bool
unfolding is_space
is_blank String.[] = true
is_blank (String.◌∷◌ c s) = is_space (code c) && is_blank s

unfoldable pub method_in_list : String → List String → Bool
method_in_list m [] = false
method_in_list m (x ∷ xs) = x == m || method_in_list m xs

unfoldable pub method_requires_wallet : String → Bool
method_requires_wallet m = not (method_in_list m relaxed_methods)

unfoldable pub method_accepts_wallet : String → Bool
method_accepts_wallet m = method_in_list m wallet_specific_methods

-- ParamsAsMap; CopyParamsAsMap returns the same entries.
abbrev pub params_map : Params → Option (Dict Value)
params_map absent = none
params_map (named m) = some m
params_map (other v) = none

abbrev pub params_as_map : Query → Option (Dict Value)
params_as_map q = params_map q.request.params

-- The entries to read: a nil map has none.
abbrev pub entries : Option (Dict Value) → Dict Value
entries none = []
entries (some m) = m

unfoldable pub is_authenticated : Query → Bool
is_authenticated q = not (q.wallet_id == "")

-- The loop over `forbiddenParams`: the first that the map has.
unfoldable pub forbidden_param : List String → Dict Value → Option String
forbidden_param [] m = none
forbidden_param (p ∷ ps) m = if contains p m then some p else forbidden_param ps m

abbrev pub set_wallet : Query → Query
set_wallet q = record q {
  request = record q.request {
    params = named (insert param_wallet_id (text q.wallet_id) (entries (params_as_map q)));
  };
}

-- The last `if` of NewQuery.
unfoldable pub add_wallet : Query → Result Query
unfolding is_authenticated
add_wallet q =
    if method_accepts_wallet q.request.method
    then (if is_authenticated q
        then ok (set_wallet q)
        else if method_requires_wallet q.request.method
        then err new_auth_required_error
        else ok q)
    else ok q

-- NewQuery. The source writes the wallet into the map of the request that it was given; here the
-- request that was changed is the one in the query.
unfoldable pub new_query : Request → String → Result Query
unfolding add_wallet
new_query req wallet_id =
    if is_blank req.method
    then err (err_text "no method in request")
    else if not (method_in_list req.method relaxed_methods)
        && not (method_in_list req.method wallet_specific_methods)
    then err (new_method_not_allowed_error (err_text "forbidden method"))
    else elim (forbidden_param forbidden_params (entries (params_map req.params))) [
      | some p ↦ err (new_invalid_params_error (plain ("forbidden parameter supplied: " ++ p)))
      | none ↦ add_wallet (record { request = req; wallet_id = wallet_id })
    ]

-- newResponse
unfoldable pub new_response : Query → Response
new_response q = record {
  jsonrpc = q.request.jsonrpc;
  result = null;
  error = none;
  id = q.request.id;
}
