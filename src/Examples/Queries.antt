-- ===== src/Examples/Queries.antt =====
-- Requests that NewQuery takes and refuses (app/query/query.go), and errors on their way out.
use odysee_api.Base.{
  String, ◌≡◌, ◌≢◌, refl, true, false, some, none, [], ◌∷◌, pos, insert, lookup, ◌==◌,
  if◌then◌else◌, ◌⊎◌,
}
use odysee_api.Errors.{Error, ok, err, wrapped, traced, sentinel, auth_required}
use odysee_api.Rpc.{
  Request, text, named, to_json, code_internal, code_method_not_allowed, code_invalid_params,
  code_auth_required, new_auth_required_error,
}
use odysee_api.Rpc.Codes.{error_code}
use odysee_api.Query.{
  Query, new_query, set_wallet, add_wallet, is_blank, method_in_list, relaxed_methods,
  wallet_specific_methods, forbidden_param, forbidden_params, method_accepts_wallet,
  method_requires_wallet, is_authenticated, entries, params_map, params_as_map, param_wallet_id,
  param_account_id, param_new_sdk_server,
}
use odysee_api.Query.Gate.{In, new_query_sound, rejection_code, is_listed}
use odysee_api.Query.Wallets.{wallet_is_callers}

-- A request of a client that names another's wallet.
abbrev pub balance : Request
balance = record {
  method = "account_balance";
  params = named (("wallet_id", text "theirs") ∷ ("confirmations", text "3") ∷ []);
  id = pos 7;
  jsonrpc = "2.0";
}

abbrev pub made : String → Query
made w = set_wallet (record { request = balance; wallet_id = w })

pub balance-made : new_query balance "mine" ≡ ok (made "mine")
unfolding new_query add_wallet is_authenticated is_blank method_in_list relaxed_methods
    wallet_specific_methods forbidden_param forbidden_params method_accepts_wallet
    method_requires_wallet insert lookup
balance-made = refl

pub takes_wallet : method_accepts_wallet "account_balance" ≡ true
unfolding method_accepts_wallet method_in_list wallet_specific_methods
takes_wallet = refl

pub mine_ne : ◌≢◌ {A = String} "mine" ""
mine_ne e = cc

-- The same request with no wallet.
abbrev get_request : Request
get_request = record {
  method = "get";
  params = named (("uri", text "lbry://one") ∷ []);
  id = pos 1;
  jsonrpc = "2.0";
}

get-made : new_query get_request "" ≡ ok (record { request = get_request; wallet_id = "" })
unfolding new_query add_wallet is_authenticated is_blank method_in_list relaxed_methods
    wallet_specific_methods forbidden_param forbidden_params method_accepts_wallet
    method_requires_wallet lookup
get-made = refl

refused : new_query balance "" ≡ err new_auth_required_error
unfolding new_query add_wallet is_authenticated is_blank method_in_list relaxed_methods
    wallet_specific_methods forbidden_param forbidden_params method_accepts_wallet
    method_requires_wallet insert lookup
refused = refl

new_query_sound_example :
    (In "account_balance" relaxed_methods ⊎ In "account_balance" wallet_specific_methods)
    × (lookup param_account_id (entries (params_map balance.params)) ≡ none)
    × (lookup param_new_sdk_server (entries (params_map balance.params)) ≡ none)
    × (◌≢◌ {A = String} "mine" "" ⊎ In "account_balance" relaxed_methods)
new_query_sound_example = new_query_sound balance "mine" (made "mine") balance-made

rejection_code_example :
    ((is_blank "account_balance" ≡ true)
      × (error_code (to_json new_auth_required_error) ≡ some code_internal))
    ⊎ ((is_blank "account_balance" ≡ false)
        × (method_in_list "account_balance" relaxed_methods ≡ false)
        × (method_in_list "account_balance" wallet_specific_methods ≡ false)
        × (error_code (to_json new_auth_required_error) ≡ some code_method_not_allowed))
    ⊎ ((is_blank "account_balance" ≡ false)
        × (is_listed "account_balance" ≡ true)
        × (p : String) × (forbidden_param forbidden_params (entries (params_map balance.params))
            ≡ some p)
        × (error_code (to_json new_auth_required_error) ≡ some code_invalid_params))
    ⊎ ((is_blank "account_balance" ≡ false)
        × (is_listed "account_balance" ≡ true)
        × (forbidden_param forbidden_params (entries (params_map balance.params)) ≡ none)
        × (◌≡◌ {A = String} "" "")
        × (method_in_list "account_balance" relaxed_methods ≡ false)
        × (error_code (to_json new_auth_required_error) ≡ some code_auth_required))
rejection_code_example = rejection_code balance "" new_auth_required_error refused

wallet_is_callers_example :
    (lookup param_wallet_id (entries (params_as_map (made "mine"))) ≡ (
      if param_wallet_id == param_wallet_id
      then some (text "mine")
      else lookup param_wallet_id (entries (params_map balance.params))))
    × ((made "mine").request.method ≡ balance.method)
    × ((made "mine").request.id ≡ balance.id)
wallet_is_callers_example =
    wallet_is_callers balance "mine" (made "mine") param_wallet_id balance-made takes_wallet mine_ne

-- An error that was traced twice.
abbrev refusal : Error
refusal = traced "sdk" (wrapped "call: " (sentinel auth_required))

proxy_ne : ◌≢◌ {A = String} "proxy" ""
proxy_ne e = cc
