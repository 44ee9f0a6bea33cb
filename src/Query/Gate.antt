-- ===== src/Query/Gate.antt =====
-- Which requests NewQuery lets through.
use odysee_api.Base.{
  String, Bool, ◌||◌, true, false, none, some, List, [], ◌∷◌, ◌≡◌, ◌≢◌, ◌⊎◌, arith, eq_iff, lookup,
  Dict,
}
use odysee_api.Errors.{Error, ok, err}
use odysee_api.Rpc.{
  Request, Value, to_json, new_rpc_err, code_internal, code_method_not_allowed, code_invalid_params,
  code_auth_required,
}
use odysee_api.Rpc.Codes.{error_code}
use odysee_api.Query.{
  Query, relaxed_methods, wallet_specific_methods, forbidden_params, param_account_id,
  param_new_sdk_server, method_in_list, forbidden_param, new_query, add_wallet, is_blank, entries,
  params_map, method_requires_wallet, method_accepts_wallet, is_authenticated,
}

-- The method stands in the list.
abbrev pub In : String → List String → Type 0
In m [] = ⊥
In m (x ∷ xs) = (x ≡ m) ⊎ In m xs

pub method_in_list_sound : (m : String) (xs : List String) → method_in_list m xs ≡ true → In m xs
unfolding method_in_list
method_in_list_sound m [] h = cc
method_in_list_sound m (x ∷ xs) h = ground (arith, eq_iff x m, method_in_list_sound m xs)

pub forbidden_param-none :
    (m : Dict Value)
    → forbidden_param forbidden_params m ≡ none
    → (lookup param_account_id m ≡ none) × (lookup param_new_sdk_server m ≡ none)
unfolding forbidden_param forbidden_params
forbidden_param-none m h = ground arith

-- A request that NewQuery accepts names a method of one of the two lists, carries neither an
-- account id nor the name of an SDK server, and without a wallet its method is a relaxed one.
pub new_query_sound :
    (req : Request) (w : String) (q : Query)
    → new_query req w ≡ ok q
    → (In req.method relaxed_methods ⊎ In req.method wallet_specific_methods)
      × (lookup param_account_id (entries (params_map req.params)) ≡ none)
      × (lookup param_new_sdk_server (entries (params_map req.params)) ≡ none)
      × ((w ≢ "") ⊎ In req.method relaxed_methods)
unfolding new_query add_wallet is_authenticated method_requires_wallet method_accepts_wallet
new_query_sound req w q h = ground (
  arith,
  eq_iff w "",
  method_in_list_sound req.method relaxed_methods,
  method_in_list_sound req.method wallet_specific_methods,
  forbidden_param-none (entries (params_map req.params)),
)

abbrev pub is_listed : String → Bool
is_listed m = method_in_list m relaxed_methods || method_in_list m wallet_specific_methods

-- A request that NewQuery refuses reaches the client, in the JSON of its error, by the first of
-- these reasons that holds: under the internal code if its method is blank; else as a method that is
-- not allowed if no list has the method; else as invalid parameters if it has a forbidden one; and
-- else as one that needs authentication, and then it has no wallet and its method is not a relaxed
-- one.
pub rejection_code :
    (req : Request) (w : String) (e : Error)
    → new_query req w ≡ err e
    → ((is_blank req.method ≡ true) × (error_code (to_json e) ≡ some code_internal))
      ⊎ ((is_blank req.method ≡ false)
          × (method_in_list req.method relaxed_methods ≡ false)
          × (method_in_list req.method wallet_specific_methods ≡ false)
          × (error_code (to_json e) ≡ some code_method_not_allowed))
      ⊎ ((is_blank req.method ≡ false)
          × (is_listed req.method ≡ true)
          × (p : String) × (forbidden_param forbidden_params (entries (params_map req.params))
              ≡ some p)
          × (error_code (to_json e) ≡ some code_invalid_params))
      ⊎ ((is_blank req.method ≡ false)
          × (is_listed req.method ≡ true)
          × (forbidden_param forbidden_params (entries (params_map req.params)) ≡ none)
          × (w ≡ "")
          × (method_in_list req.method relaxed_methods ≡ false)
          × (error_code (to_json e) ≡ some code_auth_required))
unfolding new_query add_wallet is_authenticated method_requires_wallet method_accepts_wallet to_json
    new_rpc_err
rejection_code req w e h = ground (arith, eq_iff w "")
