-- ===== src/Examples/Calls.antt =====
-- A caller at work (app/query/caller.go) with an SDK whose wallet is never loaded.
use odysee_api.Base.{
  ℕ, suc, ◌+◌, ◌≤◌, ◌<◌, String, ◌≡◌, ◌≢◌, ◌⊎◌, refl, true, Option, some, none, [], ◌∷◌, pos,
  lookup,
}
use odysee_api.Errors.{Result, ok, err, plain, sdk}
use odysee_api.Rpc.{
  Request, Response, null, object, member, no_members, text, new_auth_required_error, named,
  code_internal,
}
use odysee_api.Query.{
  Query, new_query, add_wallet, is_blank, method_in_list, relaxed_methods, wallet_specific_methods,
  forbidden_param, forbidden_params, method_accepts_wallet, method_requires_wallet,
  is_authenticated,
}
use odysee_api.Caller.{
  Sdk, SdkErrors, HookEntry, Caller, Session, Builtin, get_status_response, attempts,
  is_matching_hook,
}
use odysee_api.Caller.Retry.{Counted, counted, three_attempts, Settled}
use odysee_api.Caller.Hooks.{NoneMatch}
use odysee_api.Examples.Queries.{balance}

abbrev pub not_loaded_response : Response
not_loaded_response = record {
  jsonrpc = "2.0";
  result = null;
  error = some (record {
    code = code_internal;
    message = "not loaded";
    error_data = object (member "name" (text "WalletNotLoaded") no_members);
  });
  id = pos 7;
}

abbrev pub wallet_errors : SdkErrors
wallet_errors = record {
  names = record {
    not_found = "WalletNotFound";
    already_exists = "WalletExists";
    not_loaded = "WalletNotLoaded";
    already_loaded = "WalletAlreadyLoaded";
  };
  wrap_error = λ e. sdk "WalletNotLoaded" e.message;
}

-- Its world is the number of calls.
abbrev pub unloaded_sdk : Sdk ℕ
unloaded_sdk = record {
  call_raw = λ e req w. (ok not_loaded_response, suc w);
  load_wallet = λ e u w. (some (plain "no"), w);
  delete_user = λ u w. (none, w);
  errors = wallet_errors;
}

abbrev fresh : Counted ℕ
fresh = record { world = 0; calls = 0; loads = 0; deletions = 0 }

abbrev spent : Result Response × Counted ℕ
spent = attempts (counted unloaded_sdk) "sdk1" (pos 5) balance 2 fresh

three_attempts_example :
    (0 < spent.1.calls)
    × (spent.1.calls ≤ 0 + 3)
    × (spent.1.loads + 0 ≤ 0 + spent.1.calls)
    × ((spent.1.deletions ≡ 0) ⊎ ((spent.1.deletions ≡ 0 + 1) × (spent.1.calls ≡ 0 + 3)))
    × (Settled unloaded_sdk spent.0 ⊎ (spent.1.calls ≡ 0 + 3))
three_attempts_example = three_attempts unloaded_sdk "sdk1" (pos 5) balance fresh

abbrev status_hook : HookEntry Builtin
status_hook = record { method = "account_list"; function = get_status_response; name = "test" }

abbrev pub anonymous : Caller Builtin
anonymous = record {
  preflight_hooks = [];
  postflight_hooks = status_hook ∷ [];
  user_id = pos 0;
  endpoint = "sdk1";
  backup_endpoints = "sdk1" ∷ "sdk2" ∷ [];
}

abbrev user : Caller Builtin
user = record anonymous { user_id = pos 5 }

first_in_range : (n : ℕ) → 0 < n → 0 < n
first_in_range n h = h

abbrev resolve_request : Request
resolve_request = record { method = "resolve"; params = named []; id = pos 2; jsonrpc = "2.0" }

abbrev resolve_query : Query
resolve_query = record { request = resolve_request; wallet_id = "" }

resolve-made : new_query resolve_request "" ≡ ok resolve_query
unfolding new_query add_wallet is_authenticated is_blank method_in_list relaxed_methods
    wallet_specific_methods forbidden_param forbidden_params method_accepts_wallet
    method_requires_wallet lookup
resolve-made = refl

abbrev resolve_hook : HookEntry Builtin
resolve_hook = record { method = "resolve"; function = get_status_response; name = "test" }

resolve_hook-matches : is_matching_hook "resolve" resolve_hook ≡ true
unfolding is_matching_hook
resolve_hook-matches = refl

abbrev silent : Builtin → Session Builtin ℕ → Result (Option Response) × Session Builtin ℕ
silent f s = (ok none, s)

abbrev session : Session Builtin ℕ
session = record { caller = anonymous; query = resolve_query; response = none; world = 0 }

endpoint_ne : ◌≢◌ {A = String} "sdk1" ""
endpoint_ne e = cc

none_after : NoneMatch "resolve" (status_hook ∷ [])
unfolding is_matching_hook
none_after = (refl, tt)

balance-refused : new_query balance "" ≡ err new_auth_required_error
unfolding new_query add_wallet is_authenticated is_blank method_in_list relaxed_methods
    wallet_specific_methods forbidden_param forbidden_params method_accepts_wallet
    method_requires_wallet lookup
balance-refused = refl
