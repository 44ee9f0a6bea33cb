-- ===== src/Examples/Proxying.antt =====
-- A client's request through Handle (app/proxy/proxy.go).
use odysee_api.Base.{
  ℕ, ◌≡◌, ◌≢◌, refl, true, false, Option, none, some, [], ◌∷◌, arith, pos, ne_of_test, lookup,
}
use odysee_api.Base.Decimal.{decimal}
use odysee_api.Errors.{Error, Result, ok}
use odysee_api.Rpc.{Response}
use odysee_api.Query.{
  new_query, add_wallet, is_authenticated, is_blank, method_in_list, relaxed_methods,
  wallet_specific_methods, forbidden_param, forbidden_params, method_accepts_wallet,
  method_requires_wallet,
}
use odysee_api.SdkRouter.{wallet_id}
use odysee_api.Caller.{
  Session, Builtin, attempts, is_matching_hook, new_caller, add_preflight_hook, add_postflight_hook,
  add_backup_endpoints,
}
use odysee_api.Caller.Hooks.{NoneMatch}
use odysee_api.Proxy.{parsed, ProxyHook, Routing, proxy_caller, handle, write_result}
use odysee_api.Proxy.Users.{has_error, no_user_no_call, user_at_own_server}
use odysee_api.Examples.Queries.{balance, made}
use odysee_api.Examples.Calls.{unloaded_sdk}
use odysee_api.Examples.Users.{user, server}

abbrev quiet : Builtin → Session ProxyHook ℕ → Result (Option Response) × Session ProxyHook ℕ
quiet f s = (ok none, s)

abbrev routing : Routing
routing = record {
  router = record { servers = server ∷ []; least_loaded = none; use_db = false; last_loaded = 0 };
  now = 1;
  later = 2;
  answer = ok [];
  later_answer = ok [];
  int_n = λ n. 0;
}

abbrev plain_json : Response → Option Error
plain_json r = none

abbrev same_world : ℕ → ℕ
same_world n = n

requires : method_requires_wallet "account_balance" ≡ true
unfolding method_requires_wallet method_in_list relaxed_methods
requires = refl

no_user_no_call_example :
    let out =
      handle unloaded_sdk plain_json same_world quiet false routing
        (record { user = none; error = none })
        (parsed balance)
        3 in
    (out.1 ≡ 3) × (has_error out.0 ≡ true)
no_user_no_call_example =
    no_user_no_call unloaded_sdk plain_json same_world quiet false routing
      (record { user = none; error = none }) balance 3 refl requires

accepts : method_accepts_wallet "account_balance" ≡ true
unfolding method_accepts_wallet method_in_list wallet_specific_methods
accepts = refl

accepted : new_query balance (wallet_id (pos 7)) ≡ ok (made (wallet_id (pos 7)))
unfolding new_query add_wallet is_authenticated is_blank method_in_list relaxed_methods
    wallet_specific_methods forbidden_param forbidden_params method_accepts_wallet
    method_requires_wallet lookup wallet_id decimal
accepted = refl

none_before :
    NoneMatch "account_balance" (proxy_caller false "http://sdk" (pos 7) []).preflight_hooks
unfolding proxy_caller new_caller add_preflight_hook add_postflight_hook add_backup_endpoints
    is_matching_hook
none_before = (refl, (refl, (refl, (refl, (refl, tt)))))

none_after :
    NoneMatch "account_balance" (proxy_caller false "http://sdk" (pos 7) []).postflight_hooks
unfolding proxy_caller new_caller add_preflight_hook add_postflight_hook add_backup_endpoints
    is_matching_hook
none_after = (refl, (refl, tt))

seven_ne_zero : pos 7 ≢ pos 0
seven_ne_zero e = ground arith

user_at_own_server_example :
    handle unloaded_sdk plain_json same_world quiet false routing
      (record { user = some user; error = none })
      (parsed balance)
      0
    ≡ write_result unloaded_sdk plain_json same_world quiet
        (attempts unloaded_sdk "http://sdk" (pos 7) (made (wallet_id (pos 7))).request 2 0)
user_at_own_server_example =
    user_at_own_server unloaded_sdk plain_json same_world quiet false routing user server balance
      (made (wallet_id (pos 7))) 0 refl (ne_of_test "http://sdk" "" refl) seven_ne_zero accepts
      accepted none_before none_after
