-- ===== src/Proxy.antt =====
-- app/proxy/proxy.go: Handle takes a client's HTTP request to the caller and writes its response.
-- Metrics, logs and the device of a client are left out.
pub mod Users
use odysee_api.Base.{
  ℕ, String, Bool, true, false, ◌&&◌, Option, none, some, List, [], ◌∷◌, map, ◌==◌, if◌then◌else◌,
  ℤ, pos,
}
use odysee_api.Errors.{Error, Result, ok, err, err_text}
use odysee_api.Rpc.{Request, Response, to_json, new_json_parse_error, new_internal_error}
use odysee_api.Query.{method_requires_wallet, method_accepts_wallet, method_wallet_send}
use odysee_api.SdkRouter.{
  Router, Server, get_sdk_address, random_server, get_all_addresses, reload_servers_from_db,
}
use odysee_api.Caller.{
  Sdk, HookEntry, Caller, Session, Builtin, new_caller, add_backup_endpoints, add_postflight_hook,
  call,
}
use odysee_api.Wallet.{User}
use odysee_api.Auth.{CurrentUser}

-- What the body of the HTTP request is: missing, unreadable, no JSON, the JSON text `null`, or a
-- request.
pub data Body : Type 0 where
  no_body unreadable nil_request : Body
  malformed : Error → Body
  parsed : Request → Body

pub record Reply : Type 0 where
  pub status : ℕ
  pub body : Response

-- The built-in hooks and the two that Handle adds.
pub data ProxyHook : Type 0 where
  builtin : Builtin → ProxyHook
  log_remote_ip audit_wallet_send : ProxyHook

-- The router, the times and the answers of the database at its two reloads, and rand.Intn.
pub record Routing : Type 0 where
  pub router : Router
  pub now : ℕ
  pub later : ℕ
  pub answer : Result (List Server)
  pub later_answer : Result (List Server)
  pub int_n : ℕ → ℕ

abbrev pub reply : Response → Option Reply
reply r = some (record { status = 200; body = r })

abbrev pub bad_request : String → Option Reply
bad_request m = some (record { status = 400; body = to_json (new_json_parse_error (err_text m)) })

-- GetAuthError
unfoldable pub get_auth_error : Option User → Option Error → Option Error
get_auth_error (some u) none = none
get_auth_error (some u) (some e) = some e
get_auth_error none e = e

abbrev pub auth_failure : Request → CurrentUser → Option Error
auth_failure req cu =
    if method_requires_wallet req.method then get_auth_error cu.user cu.error else none

abbrev id_or_zero : Option User → ℤ
id_or_zero none = pos 0
id_or_zero (some u) = u.id

abbrev pub user_id_of : Request → Option User → ℤ
user_id_of req u = if method_accepts_wallet req.method then id_or_zero u else pos 0

abbrev pub server_of : Option User → Option Server
server_of none = none
server_of (some u) = u.server

abbrev entry_of : HookEntry Builtin → HookEntry ProxyHook
entry_of h = record { method = h.method; function = builtin h.function; name = h.name }

abbrev lifted : Caller Builtin → Caller ProxyHook
lifted c = record {
  preflight_hooks = map entry_of c.preflight_hooks;
  postflight_hooks = map entry_of c.postflight_hooks;
  user_id = c.user_id;
  endpoint = c.endpoint;
  backup_endpoints = c.backup_endpoints;
}

-- The caller of a request at an address.
unfoldable pub proxy_caller : Bool → String → ℤ → List String → Caller ProxyHook
unfolding new_caller add_backup_endpoints add_postflight_hook
proxy_caller arfleet address user_id backup =
    add_postflight_hook method_wallet_send audit_wallet_send "" (
      add_postflight_hook "wallet_" log_remote_ip ""
        (add_backup_endpoints backup (lifted (new_caller arfleet address user_id))))

abbrev pub address_of : Option Server → Option String
address_of none = none
address_of (some s) = some s.address

-- The endpoint and its backups: those of the user's server, or a random server of the router.
-- `none` is the panic of a router without servers.
unfoldable pub endpoints : Routing → String → Option (String × List String)
unfolding random_server get_all_addresses reload_servers_from_db
endpoints routing address =
    if address == ""
    then (let reloaded = reload_servers_from_db routing.now routing.answer routing.router in
        let again = reload_servers_from_db routing.later routing.later_answer reloaded in
        elim (address_of (random_server routing.int_n reloaded)) [
          | none ↦ none
          | some a ↦ some (a, get_all_addresses again)
        ])
    else some (address, [])

module _ {W : Type 0} (sdk : Sdk W) (serialize : Response → Option Error) (audit : W → W)
    (run_builtin : Builtin
      → Session ProxyHook W
      → Result (Option Response) × Session ProxyHook W) where
  -- What the hooks do; `audit` is LogQuery of the request's body.
  unfoldable pub run :
      ProxyHook → Session ProxyHook W → Result (Option Response) × Session ProxyHook W
  run (builtin f) s = run_builtin f s
  run log_remote_ip s = (ok none, s)
  run audit_wallet_send s = (ok none, record s { world = audit s.world })

  abbrev pub serialized : Response → Option Error → Option Reply
  serialized r none = reply r
  serialized r (some e) = reply (to_json (new_internal_error e))

  abbrev pub write_result : Result Response × W → Option Reply × W
  write_result (err e, w) = (reply (to_json e), w)
  write_result (ok r, w) = (serialized r (serialize r), w)

  abbrev pub call_at : Bool → ℤ → Request → W → Option (String × List String) → Option Reply × W
  call_at arfleet user_id req w none = (none, w)
  call_at arfleet user_id req w (some (address, backup)) =
      write_result (call sdk run (proxy_caller arfleet address user_id backup) req w)

  abbrev pub handle_authorized :
      Bool → Routing → CurrentUser → Request → W → Option Error → Option Reply × W
  handle_authorized arfleet routing cu req w (some e) = (reply (to_json e), w)
  handle_authorized arfleet routing cu req w none =
      call_at arfleet (user_id_of req cu.user) req w
        (endpoints routing (get_sdk_address (server_of cu.user)))

  -- Handle; `none` is a panic.
  unfoldable pub handle : Bool → Routing → CurrentUser → Body → W → Option Reply × W
  unfolding endpoints get_auth_error run proxy_caller
  handle arfleet routing cu no_body w = (bad_request "empty request body", w)
  handle arfleet routing cu unreadable w = (bad_request "error reading request body", w)
  handle arfleet routing cu (malformed e) w = (reply (to_json (new_json_parse_error e)), w)
  handle arfleet routing cu nil_request w = (none, w)
  handle arfleet routing cu (parsed req) w =
      handle_authorized arfleet routing cu req w (auth_failure req cu)
