-- ===== src/Proxy/Users.antt =====
-- What a client reaches through Handle with and without a user.
use odysee_api.Base.{
  String, ◌≡◌, ◌≢◌, refl, sym, Bool, true, false, Option, none, some, List, [], arith, eq_iff, ◌==◌,
  Bool-cases, ◌∙◌, inl, inr, ℤ, pos, eqb_ℤ, eqb_ℤ_iff,
}
use odysee_api.Errors.{Error, Result, ok, err, err_text, Result-cases}
use odysee_api.Rpc.{Request, Response, to_json}
use odysee_api.Query.{
  Query, new_query, add_wallet, is_authenticated, method_requires_wallet, method_accepts_wallet,
}
use odysee_api.SdkRouter.{Server, wallet_id, get_sdk_address}
use odysee_api.Caller.{
  Sdk, Session, Builtin, Caller, call, attempts, add_backup_endpoints, add_postflight_hook,
  new_caller,
}
use odysee_api.Caller.Hooks.{call_refuses, call_forwards, NoneMatch}
use odysee_api.Wallet.{User}
use odysee_api.Auth.{CurrentUser}
use odysee_api.Proxy.{
  parsed, Reply, reply, ProxyHook, Routing, get_auth_error, auth_failure, proxy_caller, endpoints,
  run, write_result, call_at, handle_authorized, handle, user_id_of,
}

abbrev pub has_error : Option Reply → Bool
has_error none = true
has_error (some r) = elim r.body.error [ none ↦ false | some e ↦ true ]

accepted-relaxed :
    (req : Request) (q : Query)
    → new_query req "" ≡ ok q
    → method_requires_wallet req.method ≡ false
unfolding new_query add_wallet is_authenticated method_requires_wallet method_accepts_wallet
accepted-relaxed req q h = ground arith

module _ {W : Type 0} (sdk : Sdk W) (serialize : Response → Option Error) (audit : W → W)
    (run_builtin : Builtin
      → Session ProxyHook W
      → Result (Option Response) × Session ProxyHook W) where
  caller-user :
      (arfleet : Bool) (address : String) (user : ℤ) (backup : List String)
      → ((proxy_caller arfleet address user backup).user_id ≡ user)
        × ((proxy_caller arfleet address user backup).endpoint ≡ address)
  unfolding proxy_caller add_backup_endpoints add_postflight_hook new_caller
  caller-user arfleet address user backup = ground arith

  call-blank :
      (c : Caller ProxyHook) (req : Request) (w : W)
      → (c.endpoint == "") ≡ true
      → call sdk (run sdk serialize audit run_builtin) c req w
        ≡ (err (err_text "cannot call blank endpoint"), w)
  unfolding call
  call-blank c req w b = rw b refl

  -- Without a user and with a method that requires one, the caller refuses.
  call-refuses :
      (c : Caller ProxyHook) (req : Request) (w : W)
      → c.user_id ≡ pos 0
      → method_requires_wallet req.method ≡ true
      → (e : Error) × (call sdk (run sdk serialize audit run_builtin) c req w ≡ (err e, w))
  call-refuses c req w u m = elim (Bool-cases (c.endpoint == "")) [
    | inl blank ↦ (err_text "cannot call blank endpoint", call-blank c req w blank)
    | inr named ↦ elim (Result-cases (new_query req "")) [
      | inl (q, accepted) ↦ absurd (ground (arith, accepted-relaxed req q accepted))
      | inr (e, refused) ↦
          (let zero_id : eqb_ℤ c.user_id (pos 0) ≡ true = (eqb_ℤ_iff c.user_id (pos 0)).1 u in
            (
              e,
              call_refuses sdk (run sdk serialize audit run_builtin) c req w e
                  (λ b. ground (arith, eq_iff c.endpoint "")) (rw zero_id refused),
            ))
    ]
  ]

  to_json-has_error : (e : Error) → has_error (reply (to_json e)) ≡ true
  unfolding to_json
  to_json-has_error e = ground arith

  call_at-refuses :
      (arfleet : Bool) (user : ℤ) (req : Request) (w : W) (at : Option (String × List String))
      → user ≡ pos 0
      → method_requires_wallet req.method ≡ true
      → let out = call_at sdk serialize audit run_builtin arfleet user req w at in
        (out.1 ≡ w) × (has_error out.0 ≡ true)
  call_at-refuses arfleet user req w none u m = (refl, refl)
  call_at-refuses arfleet user req w (some (address, backup)) u m =
      let (e, refused) =
        call-refuses (proxy_caller arfleet address user backup) req w
          ((caller-user arfleet address user backup).0 ∙ u) m in
      rw refused (refl, to_json-has_error e)

  handle_authorized-refuses :
      (arfleet : Bool) (routing : Routing) (cu : CurrentUser) (req : Request) (w : W)
      (failure : Option Error)
      → user_id_of req cu.user ≡ pos 0
      → method_requires_wallet req.method ≡ true
      → let out =
          handle_authorized sdk serialize audit run_builtin arfleet routing cu req w failure in
        (out.1 ≡ w) × (has_error out.0 ≡ true)
  handle_authorized-refuses arfleet routing cu req w (some e) u m = (refl, to_json-has_error e)
  handle_authorized-refuses arfleet routing cu req w none u m =
      call_at-refuses arfleet (user_id_of req cu.user) req w _ u m

  -- A method that requires a wallet is refused to a client without a user: whether authentication
  -- gave an error or just no user, the reply has an error (or Handle panics, for a router without
  -- servers), and neither the SDK nor anything else of the world is reached.
  pub no_user_no_call :
      (arfleet : Bool) (routing : Routing) (cu : CurrentUser) (req : Request) (w : W)
      → cu.user ≡ none
      → method_requires_wallet req.method ≡ true
      → let out = handle sdk serialize audit run_builtin arfleet routing cu (parsed req) w in
        (out.1 ≡ w) × (has_error out.0 ≡ true)
  unfolding handle
  no_user_no_call arfleet routing cu req w u m =
      handle_authorized-refuses arfleet routing cu req w (auth_failure req cu) (ground arith) m

  user_endpoints :
      (routing : Routing) (u : User) (s : Server)
      → u.server ≡ some s
      → s.address ≢ ""
      → endpoints routing (get_sdk_address u.server) ≡ some (s.address, [])
  unfolding endpoints get_sdk_address
  user_endpoints routing u s hs ha = rw hs (ground (arith, eq_iff s.address ""))

  -- The request of a user, of a method that takes a wallet, is answered by the attempts at the
  -- server that the user's row is joined with, in the user's wallet: where NewQuery accepts it in
  -- that wallet and no hook matches its method.
  pub user_at_own_server :
      (arfleet : Bool) (routing : Routing) (u : User) (s : Server) (req : Request) (q : Query)
      (w : W)
      → u.server ≡ some s
      → s.address ≢ ""
      → u.id ≢ pos 0
      → method_accepts_wallet req.method ≡ true
      → new_query req (wallet_id u.id) ≡ ok q
      → NoneMatch q.request.method (proxy_caller arfleet s.address u.id []).preflight_hooks
      → NoneMatch q.request.method (proxy_caller arfleet s.address u.id []).postflight_hooks
      → handle sdk serialize audit run_builtin arfleet routing
          (record { user = some u; error = none })
          (parsed req)
          w
        ≡ write_result sdk serialize audit run_builtin (attempts sdk s.address u.id q.request 2 w)
  unfolding handle get_auth_error
  user_at_own_server arfleet routing u s req q w hs ha hi hm hq pre post =
      let cu : CurrentUser = record { user = some u; error = none } in
      let no_failure : auth_failure req cu ≡ none = ground arith in
      let by_id : user_id_of req (some u) ≡ u.id = ground (arith, hm) in
      let c = proxy_caller arfleet s.address u.id [] in
      let (same_user, same_endpoint) = caller-user arfleet s.address u.id [] in
      let not_zero : eqb_ℤ u.id (pos 0) ≡ false = ground (arith, eqb_ℤ_iff u.id (pos 0)) in
      let forwarded =
        call_forwards sdk (run sdk serialize audit run_builtin) c req w q
          (λ e. ha (sym same_endpoint ∙ e)) (rw (same_user, not_zero) hq) pre post in
      rw (no_failure, by_id, user_endpoints routing u s hs ha, forwarded, same_user, same_endpoint)
        refl
