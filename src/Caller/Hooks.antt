-- ===== src/Caller/Hooks.antt =====
-- Which hooks run.
use odysee_api.Base.{
  String, ◌≡◌, ◌≢◌, ◌⊎◌, inl, inr, Bool, true, false, ◌&&◌, Option, none, List, [], ◌∷◌, ◌++◌,
  arith, refl, ◌==◌, eq_iff, pos, eqb_ℤ, if◌then◌else◌,
}
use odysee_api.Errors.{Error, Result, ok, err}
use odysee_api.Rpc.{Request, Response}
use odysee_api.SdkRouter.{wallet_id}
use odysee_api.Query.{
  Query, relaxed_methods, wallet_specific_methods, method_get, method_resolve, method_status,
  method_claim_search, new_query,
}
use odysee_api.Query.Gate.{In, new_query_sound}
use odysee_api.Caller.{
  HookEntry, Caller, Session, is_matching_hook, preflight, postflight, send_query, after_attempts,
  call, Sdk, attempts,
}

abbrev hook_on : String → HookEntry (Unit {0})
hook_on m = record { method = m; function = tt; name = "" }

-- A hook's method names that one method among these.
abbrev exact_on : String → List String → Bool
exact_on hook [] = true
exact_on hook (m ∷ ms) =
    elim (is_matching_hook m (hook_on hook)) [ true ↦ hook == m | false ↦ true ] && exact_on hook ms

exact_on_sound :
    (hook m : String) (ms : List String)
    → exact_on hook ms ≡ true
    → In m ms
    → is_matching_hook m (hook_on hook) ≡ true
    → hook ≡ m
exact_on_sound hook m [] h i k = elim i [ ]
exact_on_sound hook m (x ∷ ms) h (inl e) k = ground (arith, eq_iff hook x)
exact_on_sound hook m (x ∷ ms) h (inr i) k = exact_on_sound hook m ms (ground arith) i k

tables :
    (exact_on method_get (relaxed_methods ++ wallet_specific_methods) ≡ true)
    × (exact_on method_resolve (relaxed_methods ++ wallet_specific_methods) ≡ true)
    × (exact_on method_status (relaxed_methods ++ wallet_specific_methods) ≡ true)
    × (exact_on method_claim_search (relaxed_methods ++ wallet_specific_methods) ≡ true)
unfolding is_matching_hook relaxed_methods wallet_specific_methods
tables = (refl, refl, refl, refl)

abbrev pub builtin_methods : List String
builtin_methods = method_status ∷ method_get ∷ method_claim_search ∷ method_resolve ∷ []

In-append_left : (m : String) (xs ys : List String) → In m xs → In m (xs ++ ys)
In-append_left m [] ys h = elim h [ ]
In-append_left m (x ∷ xs) ys (inl e) = inl e
In-append_left m (x ∷ xs) ys (inr h) = inr (In-append_left m xs ys h)

In-append_right : (m : String) (xs ys : List String) → In m ys → In m (xs ++ ys)
In-append_right m [] ys h = h
In-append_right m (x ∷ xs) ys h = inr (In-append_right m xs ys h)

exact_of_In :
    (hook : String)
    → In hook builtin_methods
    → exact_on hook (relaxed_methods ++ wallet_specific_methods) ≡ true
exact_of_In hook (inl e) = rw (← e) tables.2
exact_of_In hook (inr (inl e)) = rw (← e) tables.0
exact_of_In hook (inr (inr (inl e))) = rw (← e) tables.3
exact_of_In hook (inr (inr (inr (inl e)))) = rw (← e) tables.1
exact_of_In hook (inr (inr (inr (inr h)))) = elim h [ ]

forget_function :
    {F : Type 0} (m : String) (h : HookEntry F)
    → is_matching_hook m h ≡ is_matching_hook m (hook_on h.method)
unfolding is_matching_hook
forget_function m h = refl

-- Although a hook matches every method that its own begins, a hook on a method that has a built-in
-- hook runs only for that method: of the methods that NewQuery accepts no other begins with it.
pub builtin_hooks_exact :
    {F : Type 0} (h : HookEntry F) (req : Request) (w : String) (q : Query)
    → new_query req w ≡ ok q
    → In h.method builtin_methods
    → is_matching_hook req.method h ≡ true
    → h.method ≡ req.method
builtin_hooks_exact h req w q accepted builtin k =
    exact_on_sound h.method req.method (relaxed_methods ++ wallet_specific_methods)
      (exact_of_In h.method builtin) (listed (new_query_sound req w q accepted).0)
      (rw forget_function at k)
  where
    listed :
        (In req.method relaxed_methods ⊎ In req.method wallet_specific_methods)
        → In req.method (relaxed_methods ++ wallet_specific_methods)
    listed (inl i) = In-append_left req.method relaxed_methods wallet_specific_methods i
    listed (inr i) = In-append_right req.method relaxed_methods wallet_specific_methods i

-- No hook of the list matches the method.
abbrev pub NoneMatch : {F : Type 0} → String → List (HookEntry F) → Type 0
NoneMatch m [] = Unit {0}
NoneMatch m (h ∷ hs) = (is_matching_hook m h ≡ false) × NoneMatch m hs

module _ {F W : Type 0} (sdk : Sdk W)
    (run : F → Session F W → Result (Option Response) × Session F W) where
  preflight-NoneMatch :
      (hs : List (HookEntry F)) (s : Session F W)
      → NoneMatch s.query.request.method hs
      → preflight run hs s ≡ (ok none, s)
  unfolding preflight
  preflight-NoneMatch [] s h = refl
  preflight-NoneMatch (x ∷ hs) s (h, hr) = rw (h, preflight) (preflight-NoneMatch hs s hr)

  postflight-NoneMatch :
      (m : String) (hs : List (HookEntry F)) (r : Response) (s : Session F W)
      → NoneMatch m hs
      → postflight run m hs r s ≡ (ok r, s)
  unfolding postflight
  postflight-NoneMatch m [] r s h = refl
  postflight-NoneMatch m (x ∷ hs) r s (h, hr) =
      rw (h, postflight) (postflight-NoneMatch m hs r s hr)

  after_attempts-NoneMatch :
      (q : Query) (s : Session F W) (out : Result Response × W)
      → NoneMatch q.request.method s.caller.postflight_hooks
      → after_attempts run q s out ≡ (out.0, record s { world = out.1 })
  unfolding after_attempts
  after_attempts-NoneMatch q s (err e, w) h = refl
  after_attempts-NoneMatch q s (ok r, w) h =
      rw (postflight-NoneMatch q.request.method s.caller.postflight_hooks r _ h)

  send_query-NoneMatch :
      (q : Query) (s : Session F W)
      → NoneMatch q.request.method s.caller.postflight_hooks
      → let out = attempts sdk s.caller.endpoint s.caller.user_id q.request 2 s.world in
        send_query sdk run q s ≡ (out.0, record s { world = out.1 })
  unfolding send_query
  send_query-NoneMatch q s h = after_attempts-NoneMatch q s _ h

  -- At an endpoint that is not blank, a request that NewQuery accepts and that no hook matches is
  -- answered by the SDK's attempts at the rewritten request, response, error and all.
  pub call_forwards :
      (c : Caller F) (req : Request) (w : W) (q : Query)
      → c.endpoint ≢ ""
      → new_query req (if eqb_ℤ c.user_id (pos 0) then "" else wallet_id c.user_id) ≡ ok q
      → NoneMatch q.request.method c.preflight_hooks
      → NoneMatch q.request.method c.postflight_hooks
      → call sdk run c req w ≡ attempts sdk c.endpoint c.user_id q.request 2 w
  unfolding call
  call_forwards c req w q e n pre post =
      let s : Session F W = record { caller = c; query = q; response = none; world = w } in
      ground (
        arith,
        eq_iff c.endpoint "",
        preflight-NoneMatch c.preflight_hooks s pre,
        send_query-NoneMatch q s post,
      )

  -- At an endpoint that is not blank, a request that NewQuery refuses leaves the world as it was,
  -- and the caller's error is NewQuery's.
  pub call_refuses :
      (c : Caller F) (req : Request) (w : W) (e : Error)
      → c.endpoint ≢ ""
      → new_query req (if eqb_ℤ c.user_id (pos 0) then "" else wallet_id c.user_id) ≡ err e
      → call sdk run c req w ≡ (err e, w)
  unfolding call
  call_refuses c req w e n h = ground (arith, eq_iff c.endpoint "")
