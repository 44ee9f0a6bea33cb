-- ===== src/Caller.antt =====
-- app/query/caller.go: the caller that takes a client's request through the hooks and to the SDK.
-- The SDK, the wallet operations and what else lies outside are a world of type `W` behind the
-- record `Sdk`. A hook's function is a value of a type `F` that `run` interprets. Metrics, logs
-- and the waiting between attempts are not modelled.
mod State
pub mod Retry
pub mod Hooks
pub mod Endpoint
pub use State.*
unfoldable pub use State.{
  other_endpoints, add_preflight_hook, add_postflight_hook, add_backup_endpoints,
  randomize_endpoint, without_hook, is_matching_hook, new_caller, clone_without_hook,
}
use odysee_api.Base.{
  ℕ, zero, suc, String, Bool, true, false, ◌&&◌, ◌||◌, not, Option, none, some, List, [], ◌∷◌, ◌++◌,
  ◌==◌, starts_with, if◌then◌else◌, eqb_ℤ, ℤ, pos, length, get_elem?,
}
use odysee_api.Errors.{
  Error, Result, ok, err, err_of, err_text, is, new_wallet_error, WalletErrorNames,
  wallet_not_loaded, wallet_already_loaded,
}
use odysee_api.Rpc.{
  Value, null, flag, number, text, texts, list, object, Members, no_members, member, Request,
  Response, RpcError, new_sdk_error,
}
use odysee_api.SdkRouter.{wallet_id}
use odysee_api.Query.{
  Query, new_query, method_status, method_get, method_claim_search, method_resolve,
}

-- The text under a key of an object.
abbrev name_text : Value → Bool
name_text (text s) = true
name_text _ = false

has_name : Members → Bool
has_name no_members = false
has_name (member k v fs) = if k == "name" then name_text v else has_name fs

-- The error data is no map, or a map with a text under "name".
abbrev has_error_name : Value → Bool
has_error_name (object fs) = has_name fs
has_error_name _ = true

-- convertToError
unfoldable pub convert_to_error : SdkErrors → Response → Option Error
unfolding has_name
convert_to_error errors r = elim r.error [
  | none ↦ none
  | some e ↦
      if has_error_name e.error_data
      then some (new_wallet_error errors.names (errors.wrap_error e))
      else none
]

-- isErrWalletNotLoaded
unfoldable pub is_err_wallet_not_loaded : SdkErrors → Response → Bool
unfolding convert_to_error
is_err_wallet_not_loaded errors r = elim (convert_to_error errors r) [
  | none ↦ false
  | some e ↦ is e wallet_not_loaded
]

-- isErrWalletAlreadyLoaded
unfoldable pub is_err_wallet_already_loaded : SdkErrors → Response → Bool
unfolding convert_to_error
is_err_wallet_already_loaded errors r = elim (convert_to_error errors r) [
  | none ↦ false
  | some e ↦ is e wallet_already_loaded
]

module _ {W : Type 0} (sdk : Sdk W) where
  abbrev if_last : ℕ → W → W → W
  if_last zero deleted kept = deleted
  if_last (suc n) deleted kept = kept

  -- The branch for a wallet that is not loaded; `left` is the number of attempts after this one,
  -- and the user is deleted when loading fails and none is left.
  unfoldable pub reload_wallet : String → ℤ → ℕ → W → W
  reload_wallet endpoint user left w =
      let (failed, w') = sdk.load_wallet endpoint user w in
      elim failed [ none ↦ w' | some e ↦ if_last left (sdk.delete_user user w').1 w' ]

  -- The loop of SendQuery, `left` attempts after this one.
  unfoldable pub attempts : String → ℤ → Request → ℕ → W → Result Response × W
  attempts endpoint user req zero w =
      let (res, w') = sdk.call_raw endpoint req w in
      elim res [
        | err e ↦ (err (err_of e), w')
        | ok r ↦
            if is_err_wallet_not_loaded sdk.errors r
            then (ok r, reload_wallet endpoint user 0 w')
            else (ok r, w')
      ]
  attempts endpoint user req (suc left) w =
      let (res, w') = sdk.call_raw endpoint req w in
      elim res [
        | err e ↦ (err (err_of e), w')
        | ok r ↦ elim (is_err_wallet_not_loaded sdk.errors r) [
          | true ↦ attempts endpoint user req left (reload_wallet endpoint user (suc left) w')
          | false ↦ elim (is_err_wallet_already_loaded sdk.errors r) [
            | true ↦ attempts endpoint user req left w'
            | false ↦ (ok r, w')
          ]
        ]
      ]

abbrev pub wallet_load_retries : ℕ
wallet_load_retries = 3

module _ {F W : Type 0} (run : F → Session F W → Result (Option Response) × Session F W) where
  -- The loop over the hooks before the call: the first response or error ends it.
  unfoldable pub preflight :
      List (HookEntry F) → Session F W → Result (Option Response) × Session F W
  preflight [] s = (ok none, s)
  preflight (h ∷ hs) s = elim (is_matching_hook s.query.request.method h) [
    | false ↦ preflight hs s
    | true ↦
        let (res, s') = run h.function s in
        elim res [
          | err e ↦ (err (new_sdk_error e), s')
          | ok none ↦ preflight hs s'
          | ok (some r) ↦ (ok (some r), s')
        ]
  ]

  -- The loop over the hooks after the call of a method: each response replaces the one before.
  unfoldable pub postflight :
      String → List (HookEntry F) → Response → Session F W → Result Response × Session F W
  postflight m [] r s = (ok r, s)
  postflight m (h ∷ hs) r s = elim (is_matching_hook m h) [
    | false ↦ postflight m hs r s
    | true ↦
        let (res, s') = run h.function s in
        elim res [
          | err e ↦ (err (new_sdk_error e), s')
          | ok none ↦ postflight m hs r s'
          | ok (some r') ↦ postflight m hs r' s'
        ]
  ]

  -- SendQuery after its attempts: the response of the SDK is attached to the context for the hooks
  -- alone.
  unfoldable pub after_attempts :
      Query → Session F W → Result Response × W → Result Response × Session F W
  after_attempts q s (err e, w) = (err e, record s { world = w })
  after_attempts q s (ok r, w) =
      let (res, s') =
        postflight q.request.method s.caller.postflight_hooks r
          (record s { response = some r; world = w }) in
      (res, record s' { response = s.response })

module _ {F W : Type 0} (sdk : Sdk W)
    (run : F → Session F W → Result (Option Response) × Session F W) where
  -- SendQuery of a query in a session, whose own query may be another one.
  unfoldable pub send_query : Query → Session F W → Result Response × Session F W
  unfolding after_attempts
  send_query q s =
      after_attempts run q s (attempts sdk s.caller.endpoint s.caller.user_id q.request 2 s.world)

  -- call, and Call, which adds metrics.
  unfoldable pub call : Caller F → Request → W → Result Response × W
  call c req w =
      if c.endpoint == ""
      then (err (err_text "cannot call blank endpoint"), w)
      else elim (new_query req (if eqb_ℤ c.user_id (pos 0) then "" else wallet_id c.user_id)) [
        | err e ↦ (err e, w)
        | ok q ↦
            let (res, s) =
              preflight run c.preflight_hooks
                (record { caller = c; query = q; response = none; world = w }) in
            elim res [
              | err e ↦ (err e, s.world)
              | ok (some r) ↦ (ok r, s.world)
              | ok none ↦ (let (r, s') = send_query s.query s in (r, s'.world))
            ]
      ]
