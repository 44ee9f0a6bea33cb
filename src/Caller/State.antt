-- ===== src/Caller/State.antt =====
-- The caller of app/query/caller.go with its hooks and endpoints, and what it uses of other
-- services. A hook's function is a value of a type `F`.
use odysee_api.Base.{
  ℕ, String, Bool, true, false, ◌&&◌, ◌||◌, not, Option, none, some, List, [], ◌∷◌, ◌++◌, ◌==◌,
  starts_with, if◌then◌else◌, eqb_ℤ, ℤ, pos, length, get_elem?,
}
use odysee_api.Errors.{Error, Result, WalletErrorNames}
use odysee_api.Rpc.{Request, Response, RpcError}
use odysee_api.Query.{Query, method_status, method_get, method_claim_search, method_resolve}

-- What the caller uses of ljsonrpc: its error names and WrapError.
pub record SdkErrors : Type 0 where
  pub names : WalletErrorNames
  pub wrap_error : RpcError → Error

-- What the caller uses of other services: client.CallRaw at an endpoint, wallet.LoadWallet and
-- wallet.DeleteUser.
pub record Sdk (W : Type 0) : Type 0 where
  pub call_raw : String → Request → W → Result Response × W
  pub load_wallet : String → ℤ → W → Option Error × W
  pub delete_user : ℤ → W → Option Error × W
  pub errors : SdkErrors

pub record HookEntry (F : Type 0) : Type 0 where
  pub method : String
  pub function : F
  pub name : String

-- The Caller; its cache stands with the hook that uses it.
pub record Caller (F : Type 0) : Type 0 where
  pub preflight_hooks : List (HookEntry F)
  pub postflight_hooks : List (HookEntry F)
  pub user_id : ℤ
  pub endpoint : String
  pub backup_endpoints : List String

-- What a hook can read and change: the caller, the query and the response of the context, and
-- the world.
pub record Session (F W : Type 0) : Type 0 where
  pub caller : Caller F
  pub query : Query
  pub response : Option Response
  pub world : W

-- The functions of the built-in hooks.
pub data Builtin : Type 0 where
  get_status_response preflight_hook_get preflight_hook_claim_search preflight_cache_hook : Builtin
  post_claim_search_arfleet_thumbs post_resolve_arfleet_thumbs : Builtin

-- The loop of RandomizeEndpoint that leaves out the endpoint in use.
unfoldable pub other_endpoints : String → List String → List String
other_endpoints used [] = []
other_endpoints used (e ∷ es) =
    let rest = other_endpoints used es in if e == used then rest else e ∷ rest

abbrev pub is_empty : List String → Bool
is_empty [] = true
is_empty (e ∷ es) = false

module _ {F : Type 0} where
  unfoldable pub add_preflight_hook : String → F → String → Caller F → Caller F
  add_preflight_hook method f name c = record c {
    preflight_hooks =
        c.preflight_hooks ++ record { method = method; function = f; name = name } ∷ [];
  }

  unfoldable pub add_postflight_hook : String → F → String → Caller F → Caller F
  add_postflight_hook method f name c = record c {
    postflight_hooks =
        c.postflight_hooks ++ record { method = method; function = f; name = name } ∷ [];
  }

  -- AddBackupEndpoints
  unfoldable pub add_backup_endpoints : List String → Caller F → Caller F
  add_backup_endpoints endpoints c = record c { backup_endpoints = endpoints }

  abbrev pub at_endpoint : Caller F → Option String → Option (Caller F)
  at_endpoint c none = none
  at_endpoint c (some e) = some (record c { endpoint = e })

  -- RandomizeEndpoint, with rand.IntN as `int_n`. `none` is the panic of `IntN(0)`.
  unfoldable pub randomize_endpoint : (ℕ → ℕ) → Caller F → Option (Caller F)
  unfolding other_endpoints
  randomize_endpoint int_n c =
      if not (eqb_ℤ c.user_id (pos 0)) || is_empty c.backup_endpoints
      then some c
      else (let others = other_endpoints c.endpoint c.backup_endpoints in
          at_endpoint c (get_elem? others (int_n (length others))))

  -- CloneWithoutHook leaves out one hook, and begins with the default ones.
  unfoldable pub without_hook : String → String → List (HookEntry F) → List (HookEntry F)
  without_hook method name [] = []
  without_hook method name (h ∷ hs) =
      let rest = without_hook method name hs in
      if h.method == method && h.name == name then rest else h ∷ rest

-- isMatchingHook
unfoldable pub is_matching_hook : {F : Type 0} → String → HookEntry F → Bool
is_matching_hook m h = h.method == "" || h.method == m || starts_with m h.method

abbrev with_arfleet : Bool → Caller Builtin → Caller Builtin
with_arfleet false c = c
with_arfleet true c = record c {
  postflight_hooks =
      c.postflight_hooks
      ++ record {
        method = method_claim_search;
        function = post_claim_search_arfleet_thumbs;
        name = "builtin";
      }
        ∷ record {
          method = method_resolve;
          function = post_resolve_arfleet_thumbs;
          name = "builtin";
        }
        ∷ [];
}

-- NewCaller with addDefaultHooks; `arfleet` is config.GetArfleetEnabled.
unfoldable pub new_caller : Bool → String → ℤ → Caller Builtin
unfolding add_preflight_hook add_postflight_hook
new_caller arfleet endpoint user_id =
    add_preflight_hook method_claim_search preflight_cache_hook "cache" (
      add_preflight_hook method_resolve preflight_cache_hook "cache" (
        with_arfleet arfleet (
          add_preflight_hook method_claim_search preflight_hook_claim_search "builtin" (
            add_preflight_hook method_get preflight_hook_get "builtin" (
              add_preflight_hook method_status get_status_response "builtin" (record {
                preflight_hooks = [];
                postflight_hooks = [];
                user_id = user_id;
                endpoint = endpoint;
                backup_endpoints = [];
              }))))))

-- CloneWithoutHook; as in the source the clone has its default hooks and then those kept.
unfoldable pub clone_without_hook :
    Bool → String → String → String → Caller Builtin → Caller Builtin
unfolding new_caller without_hook
clone_without_hook arfleet endpoint method name c =
    let fresh = new_caller arfleet endpoint c.user_id in
    record fresh {
      preflight_hooks = fresh.preflight_hooks ++ without_hook method name c.preflight_hooks;
      postflight_hooks = fresh.postflight_hooks ++ without_hook method name c.postflight_hooks;
    }
