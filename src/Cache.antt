-- ===== src/Cache.antt =====
-- app/query/cache.go: the cache of responses, behind the interface of its store; and
-- preflightCacheHook of app/query/processors.go, with its getter. A duration is in seconds.
-- Requests for one key that run at the same time (singleflight) are not modelled.
pub mod Keys
pub mod Retrieval
pub mod Getter
pub mod Invalidation
use Prim.Native.String.{◌++◌}
use odysee_api.Base.{
  ℕ, zero, suc, String, Bool, true, false, Option, none, some, List, [], ◌∷◌, ◌==◌, contains_text,
  if◌then◌else◌, ltb, ℤ,
}
use odysee_api.Errors.{Error, Result, ok, err, plain, wrapped, Exit, returned, panicked}
use odysee_api.Rpc.{Value, Params, absent, named, other, Response, RpcError, new_sdk_error}
use odysee_api.Query.{Query, method_resolve, method_claim_search, param_method}
use odysee_api.Caller.{Caller, Session, randomize_endpoint}

pub record CacheRequest : Type 0 where
  pub method : String
  pub params : Params
  pub meta_key : String

pub record CachedResponse : Type 0 where
  pub result : Value
  pub error : Option RpcError

-- NewCacheRequest of a query, with the empty key that Retrieve gives it.
abbrev pub query_request : Query → CacheRequest
query_request q = record { method = q.request.method; params = q.request.params; meta_key = "" }

-- Expiration
unfoldable pub expiration : CacheRequest → ℕ
expiration r =
    if r.method == method_resolve then 600 else if r.method == method_claim_search then 160 else 60

abbrev pub tag_of : String → String
tag_of method = param_method ++ ":" ++ method

-- Tags
abbrev pub tags : CacheRequest → List String
tags r = tag_of r.method ∷ []

-- The libraries that make a key: json.Marshal, and MD5 in hexadecimal.
pub record Digests : Type 0 where
  pub marshal : Params → Option String
  pub md5 : String → String

abbrev marshaled : Option String → String
marshaled none = "(error)"
marshaled (some s) = s

-- The text of the parameters in a key.
unfoldable pub params_text : Digests → Params → String
params_text d absent = "()"
params_text d (named m) = marshaled (d.marshal (named m))
params_text d (other v) = marshaled (d.marshal (other v))

-- GetCacheKey
unfoldable pub get_cache_key : Digests → CacheRequest → String
get_cache_key d r =
    d.md5 ("[" ++ r.meta_key ++ "]request:" ++ r.method ++ ":" ++ params_text d r.params)

-- RPCResponse
abbrev pub rpc_response : CachedResponse → ℤ → Response
rpc_response c id = record { jsonrpc = "2.0"; result = c.result; error = c.error; id = id }

-- What the store says of a key; `hit_other` is a value of another type.
pub data Lookup : Type 0 where
  hit : CachedResponse → Lookup
  hit_nil hit_other not_found : Lookup
  failed : Error → Lookup

pub record Store (S : Type 0) : Type 0 where
  pub get : String → S → Lookup × S
  pub set : String → CachedResponse → ℕ → List String → S → Option Error × S

-- The value of type `any` that a getter returns: a pointer to a response, which may be nil, or
-- something else.
pub data Object : Type 0 where
  response_object : Option Response → Object
  unknown_object : Object

module _ {S : Type 0} (digests : Digests) (store : Store S) where
  -- The part of Retrieve after the getter has returned.
  unfoldable pub keep_response : CacheRequest → Exit Object → S → Exit (Option CachedResponse) × S
  keep_response req panicked s = (panicked, s)
  keep_response req (returned (err e)) s = (returned (err (wrapped "error calling getter: " e)), s)
  keep_response req (returned (ok unknown_object)) s =
      (returned (err (plain "unknown type returned by getter")), s)
  keep_response req (returned (ok (response_object none))) s = (panicked, s)
  keep_response req (returned (ok (response_object (some r)))) s =
      let kept : CachedResponse = record { result = r.result; error = r.error } in
      elim r.error [
        | some e ↦ (returned (ok (some kept)), s)
        | none ↦ (
          returned (ok (some kept)),
          (store.set (get_cache_key digests req) kept (expiration req) (tags req) s).1,
        )
      ]

  -- What Retrieve does with the store's answer.
  unfoldable pub on_lookup :
      CacheRequest → Option (S → Exit Object × S) → Lookup → S → Exit (Option CachedResponse) × S
  unfolding keep_response
  on_lookup req getter (hit r) s = (returned (ok (some r)), s)
  on_lookup req getter hit_nil s = (returned (ok none), s)
  on_lookup req getter hit_other s = (returned (err (plain "unknown cache object retrieved")), s)
  on_lookup req getter (failed e) s = (returned (ok none), s)
  on_lookup req none not_found s = (returned (ok none), s)
  on_lookup req (some get) not_found s = let (out, s') = get s in keep_response req out s'

  -- Retrieve
  unfoldable pub retrieve :
      CacheRequest → Option (S → Exit Object × S) → S → Exit (Option CachedResponse) × S
  unfolding on_lookup
  retrieve req getter s =
      let (found, s') = store.get (get_cache_key digests req) s in on_lookup req getter found s'

-- isUserInputError
unfoldable pub is_user_input_error : RpcError → Bool
is_user_input_error e = contains_text e.message "expected string or bytes-like object"

-- How the getter judges one reply: it returns success and the user's mistakes, and retries else.
unfoldable pub is_final : Result Response → Bool
is_final (err e) = false
is_final (ok r) = elim r.error [ none ↦ true | some e ↦ is_user_input_error e ]

abbrev pub object_of : Result Response → Result Object
object_of (err e) = err e
object_of (ok r) = ok (response_object (some r))

module _ {S : Type 0} (send : S → Result Response × S) (randomize : S → Option S) where
  -- The loop of the getter, with the attempts that are left and the last outcome. The source
  -- starts with a nil response and no error.
  unfoldable pub getter_rounds : ℕ → Result Object → S → Exit Object × S
  getter_rounds zero last s = (returned last, s)
  getter_rounds (suc left) last s =
      let (reply, s') = send s in
      elim (is_final reply) [
        | true ↦ (returned (object_of reply), s')
        | false ↦ elim (randomize s') [
          | none ↦ (panicked, s')
          | some s'' ↦ getter_rounds left (object_of reply) s''
        ]
      ]

  unfoldable pub getter : ℕ → S → Exit Object × S
  unfolding getter_rounds
  getter retries s = getter_rounds retries (ok (response_object none)) s

-- RandomizeEndpoint on the caller of a session
unfoldable pub randomize_session : {F W : Type 0} → (ℕ → ℕ) → Session F W → Option (Session F W)
randomize_session int_n s = elim (randomize_endpoint int_n s.caller) [
  | none ↦ none
  | some c ↦ some (record s { caller = c })
]

-- preflightCacheHook on a caller with a cache, or with none. `send` is SendQuery of the query.
unfoldable pub preflight_cache_hook :
    {F W : Type 0}
    → Digests
    → Option (Store (Session F W))
    → ℕ
    → (ℕ → ℕ)
    → (Query → Session F W → Result Response × Session F W)
    → Session F W
    → Exit (Option Response) × Session F W
preflight_cache_hook digests none retries int_n send s = (returned (ok none), s)
preflight_cache_hook digests (some store) retries int_n send s =
    let (out, s') =
      retrieve digests store (query_request s.query)
        (some (getter (send s.query) (randomize_session int_n) retries)) s in
    elim out [
      | panicked ↦ (panicked, s')
      | returned (err e) ↦ (returned (err (new_sdk_error e)), s')
      | returned (ok none) ↦ (returned (ok none), s')
      | returned (ok (some r)) ↦ (returned (ok (some (rpc_response r s.query.request.id))), s')
    ]

-- runInvalidator: the height that chainquery reports, the height of the last run, and what the
-- store answers to an invalidation. The result is the error, the new height, and the tags whose
-- entries were to be invalidated.
unfoldable pub run_invalidator : Result ℕ → ℕ → Option Error → Option Error × ℕ × List String
run_invalidator (err e) last answer = (some (wrapped "failed to get current height: " e), last, [])
run_invalidator (ok height) last answer =
    if ltb last height
    then (
      elim answer [
        | none ↦ none
        | some e ↦ some (wrapped ("failed to invalidate " ++ method_claim_search ++ " entries: ") e)
      ],
      height,
      tag_of method_claim_search ∷ [],
    )
    else (none, last, [])
