-- ===== src/Examples/Caching.antt =====
-- The response cache at work (app/query/cache.go), over a store in memory.
use odysee_api.Base.{
  ℕ, suc, ◌+◌, ◌≤◌, String, ◌≡◌, ◌≢◌, ◌⊎◌, refl, false, Option, some, none, List, [], ◌∷◌, pos,
  arith, insert, lookup,
}
use odysee_api.Errors.{Result, ok, err, plain, Exit, returned, panicked}
use odysee_api.Rpc.{Response, text, Params, absent, named}
use odysee_api.Query.{
  Query, new_query, method_accepts_wallet, param_wallet_id, add_wallet, is_authenticated, is_blank,
  method_in_list, relaxed_methods, wallet_specific_methods, forbidden_param, forbidden_params,
  method_requires_wallet,
}
use odysee_api.Access.{text_of}
use odysee_api.Caller.{Caller, Session, Builtin}
use odysee_api.Cache.{
  CacheRequest, CachedResponse, Digests, Object, response_object, Store, not_found, get_cache_key,
  query_request, retrieve, is_final, getter,
}
use odysee_api.Cache.Retrieval.{Memory, memory_store, ErrorFree, retrieve-ErrorFree}
use odysee_api.Cache.Getter.{Replies, counting_send, counting_randomize, held, IsFinal, getter_lem}
use odysee_api.Cache.Keys.{Faithful, get_cache_key-wallets}
use odysee_api.Examples.Queries.{balance, made, balance-made, takes_wallet, mine_ne}
use odysee_api.Examples.Calls.{anonymous, not_loaded_response}

-- Digests for these maps: what a map says of the wallet.
abbrev marshal_wallet : Params → Option String
marshal_wallet (named m) = some (text_of (lookup param_wallet_id m))
marshal_wallet _ = none

abbrev digests : Digests
digests = record { marshal = marshal_wallet; md5 = λ s. s }

digests-Faithful : Faithful digests param_wallet_id
digests-Faithful = record {
  no_collision = λ s t e. e;
  marshals = λ m. (text_of (lookup param_wallet_id m), refl);
  tells = λ m m' s t e h k. ground arith;
}

yours_ne : ◌≢◌ {A = String} "yours" ""
yours_ne e = cc

mine_yours_ne : ◌≢◌ {A = String} "mine" "yours"
mine_yours_ne e = cc

balance-yours : new_query balance "yours" ≡ ok (made "yours")
unfolding new_query add_wallet is_authenticated is_blank method_in_list relaxed_methods
    wallet_specific_methods forbidden_param forbidden_params method_accepts_wallet
    method_requires_wallet insert lookup
balance-yours = refl

get_cache_key-wallets_example :
    get_cache_key digests (query_request (made "mine"))
    ≢ get_cache_key digests (query_request (made "yours"))
get_cache_key-wallets_example =
    get_cache_key-wallets digests balance balance "mine" "yours" (made "mine") (made "yours")
      digests-Faithful refl takes_wallet balance-made balance-yours mine_ne yours_ne mine_yours_ne

abbrev good_response : Response
good_response = record { jsonrpc = "2.0"; result = text "found"; error = none; id = pos 7 }

abbrev good_cached : CachedResponse
good_cached = record { result = text "found"; error = none }

abbrev resolve : CacheRequest
resolve = record { method = "resolve"; params = absent; meta_key = "" }

abbrev empty_memory : Memory ℕ
empty_memory = record { kept = []; rest = 0 }

abbrev good_getter : Memory ℕ → Exit Object × Memory ℕ
good_getter m = (returned (ok (response_object (some good_response))), m)

abbrev bad_getter : Memory ℕ → Exit Object × Memory ℕ
bad_getter m = (returned (ok (response_object (some not_loaded_response))), m)

retrieved :
    (retrieve digests memory_store resolve (some good_getter) empty_memory).0
    ≡ returned (ok (some good_cached))
unfolding retrieve lookup
retrieved = refl

empty-ErrorFree : ErrorFree []
unfolding lookup
empty-ErrorFree k r h = ground arith

keeps : (v : Memory ℕ) → ErrorFree v.kept → ErrorFree (bad_getter v).1.kept
keeps v h = h

retrieve-ErrorFree_example :
    ErrorFree (retrieve digests memory_store resolve (some bad_getter) empty_memory).1.kept
retrieve-ErrorFree_example =
    retrieve-ErrorFree digests resolve bad_getter empty_memory keeps empty-ErrorFree

-- A service that fails twice and then answers.
abbrev third_time : ℕ → Result Response × ℕ
third_time (suc (suc n)) = (ok good_response, suc (suc (suc n)))
third_time n = (err (plain "timeout"), suc n)

abbrev start : Replies ℕ
start = record { state = 0; sent = 0; last = none }

abbrev outcome : Exit Object × Replies ℕ
outcome = getter (counting_send third_time some) (counting_randomize third_time some) 5 start

getter_lem_example :
    (outcome.1.sent ≤ 0 + 5)
    × ((outcome.0 ≡ panicked)
        ⊎ ((outcome.0 ≡ returned (held outcome.1.last))
            × (IsFinal outcome.1.last ⊎ (outcome.1.sent ≡ 0 + 5))))
getter_lem_example = getter_lem third_time some 5 start refl

abbrev single : Caller Builtin
single = record anonymous { backup_endpoints = "sdk1" ∷ [] }

abbrev single_session : Session Builtin ℕ
single_session = record { caller = single; query = made "mine"; response = none; world = 0 }

abbrev empty_store : Store (Session Builtin ℕ)
empty_store = record { get = λ k s. (not_found, s); set = λ k r ttl tags s. (none, s) }

abbrev failing : Query → Session Builtin ℕ → Result Response × Session Builtin ℕ
failing q s = (err (plain "timeout"), s)

timeout-final : is_final (err (plain "timeout")) ≡ false
unfolding is_final
timeout-final = refl

some_backup : ◌≢◌ {A = List String} ("sdk1" ∷ []) []
some_backup e = cc
