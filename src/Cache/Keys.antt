-- ===== src/Cache/Keys.antt =====
-- Cached responses are not shared between wallets.
use package.text.Mathlib.TextLemmas.{append_cancel_left}
use odysee_api.Base.{
  String, ◌≡◌, ◌≢◌, some, Dict, lookup, insert, lookup-insert_self, subst, true, arith,
}
use odysee_api.Errors.{ok}
use odysee_api.Rpc.{Value, named, Request, text}
use odysee_api.Query.{
  Query, new_query, method_accepts_wallet, param_wallet_id, entries, params_map, set_wallet,
}
use odysee_api.Query.Wallets.{set_wallet-new_query}
use odysee_api.Cache.{Digests, query_request, get_cache_key, params_text}

-- What keys rely on: MD5 does not collide, the map of a query marshals, and the text of a map
-- tells which text stands under the key.
pub record Faithful (d : Digests) (key : String) : Type 0 where
  pub no_collision : (s t : String) → d.md5 s ≡ d.md5 t → s ≡ t
  pub marshals : (m : Dict Value) → (s : String) × (d.marshal (named m) ≡ some s)
  pub tells :
      (m m' : Dict Value) (s t : String)
      → d.marshal (named m) ≡ d.marshal (named m')
      → lookup key m ≡ some (text s)
      → lookup key m' ≡ some (text t)
      → s ≡ t

params_text-named :
    (d : Digests)
    → Faithful d param_wallet_id
    → (m m' : Dict Value) → params_text d (named m) ≡ params_text d (named m')
    → d.marshal (named m) ≡ d.marshal (named m')
unfolding params_text
params_text-named d f m m' e =
    let (s, p) = f.marshals m in let (t, q) = f.marshals m' in ground arith

abbrev wallet_map : Request → String → Dict Value
wallet_map req w = insert param_wallet_id (text w) (entries (params_map req.params))

abbrev with_wallet : Request → String → Query
with_wallet req w = set_wallet (record { request = req; wallet_id = w })

key-with_wallet :
    (d : Digests) (req req' : Request) (w w' : String)
    → Faithful d param_wallet_id
    → req.method ≡ req'.method
    → get_cache_key d (query_request (with_wallet req w))
      ≡ get_cache_key d (query_request (with_wallet req' w'))
    → w ≡ w'
unfolding get_cache_key
key-with_wallet d req req' w w' f same e =
    let whole = f.no_collision _ _ e in
    let rest =
      append_cancel_left "]request:" _ _
        (append_cancel_left "" _ _ (append_cancel_left "[" _ _ whole)) in
    let params =
      append_cancel_left ":" _ _ (append_cancel_left req'.method _ _ (rw same at rest)) in
    f.tells (wallet_map req w) (wallet_map req' w') w w'
      (params_text-named d f (wallet_map req w) (wallet_map req' w') params)
      (lookup-insert_self param_wallet_id (text w) (entries (params_map req.params)))
      (lookup-insert_self param_wallet_id (text w') (entries (params_map req'.params)))

-- Queries of one method that takes a wallet, made by NewQuery for two users with different wallets,
-- have different cache keys, where MD5 does not collide and the text of a map marshals and tells
-- the wallet in it.
pub get_cache_key-wallets :
    (d : Digests) (req req' : Request) (w w' : String) (q q' : Query)
    → Faithful d param_wallet_id
    → req.method ≡ req'.method
    → method_accepts_wallet req.method ≡ true
    → new_query req w ≡ ok q
    → new_query req' w' ≡ ok q'
    → w ≢ ""
    → w' ≢ ""
    → w ≢ w'
    → get_cache_key d (query_request q) ≢ get_cache_key d (query_request q')
get_cache_key-wallets d req req' w w' q q' f same takes made made' some_w some_w' ne e = ne (
    key-with_wallet d req req' w w' f same (
      subst
        (λ v.
          get_cache_key d (query_request v) ≡ get_cache_key d (query_request (with_wallet req' w')))
        (set_wallet-new_query req w q made takes some_w)
        (subst (λ v. get_cache_key d (query_request q) ≡ get_cache_key d (query_request v))
          (set_wallet-new_query req' w' q' made' (rw (← same) takes) some_w') e)))
