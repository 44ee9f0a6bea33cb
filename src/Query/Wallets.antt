-- ===== src/Query/Wallets.antt =====
-- Which wallet a query runs in.
use odysee_api.Base.{
  String, true, false, some, ◌≡◌, ◌≢◌, ◌⊎◌, arith, refl, eq_iff, lookup, lookup-insert, ◌==◌,
  if◌then◌else◌,
}
use odysee_api.Errors.{ok}
use odysee_api.Rpc.{Request, text}
use odysee_api.Query.{
  Query, param_wallet_id, new_query, add_wallet, entries, params_map, params_as_map,
  method_accepts_wallet, is_authenticated, set_wallet,
}

add_wallet-new_query :
    (req : Request) (w : String) (q : Query)
    → new_query req w ≡ ok q
    → add_wallet (record { request = req; wallet_id = w }) ≡ ok q
unfolding new_query
add_wallet-new_query req w q h = ground arith

pub set_wallet-new_query :
    (req : Request) (w : String) (q : Query)
    → new_query req w ≡ ok q
    → method_accepts_wallet req.method ≡ true
    → w ≢ ""
    → q ≡ set_wallet (record { request = req; wallet_id = w })
unfolding add_wallet is_authenticated
set_wallet-new_query req w q h a n = ground (arith, eq_iff w "", add_wallet-new_query req w q)

-- A query that NewQuery makes for a user with a wallet, of a method that takes one, runs in that
-- wallet whatever wallet the client named; every other parameter, the method and the id are the
-- client's.
pub wallet_is_callers :
    (req : Request) (w : String) (q : Query) (k : String)
    → new_query req w ≡ ok q
    → method_accepts_wallet req.method ≡ true
    → w ≢ ""
    → (lookup k (entries (params_as_map q)) ≡ (
        if param_wallet_id == k then some (text w) else lookup k (entries (params_map req.params))))
      × (q.request.method ≡ req.method)
      × (q.request.id ≡ req.id)
wallet_is_callers req w q k h a n =
    rw (set_wallet-new_query req w q h a n)
      (lookup-insert param_wallet_id k (text w) (entries (params_map req.params)), refl, refl)

-- A query that NewQuery makes with no wallet, or of a method that takes none, is the client's
-- request unchanged, with the `wallet_id` that the client may have put in its parameters.
pub request_unchanged :
    (req : Request) (w : String) (q : Query)
    → new_query req w ≡ ok q
    → ((w ≡ "") ⊎ (method_accepts_wallet req.method ≡ false))
    → q.request ≡ req
unfolding add_wallet is_authenticated
request_unchanged req w q h n = ground (arith, eq_iff w "", add_wallet-new_query req w q)
