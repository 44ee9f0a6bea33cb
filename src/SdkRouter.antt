-- ===== src/SdkRouter.antt =====
-- app/sdkrouter/sdkrouter.go: the list of SDK servers and the choice of one. The SDK's answer to
-- `wallet_list`, the database's to the server query, the clock and the random number are
-- arguments; a time is in nanoseconds.
pub mod WalletIds
pub mod Load
pub mod Servers
use Prim.Native.String.{◌++◌}
use odysee_api.Base.{
  ℕ, zero, suc, ◌-◌, ◌*◌, ◌^◌, String, Bool, true, false, ◌&&◌, ◌||◌, not, Option, none, some, List,
  [], ◌∷◌, map, ltb, if◌then◌else◌, ℤ, pos, negsuc, length, get_elem?,
}
use odysee_api.Base.Decimal.{decimal}
use odysee_api.Errors.{Result, ok, err}

-- models.LbrynetServer, by the columns that the program reads
pub record Server : Type 0 where
  pub name : String
  pub address : String
  pub private : Bool

pub record Router : Type 0 where
  pub servers : List Server
  pub least_loaded : Option Server
  pub use_db : Bool
  pub last_loaded : ℕ

unfoldable pub set_servers : List Server → Router → Router
set_servers [] r = r
set_servers (s ∷ ss) r = record r { servers = s ∷ ss }

abbrev pub found : Result (List Server) → List Server
found (ok servers) = servers
found (err e) = []

abbrev pub reload_interval : ℕ
reload_interval = 30 * 10 ^ 9

-- reloadServersFromDB, at the time `now` with the answer that the database would give.
unfoldable pub reload_servers_from_db : ℕ → Result (List Server) → Router → Router
unfolding set_servers
reload_servers_from_db now answer r =
    if not r.use_db || ltb (now - r.last_loaded) reload_interval
    then r
    else set_servers (found answer) (record r { last_loaded = now })

-- NewWithServers
unfoldable pub new_with_servers : List Server → Router
unfolding set_servers
new_with_servers servers =
    set_servers servers
      (record { servers = []; least_loaded = none; use_db = false; last_loaded = 0 })

abbrev server_of : String × String → Server
server_of (name, address) = record { name = name; address = address; private = false }

-- New, over the pairs of name and address in the order in which the map is visited.
unfoldable pub new : ℕ → Result (List Server) → List (String × String) → Router
unfolding new_with_servers reload_servers_from_db
new now answer [] =
    reload_servers_from_db now answer
      (record { servers = []; least_loaded = none; use_db = true; last_loaded = 0 })
new now answer (p ∷ ps) = new_with_servers (map server_of (p ∷ ps))

-- RandomServer, after the reload; `int_n` is rand.Intn. `none` is the panic of an empty list.
unfoldable pub random_server : (ℕ → ℕ) → Router → Option Server
random_server int_n r = get_elem? r.servers (int_n (length r.servers))

-- GetAllAddresses, after the reload
unfoldable pub get_all_addresses : Router → List String
get_all_addresses r = map (λ s. s.address) r.servers

-- The test on a public server against the best one so far.
abbrev pub better : ℕ → Option (Server × ℕ) → Bool
better n none = true
better n (some (b, min)) = ltb n min

-- One round: `reply` is the number of wallets that the server reports, or `none` where the call
-- fails.
abbrev pub consider : Server → Option ℕ → Option (Server × ℕ) → Option (Server × ℕ)
consider s none best = best
consider s (some n) best = if better n best && not s.private then some (s, n) else best

-- The loop of updateLoadAndMetrics over the best server so far and its load.
unfoldable pub least : (String → Option ℕ) → List Server → Option (Server × ℕ) → Option (Server × ℕ)
least wallets [] best = best
least wallets (s ∷ ss) best = least wallets ss (consider s (wallets s.address) best)

abbrev pub set_least : Option (Server × ℕ) → Router → Router
set_least none r = r
set_least (some (s, n)) r = record r { least_loaded = some s }

-- updateLoadAndMetrics, after the reload; the metrics are not modelled.
unfoldable pub update_load : (String → Option ℕ) → Router → Router
unfolding least
update_load wallets r = set_least (least wallets r.servers none) r

-- LeastLoaded
unfoldable pub get_least_loaded : (ℕ → ℕ) → Router → Option Server
unfolding random_server
get_least_loaded int_n r = elim r.least_loaded [ none ↦ random_server int_n r | some s ↦ some s ]

-- WalletID
unfoldable pub wallet_id : ℤ → String
wallet_id (pos zero) = ""
wallet_id (pos (suc n)) = "lbrytv-id." ++ decimal (suc n) ++ ".wallet"
wallet_id (negsuc n) = ""

-- GetSDKAddress over GetLbrynetServer: the server that the user's row is joined with.
unfoldable pub get_sdk_address : Option Server → String
get_sdk_address none = ""
get_sdk_address (some s) = s.address
