-- ===== src/Examples/Servers.antt =====
-- A router with a private and a public server (app/sdkrouter/sdkrouter.go).
use odysee_api.Base.{
  ℕ, ◌<◌, String, ◌≡◌, ◌≢◌, refl, true, false, Option, some, none, List, [], ◌∷◌, pos,
}
use odysee_api.Base.Decimal.{decimal}
use odysee_api.Errors.{err, plain}
use odysee_api.SdkRouter.{Server, Router, update_load, reload_servers_from_db, wallet_id}
use odysee_api.SdkRouter.Load.{Updated, update_load_lem}

abbrev servers : List Server
servers =
    record { name = "one"; address = "sdk1"; private = true }
    ∷ record { name = "two"; address = "sdk2"; private = false }
    ∷ []

abbrev router : Router
router = record { servers = servers; least_loaded = none; use_db = true; last_loaded = 0 }

abbrev five_wallets : String → Option ℕ
five_wallets address = some 5

update_load_lem_example : Updated five_wallets router (update_load five_wallets router)
update_load_lem_example = update_load_lem five_wallets router

first_server : (n : ℕ) → 0 < n → 0 < n
first_server n h = h

servers_ne : servers ≢ []
servers_ne e = cc

abbrev reloaded : Router
reloaded = reload_servers_from_db 30000000000 (err (plain "no database")) router

user_wallet : wallet_id (pos 15) ≡ "lbrytv-id.15.wallet"
unfolding wallet_id decimal
user_wallet = refl

user_wallet_ne : wallet_id (pos 15) ≢ ""
user_wallet_ne e = cc (e, user_wallet)
