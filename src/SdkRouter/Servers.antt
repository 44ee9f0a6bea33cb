-- ===== src/SdkRouter/Servers.antt =====
-- The server list is not emptied, and the database is asked at most once in half a minute.
use odysee_api.Base.{
  ℕ, zero, suc, ◌-◌, ◌≤◌, ◌<◌, ◌≡◌, ◌≢◌, inl, inr, true, some, List, [], ◌∷◌, arith, refl, length,
  get_elem?,
}
use odysee_api.Errors.{Result}
use odysee_api.SdkRouter.{
  Server, Router, set_servers, reload_servers_from_db, random_server, reload_interval, found,
}
use odysee_api.SdkRouter.Load.{Mem}

get_elem?-Mem :
    (xs : List Server) (i : ℕ) → i < length xs → (s : Server) × (get_elem? xs i ≡ some s) × Mem s xs
get_elem?-Mem [] i h = absurd (omega arith)
get_elem?-Mem (x ∷ xs) zero h = (x, refl, inl refl)
get_elem?-Mem (x ∷ xs) (suc i) h = let (s, e, m) = get_elem?-Mem xs i (omega arith) in (s, e, inr m)

set_servers-ne-nil :
    (ss : List Server) (r : Router) → r.servers ≢ [] → (set_servers ss r).servers ≢ []
unfolding set_servers
set_servers-ne-nil [] r h = h
set_servers-ne-nil (s ∷ ss) r h = λ e. cc

reload-ne-nil :
    (now : ℕ) (answer : Result (List Server)) (r : Router)
    → r.servers ≢ []
    → (reload_servers_from_db now answer r).servers ≢ []
unfolding reload_servers_from_db
reload-ne-nil now answer r h =
    ground (arith, set_servers-ne-nil (found answer) (record r { last_loaded = now }) h)

length-pos : (xs : List Server) → xs ≢ [] → 0 < length xs
length-pos [] h = absurd (h refl)
length-pos (x ∷ xs) h = omega arith

-- Once a router has servers, a reload leaves it some, whatever the database answers, an error or no
-- rows included, and RandomServer then returns a server of the list, if the random number is in its
-- range.
pub random_server-reload :
    (int_n : ℕ → ℕ) (now : ℕ) (answer : Result (List Server)) (r : Router)
    → ((n : ℕ) → 0 < n → int_n n < n)
    → r.servers ≢ []
    → (s : Server) × (random_server int_n (reload_servers_from_db now answer r) ≡ some s)
      × Mem s (reload_servers_from_db now answer r).servers
unfolding random_server
random_server-reload int_n now answer r range h =
    let ss = (reload_servers_from_db now answer r).servers in
    get_elem?-Mem ss (int_n (length ss))
      (range (length ss) (length-pos ss (reload-ne-nil now answer r h)))

-- Where a router uses the database and was last loaded at least thirty seconds before, a reload
-- sets the time, and another one less than thirty seconds later changes nothing, whatever the
-- database would answer.
pub reload_throttled :
    (now later : ℕ) (answer answer' : Result (List Server)) (r : Router)
    → r.use_db ≡ true
    → reload_interval ≤ now - r.last_loaded
    → later - now < reload_interval
    → let r' = reload_servers_from_db now answer r in
      (r'.last_loaded ≡ now) × (reload_servers_from_db later answer' r' ≡ r')
unfolding reload_servers_from_db set_servers
reload_throttled now later answer answer' r db due soon = ground arith
