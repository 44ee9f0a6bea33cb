-- ===== src/Examples/Addresses.antt =====
-- A request that came through a proxy of the program's own (internal/ip).
use odysee_api.Base.{
  ℕ, String, ◌≡◌, refl, true, Option, none, some, [], ◌∷◌, ◌==◌, if◌then◌else◌, ◌⊎◌,
}
use odysee_api.Ip.{Addresses, Source, for_request, last_public, remote_address, v4}
use odysee_api.Ip.Forwarded.{IsLastPublic, for_request_lem}

abbrev parse : String → Option ℕ
parse s =
    if s == "8.8.8.8"
    then some (v4 8 8 8 8)
    else if s == "1.2.3.4"
    then some (v4 1 2 3 4)
    else if s == "10.0.0.1"
    then some (v4 10 0 0 1)
    else none

abbrev addresses : Addresses
addresses = record {
  parse = parse;
  is_v4 = λ ip. true;
  is_global_unicast = λ ip. true;
  trim_space = λ s. s;
}

-- The header "1.2.3.4,8.8.8.8,10.0.0.1".
abbrev source : Source
source = record {
  cloudflare = "";
  forwarded_for = "10.0.0.1" ∷ "8.8.8.8" ∷ "1.2.3.4" ∷ [];
  real_ip = "" ∷ [];
  remote = "10.0.0.2:4000";
}

for_request_lem_example :
    IsLastPublic addresses source.forwarded_for (for_request addresses source)
    ⊎ ((last_public addresses source.forwarded_for ≡ none)
        × IsLastPublic addresses source.real_ip (for_request addresses source))
    ⊎ ((last_public addresses source.forwarded_for ≡ none)
        × (last_public addresses source.real_ip ≡ none)
        × (for_request addresses source ≡ remote_address source.remote))
for_request_lem_example = for_request_lem addresses source refl
