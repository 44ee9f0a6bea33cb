-- ===== src/Ip.antt =====
-- internal/ip/ip.go: the address of the client of a request. net.ParseIP and what it says of an
-- address are the record `Addresses`; an address is the number of its sixteen bytes, by which
-- bytes.Compare orders it. strings.TrimSpace is an argument.
pub mod Forwarded
use odysee_api.Base.{
  ℕ, ◌+◌, ◌*◌, ◌^◌, String, Bool, true, false, ◌&&◌, ◌||◌, not, Option, none, some, List, [], ◌∷◌,
  ltb, leb, any, ◌==◌, if◌then◌else◌,
}
use odysee_api.AsyncQuery.{cut_last}

pub record Addresses : Type 0 where
  -- net.ParseIP: the value of the address, if it is one
  pub parse : String → Option ℕ
  -- To4 is not nil
  pub is_v4 : ℕ → Bool
  pub is_global_unicast : ℕ → Bool
  pub trim_space : String → String

-- An IPv4 address as sixteen bytes: ten zeros, two of 255, and its four.
abbrev pub v4 : ℕ → ℕ → ℕ → ℕ → ℕ
v4 a b c d = 65535 * 2 ^ 32 + a * 2 ^ 24 + b * 2 ^ 16 + c * 2 ^ 8 + d

pub record IpRange : Type 0 where
  pub start : ℕ
  pub end : ℕ

-- Contains
abbrev pub contains : IpRange → ℕ → Bool
contains r ip = leb r.start ip && ltb ip r.end

abbrev range : ℕ → ℕ → IpRange
range a b = record { start = a; end = b }

-- privateRanges
abbrev pub private_ranges : List IpRange
private_ranges =
    range (v4 10 0 0 0) (v4 10 255 255 255)
    ∷ range (v4 100 64 0 0) (v4 100 127 255 255)
    ∷ range (v4 127 0 0 1) (v4 127 255 255 255)
    ∷ range (v4 172 16 0 0) (v4 172 31 255 255)
    ∷ range (v4 192 0 0 0) (v4 192 0 0 255)
    ∷ range (v4 192 168 0 0) (v4 192 168 255 255)
    ∷ range (v4 198 18 0 0) (v4 198 19 255 255)
    ∷ []

-- IsPrivateSubnet
unfoldable pub is_private_subnet : Addresses → ℕ → Bool
is_private_subnet a ip = a.is_v4 ip && any (λ r. contains r ip) private_ranges

-- Whether an address of a header is taken; one that does not parse is no global unicast address.
abbrev pub is_public : Addresses → Option ℕ → Bool
is_public a none = false
is_public a (some ip) = a.is_global_unicast ip && not (is_private_subnet a ip)

-- The loop over the addresses of a header, given from the last one.
unfoldable pub last_public : Addresses → List String → Option String
unfolding is_private_subnet
last_public a [] = none
last_public a (x ∷ xs) =
    let rest = last_public a xs in
    if is_public a (a.parse (a.trim_space x)) then some (a.trim_space x) else rest

-- A request's addresses: the Cloudflare header, those of the forwarding headers, split and from
-- the last one, and the remote address.
pub record Source : Type 0 where
  pub cloudflare : String
  pub forwarded_for : List String
  pub real_ip : List String
  pub remote : String

abbrev without_port : Option (String × String) → String
without_port none = ""
without_port (some (address, port)) = address

-- The remote address up to its last colon.
unfoldable pub remote_address : String → String
unfolding cut_last
remote_address s =
    let address = without_port (cut_last 58 s) in
    if address == "[::1]" then "127.0.0.1" else address

abbrev pub or_else : Option String → Option String → Option String
or_else none o = o
or_else (some x) o = some x

abbrev pub or_remote : String → Option String → String
or_remote remote none = remote_address remote
or_remote remote (some x) = x

-- ForRequest
unfoldable pub for_request : Addresses → Source → String
unfolding last_public remote_address
for_request a s =
    if s.cloudflare == ""
    then or_remote s.remote (or_else (last_public a s.forwarded_for) (last_public a s.real_ip))
    else s.cloudflare
