-- ===== src/Ip/Forwarded.antt =====
-- Which address of a forwarded request is taken.
use odysee_api.Base.{
  String, ◌≡◌, refl, true, false, none, some, List, [], ◌∷◌, ◌++◌, arith, eq_iff, Bool-cases, inl,
  inr, All, ◌⊎◌, Option-cases,
}
use odysee_api.Ip.{
  Addresses, Source, is_public, last_public, for_request, is_private_subnet, remote_address, v4,
}

-- The addresses before and after one of the list, of which those before it are not taken.
abbrev pub IsLastPublic : Addresses → List String → String → Type 0
IsLastPublic a xs found =
    (nearer : List String) × (x : String) × (further : List String) × (xs ≡ nearer ++ (x ∷ further))
    × (found ≡ a.trim_space x)
    × (is_public a (a.parse found) ≡ true)
    × All (λ y. is_public a (a.parse (a.trim_space y)) ≡ false) nearer

last_public-IsLastPublic :
    (a : Addresses) (xs : List String) (found : String)
    → last_public a xs ≡ some found
    → IsLastPublic a xs found
unfolding last_public
last_public-IsLastPublic a [] found h = absurd (ground arith)
last_public-IsLastPublic a (x ∷ xs) found h =
    elim (Bool-cases (is_public a (a.parse (a.trim_space x)))) [
      | inl public_one ↦
          let same : found ≡ a.trim_space x = ground arith in
          ([], x, xs, refl, same, rw same public_one, tt)
      | inr private_one ↦
          let (nearer, y, further, split, same, taken, passed) =
            last_public-IsLastPublic a xs found (rw (last_public, private_one) at h) in
          (x ∷ nearer, y, further, rw split refl, same, taken, (private_one, passed))
    ]

-- Without the Cloudflare header, the address of a request is the public one that is nearest to the
-- program among those of X-Forwarded-For, so that what a client puts before it does not count; or,
-- if none there is public, the nearest public one of X-Real-Ip; or else the remote address without
-- its port.
pub for_request_lem :
    (a : Addresses) (s : Source)
    → s.cloudflare ≡ ""
    → IsLastPublic a s.forwarded_for (for_request a s)
      ⊎ ((last_public a s.forwarded_for ≡ none) × IsLastPublic a s.real_ip (for_request a s))
      ⊎ ((last_public a s.forwarded_for ≡ none)
          × (last_public a s.real_ip ≡ none)
          × (for_request a s ≡ remote_address s.remote))
unfolding for_request
for_request_lem a s h = elim (Option-cases (last_public a s.forwarded_for)) [
  | inr (x, found) ↦ inl (
      let taken : for_request a s ≡ x = ground (arith, eq_iff s.cloudflare "", found) in
      rw taken (last_public-IsLastPublic a s.forwarded_for x found))
  | inl nothing ↦ elim (Option-cases (last_public a s.real_ip)) [
    | inr (x, found) ↦ inr (
        inl (
          nothing,
          (let taken : for_request a s ≡ x =
                ground (arith, eq_iff s.cloudflare "", nothing, found) in
              rw taken (last_public-IsLastPublic a s.real_ip x found)),
        ))
    | inl neither ↦
        inr (inr (nothing, neither, ground (arith, eq_iff s.cloudflare "", nothing, neither)))
  ]
]

-- The last address of a private range counts as public.
pub last_of_range_public : (a : Addresses) → is_private_subnet a (v4 10 255 255 255) ≡ false
unfolding is_private_subnet
last_of_range_public a = ground arith
