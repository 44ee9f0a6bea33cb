-- ===== src/SdkRouter/Load.antt =====
-- The least loaded server.
use odysee_api.Base.{
  All, ℕ, ◌≤◌, String, ◌≡◌, ◌⊎◌, inl, inr, Option, none, some, List, [], ◌∷◌, arith, refl, sym,
  subst, if◌then◌else◌,
}
use odysee_api.SdkRouter.{Server, Router, least, update_load, consider, set_least}

abbrev pub Mem : Server → List Server → Type 0
Mem s [] = ⊥
Mem s (x ∷ xs) = (x ≡ s) ⊎ Mem s xs

module _ (wallets : String → Option ℕ) where
  -- The load under which a server may be chosen: public servers that answer.
  abbrev pub public_load : Server → Option ℕ
  public_load s = if s.private then none else wallets s.address

  -- What the loop has found, from the best server at its start and the servers that it visits.
  abbrev AtMost : ℕ → Option (Server × ℕ) → Type 0
  AtMost n none = Unit {0}
  AtMost n (some (b, k)) = n ≤ k

  abbrev Chosen : List Server → Option (Server × ℕ) → Option (Server × ℕ) → Type 0
  Chosen ss best none = (best ≡ none) × ((s : Server) → Mem s ss → public_load s ≡ none)
  Chosen ss best (some (b, n)) =
      ((best ≡ some (b, n)) ⊎ (Mem b ss × (public_load b ≡ some n)))
      × AtMost n best
      × ((s : Server) (m : ℕ) → Mem s ss → public_load s ≡ some m → n ≤ m)

  AtMost-consider :
      (s : Server) (best : Option (Server × ℕ)) (n : ℕ)
      → AtMost n (consider s (wallets s.address) best)
      → AtMost n best × ((m : ℕ) → public_load s ≡ some m → n ≤ m)
  AtMost-consider s none n h = (tt, λ m e. ground arith)
  AtMost-consider s (some (b, k)) n h = (ground arith, λ m e. ground arith)

  from_consider :
      (s : Server) (best : Option (Server × ℕ)) (b : Server) (n : ℕ)
      → consider s (wallets s.address) best ≡ some (b, n)
      → (best ≡ some (b, n)) ⊎ ((s ≡ b) × (public_load s ≡ some n))
  from_consider s best b n h = ground arith

  none-consider :
      (s : Server) (best : Option (Server × ℕ))
      → consider s (wallets s.address) best ≡ none
      → (best ≡ none) × (public_load s ≡ none)
  none-consider s best h = ground arith

  extend :
      (s : Server) (ss : List Server) (best r : Option (Server × ℕ))
      → Chosen ss (consider s (wallets s.address) best) r
      → Chosen (s ∷ ss) best r
  extend s ss best none (e, h) =
      let (e', none_here) = none-consider s best e in
      (e', λ s'. elim [ inl q ↦ subst (λ t. public_load t ≡ none) q none_here | inr q ↦ h s' q ])
  extend s ss best (some (b, n)) (e, l, h) =
      let (l', below) = AtMost-consider s best n l in
      (
        earlier e,
        l',
        λ s' m. elim [
          | inl q ↦ λ p. below m (subst (λ t. public_load t ≡ some m) (sym q) p)
          | inr q ↦ h s' m q
        ],
      )
    where
      earlier :
          (consider s (wallets s.address) best ≡ some (b, n))
            ⊎ (Mem b ss × (public_load b ≡ some n))
          → (best ≡ some (b, n)) ⊎ (Mem b (s ∷ ss) × (public_load b ≡ some n))
      earlier (inl q) = elim (from_consider s best b n q) [
        | inl old ↦ inl old
        | inr (this, load) ↦ inr (inl this, subst (λ t. public_load t ≡ some n) this load)
      ]
      earlier (inr (q, load)) = inr (inr q, load)

  least-Chosen :
      (ss : List Server) (best : Option (Server × ℕ)) → Chosen ss best (least wallets ss best)
  unfolding least
  least-Chosen [] none = (refl, λ s h. elim h [ ])
  least-Chosen [] (some (b, n)) = (inl refl, omega arith, λ s m h. elim h [ ])
  least-Chosen (s ∷ ss) best =
      extend s ss best _ (least-Chosen ss (consider s (wallets s.address) best))

-- A load that is not below the number, where there is one.
abbrev pub NotBelow : ℕ → Option ℕ → Type 0
NotBelow n none = Unit {0}
NotBelow n (some m) = n ≤ m

All-Mem : (P : Server → Type 0) (ss : List Server) → ((s : Server) → Mem s ss → P s) → All P ss
All-Mem P [] h = tt
All-Mem P (s ∷ ss) h = (h s (inl refl), All-Mem P ss (λ t m. h t (inr m)))

NotBelow-intro : (n : ℕ) (o : Option ℕ) → ((m : ℕ) → o ≡ some m → n ≤ m) → NotBelow n o
NotBelow-intro n none h = tt
NotBelow-intro n (some m) h = h m refl

-- What a load update does to a router: it keeps the server list, and either sets the least loaded
-- server to a public one that answered with the fewest wallets, or finds none and keeps the old.
abbrev pub Updated : (String → Option ℕ) → Router → Router → Type 0
Updated wallets r r' =
    (r'.servers ≡ r.servers)
    × (((b : Server) × (n : ℕ) × (r'.least_loaded ≡ some b)
          × Mem b r.servers
          × (public_load wallets b ≡ some n)
          × All (λ s. NotBelow n (public_load wallets s)) r.servers)
        ⊎ ((r'.least_loaded ≡ r.least_loaded) × All (λ s. public_load wallets s ≡ none) r.servers))

set_least-Updated :
    (wallets : String → Option ℕ) (r : Router) (best : Option (Server × ℕ))
    → Chosen wallets r.servers none best
    → Updated wallets r (set_least best r)
set_least-Updated wallets r none (e, h) =
    (refl, inr (refl, All-Mem (λ s. public_load wallets s ≡ none) r.servers h))
set_least-Updated wallets r (some (b, n)) (inl e, l, h) = cc
set_least-Updated wallets r (some (b, n)) (inr (m, load), l, h) = (
  refl,
  inl (
    b,
    n,
    refl,
    m,
    load,
    All-Mem (λ s. NotBelow n (public_load wallets s)) r.servers
        (λ s i. NotBelow-intro n (public_load wallets s) (λ k. h s k i)),
  ),
)

-- After a load update the least loaded server is a public one of the list that answered, and no
-- public server that answered reports fewer wallets; or no public server answered, and the choice
-- is the one from before. The server list stays as it is.
pub update_load_lem :
    (wallets : String → Option ℕ) (r : Router) → Updated wallets r (update_load wallets r)
unfolding update_load
update_load_lem wallets r =
    set_least-Updated wallets r (least wallets r.servers none) (least-Chosen wallets r.servers none)
