-- ===== src/SturdyCache/Fallback.antt =====
-- When the master is asked.
use odysee_api.Base.{String, ◌≡◌, List, [], ◌∷◌, ◌++◌, All, refl}
use odysee_api.Errors.{Error, ok, err}
use odysee_api.SturdyCache.{CacheStore, get}

module _ {S V : Type 0} (key : String) where
  -- The cache has no answer, and asking it changes nothing.
  abbrev pub Misses : S → CacheStore S V → Type 0
  Misses s c = (e : Error) × (c.get key s ≡ (err e, s))

  -- A read passes over replicas that miss and that reading does not change: the first one behind
  -- them that has the key answers, and with none the master does, its error included.
  pub get_lem :
      (master c : CacheStore S V) (misses rest : List (CacheStore S V)) (s s' : S) (v : V)
      → All (Misses s) misses
      → c.get key s ≡ (ok v, s')
      → (get (record { master_cache = master; replica_caches = misses }) key s ≡ master.get key s)
        × (get (record { master_cache = master; replica_caches = misses ++ c ∷ rest }) key s
            ≡ (ok v, s'))
  unfolding get
  get_lem master c [] rest s s' v h k = (refl, rw k refl)
  get_lem master c (m ∷ ms) rest s s' v ((e, miss), h) k =
      let (all_miss, found) = get_lem master c ms rest s s' v h k in
      (rw miss all_miss, rw miss found)
