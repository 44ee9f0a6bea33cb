-- ===== src/SturdyCache.antt =====
-- pkg/sturdycache/sturdycache.go: a cache with one master and its replicas. A cache of the cache
-- library is a record of operations on a state of a type `S`; what they read and write is theirs.
pub mod Fallback
use odysee_api.Base.{ℕ, String, Option, List, [], ◌∷◌}
use odysee_api.Errors.{Error, Result, ok, err}

-- cache.Cache, by what is called of it
pub record CacheStore (S V : Type 0) : Type 0 where
  pub get : String → S → Result V × S
  pub get_with_ttl : String → S → Result (V × ℕ) × S
  pub set : String → V → S → Option Error × S
  pub invalidate : List String → S → Option Error × S
  pub delete : String → S → Option Error × S
  pub clear : S → Option Error × S

pub record ReplicatedCache (S V : Type 0) : Type 0 where
  pub master_cache : CacheStore S V
  pub replica_caches : List (CacheStore S V)

-- An answer without an error, or what comes after it.
abbrev pub answer_or : {S R : Type 0} → Result R × S → (S → Result R × S) → Result R × S
answer_or (ok r, s) next = (ok r, s)
answer_or (err e, s) next = next s

module _ {S V : Type 0} where
  -- The loop of both reads over the replicas: the first answer without an error ends it, and after
  -- the last one the master is asked.
  unfoldable pub read :
      {R : Type 0}
      → (CacheStore S V → S → Result R × S)
      → CacheStore S V
      → List (CacheStore S V)
      → S
      → Result R × S
  read ask master [] s = ask master s
  read ask master (c ∷ cs) s = answer_or (ask c s) (read ask master cs)

  -- Get
  unfoldable pub get : ReplicatedCache S V → String → S → Result V × S
  unfolding read
  get rc key s = read (λ c. c.get key) rc.master_cache rc.replica_caches s

  -- GetWithTTL
  unfoldable pub get_with_ttl : ReplicatedCache S V → String → S → Result (V × ℕ) × S
  unfolding read
  get_with_ttl rc key s = read (λ c. c.get_with_ttl key) rc.master_cache rc.replica_caches s

  -- Set
  unfoldable pub set : ReplicatedCache S V → String → V → S → Option Error × S
  set rc key v s = rc.master_cache.set key v s

  -- Invalidate
  unfoldable pub invalidate : ReplicatedCache S V → List String → S → Option Error × S
  invalidate rc tags s = rc.master_cache.invalidate tags s

  -- Delete
  unfoldable pub delete : ReplicatedCache S V → String → S → Option Error × S
  delete rc key s = rc.master_cache.delete key s

  -- Clear
  unfoldable pub clear : ReplicatedCache S V → S → Option Error × S
  clear rc s = rc.master_cache.clear s
