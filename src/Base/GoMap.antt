-- ===== src/Base/GoMap.antt =====
-- Go's map with string keys, as an association list. The order of the entries is one order in
-- which `range` may visit them.
use Prim.Native.String.{String}
use mathlib.Core.Path.{◌≡◌, refl}
use mathlib.Core.Logic.{◌≢◌}
use mathlib.Core.Bool.{Bool, true, false}
use mathlib.Core.Option.{Option, none, some}
use mathlib.Core.List.{List, [], ◌∷◌}
use native.Mathlib.Omega.{arith}
use text.Mathlib.Text.{◌==◌}
use text.Mathlib.TextEquality.{eq_iff}
use text.Mathlib.TextPositions.{eq_refl}
use odysee_api.Base.Tests.{if◌then◌else◌}

abbrev pub Dict {ℓ} : Type ℓ → Type ℓ
Dict V = List (String × V)

module _ {ℓ} {V : Type ℓ} where
  -- m[k], with the second result
  unfoldable pub lookup : String → Dict V → Option V
  lookup k [] = none
  lookup k ((j, v) ∷ m) = if j == k then some v else lookup k m

  -- m[k] = v
  unfoldable pub insert : String → V → Dict V → Dict V
  insert k v [] = (k, v) ∷ []
  insert k v ((j, w) ∷ m) = if j == k then (k, v) ∷ m else (j, w) ∷ insert k v m

  -- delete(m, k)
  unfoldable pub delete : String → Dict V → Dict V
  delete k [] = []
  delete k ((j, v) ∷ m) = let rest = delete k m in if j == k then rest else (j, v) ∷ rest

  -- the entries whose value passes a test
  unfoldable pub keep : (V → Bool) → Dict V → Dict V
  keep p [] = []
  keep p ((j, v) ∷ m) = let rest = keep p m in if p v then (j, v) ∷ rest else rest

  abbrev present : Option V → Bool
  present none = false
  present (some v) = true

  -- the second result of m[k]
  abbrev pub contains : String → Dict V → Bool
  contains k m = present (lookup k m)

  -- A write shows under its own key and under no other.
  pub lookup-insert :
      (key other : String) (new : V) (m : Dict V)
      → lookup other (insert key new m) ≡ (if key == other then some new else lookup other m)
  unfolding lookup insert
  lookup-insert key other new [] = refl
  lookup-insert key other new (entry ∷ m) = ground (
    arith,
    lookup-insert key other new m,
    eq_iff entry.0 key,
    eq_iff entry.0 other,
    eq_iff key other,
  )

  pub lookup-insert_self :
      (key : String) (new : V) (m : Dict V) → lookup key (insert key new m) ≡ some new
  lookup-insert_self key new m = rw (lookup-insert, eq_refl) refl

  pub lookup-insert_ne :
      (k j : String) (v : V) (m : Dict V) → j ≢ k → lookup j (insert k v m) ≡ lookup j m
  lookup-insert_ne k j v m ne = rw lookup-insert (ground (arith, eq_iff k j))

  pub lookup-delete :
      (k j : String) (m : Dict V) → lookup j (delete k m) ≡ (if k == j then none else lookup j m)
  unfolding lookup delete
  lookup-delete k j [] = ground arith
  lookup-delete k j ((i, v) ∷ m) =
      ground (arith, eq_iff k j, eq_iff i k, eq_iff i j, lookup-delete k j m)

  -- What `keep` leaves under a key passed the test.
  pub lookup-keep :
      (p : V → Bool) (k : String) (m : Dict V) (v : V) → lookup k (keep p m) ≡ some v → p v ≡ true
  unfolding lookup keep
  lookup-keep p k [] v h = ground arith
  lookup-keep p k ((i, w) ∷ m) v h = ground (arith, lookup-keep p k m v)

  -- What passes the test stays under its key.
  pub lookup-keep_kept :
      (p : V → Bool) (k : String) (m : Dict V) (v : V)
      → lookup k m ≡ some v
      → p v ≡ true
      → lookup k (keep p m) ≡ some v
  unfolding lookup keep
  lookup-keep_kept p k [] v h t = ground arith
  lookup-keep_kept p k ((i, w) ∷ m) v h t = ground (arith, lookup-keep_kept p k m v)
