-- ===== src/Caller/Endpoint.antt =====
-- RandomizeEndpoint.
use odysee_api.Base.{
  ℕ, zero, suc, ◌≤◌, ◌<◌, String, ◌≡◌, ◌≢◌, ◌⊎◌, inl, inr, true, false, Option, none, some, List,
  [], ◌∷◌, arith, refl, ap, length, get_elem?, ◌==◌, eq_iff, eqb_ℤ, eqb_ℤ_iff, pos, Bool-cases, not,
  ◌||◌,
}
use odysee_api.Query.Gate.{In}
use odysee_api.Caller.{Caller, other_endpoints, is_empty, at_endpoint, randomize_endpoint}

get_elem?-In :
    (xs : List String) (i : ℕ) → i < length xs → (x : String) × (get_elem? xs i ≡ some x) × In x xs
get_elem?-In [] i h = absurd (omega arith)
get_elem?-In (x ∷ xs) zero h = (x, refl, inl refl)
get_elem?-In (x ∷ xs) (suc i) h = let (y, e, m) = get_elem?-In xs i (omega arith) in (y, e, inr m)

get_elem?-none : (xs : List String) (i : ℕ) → length xs ≤ i → get_elem? xs i ≡ none
get_elem?-none [] i h = refl
get_elem?-none (x ∷ xs) zero h = absurd (omega arith)
get_elem?-none (x ∷ xs) (suc i) h = get_elem?-none xs i (omega arith)

In-other_endpoints :
    (used e : String) (es : List String) → In e (other_endpoints used es) → In e es × (e ≢ used)
unfolding other_endpoints
In-other_endpoints used e [] h = elim h [ ]
In-other_endpoints used e (x ∷ es) h = elim (Bool-cases (x == used)) [
  | inl hit ↦ let (m, n) = In-other_endpoints used e es (rw hit at h) in (inr m, n)
  | inr miss ↦ elim (rw miss at h) [
    | inl here ↦ (inl here, λ q. ground (arith, eq_iff x used))
    | inr later ↦ let (m, n) = In-other_endpoints used e es later in (inr m, n)
  ]
]

-- Every backup endpoint is the one in use.
abbrev pub AllAre : String → List String → Type 0
AllAre used [] = Unit {0}
AllAre used (e ∷ es) = (e ≡ used) × AllAre used es

AllAre-other_endpoints :
    (used : String) (es : List String) → other_endpoints used es ≡ [] → AllAre used es
unfolding other_endpoints
AllAre-other_endpoints used [] h = tt
AllAre-other_endpoints used (x ∷ es) h =
    ground (arith, eq_iff x used, AllAre-other_endpoints used es)

other_endpoints-AllAre :
    (used : String) (es : List String) → AllAre used es → other_endpoints used es ≡ []
unfolding other_endpoints
other_endpoints-AllAre used [] h = refl
other_endpoints-AllAre used (x ∷ es) h =
    ground (arith, eq_iff x used, other_endpoints-AllAre used es h.1)

-- The three ways in which RandomizeEndpoint ends: it leaves the caller alone, moves it to another
-- of its backup endpoints, or panics.
abbrev pub Unmoved : {F : Type 0} → Caller F → Option (Caller F) → Type 0
Unmoved c out = ((c.user_id ≢ pos 0) ⊎ (c.backup_endpoints ≡ [])) × (out ≡ some c)

abbrev pub Moved : {F : Type 0} → Caller F → Option (Caller F) → Type 0
Moved c out =
    (c.user_id ≡ pos 0)
    × (e : String) × (out ≡ some (record c { endpoint = e }))
    × In e c.backup_endpoints
    × (e ≢ c.endpoint)

abbrev pub Panics : {F : Type 0} → Caller F → Option (Caller F) → Type 0
Panics c out =
    (c.user_id ≡ pos 0)
    × (c.backup_endpoints ≢ [])
    × AllAre c.endpoint c.backup_endpoints
    × (out ≡ none)

module _ {F : Type 0} (int_n : ℕ → ℕ) (c : Caller F) (range : (n : ℕ) → 0 < n → int_n n < n) where
  moved :
      (others : List String)
      → other_endpoints c.endpoint c.backup_endpoints ≡ others
      → c.user_id ≡ pos 0
      → c.backup_endpoints ≢ []
      → Moved c (at_endpoint c (get_elem? others (int_n (length others))))
        ⊎ Panics c (at_endpoint c (get_elem? others (int_n (length others))))
  moved [] e anonymous some_backup =
      inr (anonymous, some_backup, AllAre-other_endpoints c.endpoint c.backup_endpoints e, refl)
  moved (x ∷ xs) e anonymous some_backup =
      let (y, found, m) = get_elem?-In (x ∷ xs) (int_n (length (x ∷ xs))) (range _ (omega arith)) in
      let (m', n) = In-other_endpoints c.endpoint y c.backup_endpoints (rw e m) in
      inl (anonymous, y, ap (at_endpoint c) found, m', n)

  -- With random numbers in their range, RandomizeEndpoint leaves the caller of a user, and one with
  -- no backup endpoints, as it is. Any other caller moves to one of its backup endpoints other than
  -- the one in use and keeps all else; or every backup endpoint is the one in use, and the call
  -- panics.
  pub randomize_endpoint_lem :
      Unmoved c (randomize_endpoint int_n c)
      ⊎ Moved c (randomize_endpoint int_n c)
      ⊎ Panics c (randomize_endpoint int_n c)
  unfolding randomize_endpoint
  randomize_endpoint_lem =
      elim (Bool-cases (not (eqb_ℤ c.user_id (pos 0)) || is_empty c.backup_endpoints)) [
        | inl stays ↦ rw stays (inl (unmoved stays, refl))
        | inr leaves ↦ rw leaves (inr (moved _ refl (anonymous leaves) (some_backup leaves)))
      ]
    where
      unmoved :
          (not (eqb_ℤ c.user_id (pos 0)) || is_empty c.backup_endpoints) ≡ true
          → (c.user_id ≢ pos 0) ⊎ (c.backup_endpoints ≡ [])
      unmoved h = ground (arith, eqb_ℤ_iff c.user_id (pos 0))

      anonymous :
          (not (eqb_ℤ c.user_id (pos 0)) || is_empty c.backup_endpoints) ≡ false → c.user_id ≡ pos 0
      anonymous h = ground (arith, eqb_ℤ_iff c.user_id (pos 0))

      some_backup :
          (not (eqb_ℤ c.user_id (pos 0)) || is_empty c.backup_endpoints) ≡ false
          → c.backup_endpoints ≢ []
      some_backup h = λ e. ground arith

-- The panic, from the state in which it happens.
pub randomize_endpoint-none :
    {F : Type 0} (int_n : ℕ → ℕ) (c : Caller F)
    → c.user_id ≡ pos 0
    → c.backup_endpoints ≢ []
    → AllAre c.endpoint c.backup_endpoints
    → randomize_endpoint int_n c ≡ none
unfolding randomize_endpoint
randomize_endpoint-none int_n c anonymous some_backup all =
    rw (some_test c.backup_endpoints some_backup, anonymous, other_endpoints-AllAre _ _ all)
  where
    some_test : (bs : List String) → bs ≢ [] → is_empty bs ≡ false
    some_test [] h = absurd (h refl)
    some_test (b ∷ bs) h = refl
