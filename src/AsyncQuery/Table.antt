-- ===== src/AsyncQuery/Table.antt =====
-- Lookups in the rows after an insertion or an update.
use odysee_api.Base.{
  ◌≡◌, refl, Bool, true, false, some, List, [], ◌∷◌, arith, ◌==◌, eq_iff, eq_refl, Bool-cases, inl,
  inr, any, ◌≢◌, eqb_ℤ_iff,
}
use odysee_api.AsyncQuery.{Asynquery, newest, save, has_id, matches, by_id}

pub newest-test :
    (test : Asynquery → Bool) (a : Asynquery) (rs : List Asynquery)
    → newest test rs ≡ some a
    → test a ≡ true
unfolding newest
newest-test test a [] h = cc
newest-test test a (r ∷ rs) h = elim (Bool-cases (test r)) [
  | inl hit ↦ (let e : r ≡ a = ground arith in rw (← e) hit)
  | inr miss ↦ newest-test test a rs (rw miss at h)
]

-- A row that is updated stays the newest of its upload.
pub newest-save :
    (test : Asynquery → Bool) (a b : Asynquery) (rs : List Asynquery)
    → newest test rs ≡ some a
    → b.id ≡ a.id
    → test b ≡ true
    → newest test (save b rs) ≡ some b
unfolding newest save
newest-save test a b [] h i t = cc
newest-save test a b (r ∷ rs) h i t = elim (Bool-cases (r.id == b.id)) [
  | inl same ↦ rw (same, t) refl
  | inr differs ↦ elim (Bool-cases (test r)) [
    | inl hit ↦ (let e : r ≡ a = ground arith in absurd (ground (arith, eq_iff r.id b.id)))
    | inr miss ↦ rw (differs, miss) (newest-save test a b rs (rw miss at h) i t)
  ]
]

-- A stricter test finds the same row where that row passes it.
pub newest-stricter :
    (loose strict : Asynquery → Bool) (a : Asynquery) (rs : List Asynquery)
    → ((r : Asynquery) → strict r ≡ true → loose r ≡ true)
    → strict a ≡ true
    → newest loose rs ≡ some a
    → newest strict rs ≡ some a
unfolding newest
newest-stricter loose strict a [] s t h = cc
newest-stricter loose strict a (r ∷ rs) s t h = elim (Bool-cases (loose r)) [
  | inl hit ↦ (let e : r ≡ a = ground arith in rw (e, t) refl)
  | inr miss ↦ ground (arith, s r, newest-stricter loose strict a rs s t)
]

-- No two rows have one id.
abbrev pub HasDistinctIds : List Asynquery → Type 0
HasDistinctIds [] = Unit {0}
HasDistinctIds (r ∷ rs) = (any (has_id r.id) rs ≡ false) × HasDistinctIds rs

newest-any :
    (test : Asynquery → Bool) (a : Asynquery) (rs : List Asynquery)
    → newest test rs ≡ some a
    → any (has_id a.id) rs ≡ true
unfolding newest
newest-any test a [] h = cc
newest-any test a (r ∷ rs) h = ground (arith, newest-any test a rs, eq_refl a.id)

pub newest-id :
    (test : Asynquery → Bool) (a : Asynquery) (rs : List Asynquery)
    → HasDistinctIds rs
    → newest test rs ≡ some a
    → newest (has_id a.id) rs ≡ some a
unfolding newest
newest-id test a [] d h = cc
newest-id test a (r ∷ rs) (n, d) h =
    ground (arith, newest-id test a rs d, newest-any test a rs, eq_refl a.id, eq_iff r.id a.id)

-- The row under an id is found by a task for its user.
pub newest-matches :
    (a : Asynquery) (rs : List Asynquery)
    → a.id ≢ ""
    → newest (has_id a.id) rs ≡ some a
    → newest
        (matches
          (record { query_id = a.id; upload_id = ""; user_id = a.user_id; ready_to_run = false }))
        rs
      ≡ some a
newest-matches a rs ne h =
    newest-stricter (has_id a.id) _ a rs (λ r k. ground (arith, eq_iff a.id "", eq_refl a.id))
      (ground (arith, eq_refl a.id, eqb_ℤ_iff a.user_id a.user_id)) h

pub newest-by_id :
    (a : Asynquery) (rs : List Asynquery)
    → a.id ≢ ""
    → newest (has_id a.id) rs ≡ some a
    → newest (matches (by_id a.id)) rs ≡ some a
newest-by_id a rs ne h =
    newest-stricter (has_id a.id) _ a rs (λ r k. ground (arith, eq_iff a.id ""))
      (ground (arith, eq_refl a.id)) h
