-- ===== src/AsyncQuery/Sound.antt =====
-- Tables whose rows have distinct ids and tasks that name rows that are ready, and that every
-- operation keeps them so.
use odysee_api.Base.{
  String, ◌≡◌, ◌≢◌, refl, sym, ◌∙◌, Bool, true, false, Option, none, some, List, [], ◌∷◌, arith,
  ◌==◌, eq_iff, eq_refl, Bool-cases, inl, inr, any, All, All-map,
}
use odysee_api.AsyncQuery.{Asynquery, QueryTask, World, newest, save, has_id}
use odysee_api.AsyncQuery.Table.{HasDistinctIds, newest-test, newest-save}
use odysee_api.AsyncQuery.Changes.{Change, unchanged, inserted, updated}

abbrev pub IsNamed : Asynquery → Type 0
IsNamed r = r.id ≢ ""

abbrev ready_of : Option Asynquery → Bool
ready_of none = false
ready_of (some r) = r.ready_to_run

-- The row under an id is ready.
abbrev pub is_ready : String → List Asynquery → Bool
is_ready i rows = ready_of (newest (has_id i) rows)

abbrev pub IsTaskReady : List Asynquery → QueryTask → Type 0
IsTaskReady rows t = (t.query_id ≢ "") × (is_ready t.query_id rows ≡ true)

pub record IsSound {W : Type 0} (w : World W) : Type 0 where
  pub rows_named : All IsNamed w.rows
  pub rows_distinct : HasDistinctIds w.rows
  pub tasks_ready : All (IsTaskReady w.rows) w.queued

any-save :
    (i : String) (b : Asynquery) (rs : List Asynquery)
    → any (has_id i) (save b rs) ≡ any (has_id i) rs
unfolding save
any-save i b [] = refl
any-save i b (r ∷ rs) = ground (arith, any-save i b rs, eq_iff r.id b.id)

HasDistinctIds-save :
    (b : Asynquery) (rs : List Asynquery) → HasDistinctIds rs → HasDistinctIds (save b rs)
unfolding save
HasDistinctIds-save b [] d = tt
HasDistinctIds-save b (r ∷ rs) (n, d) = elim (Bool-cases (r.id == b.id)) [
  | inl same ↦ rw same (rw (← (eq_iff r.id b.id).0 same) n, d)
  | inr other_id ↦ rw other_id (any-save r.id b rs ∙ n, HasDistinctIds-save b rs d)
]

IsNamed-save : (b : Asynquery) (rs : List Asynquery) → All IsNamed rs → All IsNamed (save b rs)
unfolding save
IsNamed-save b [] h = tt
IsNamed-save b (r ∷ rs) (n, h) = elim (Bool-cases (r.id == b.id)) [
  | inl same ↦ rw same ((λ e. n ((eq_iff r.id b.id).0 same ∙ e)), h)
  | inr other_id ↦ rw other_id (n, IsNamed-save b rs h)
]

newest-save_ne :
    (i : String) (b : Asynquery) (rs : List Asynquery)
    → b.id ≢ i
    → newest (has_id i) (save b rs) ≡ newest (has_id i) rs
unfolding newest save
newest-save_ne i b [] ne = refl
newest-save_ne i b (r ∷ rs) ne =
    ground (arith, newest-save_ne i b rs ne, eq_iff r.id b.id, eq_iff b.id i, eq_iff r.id i)

is_ready-insert :
    (i : String) (a : Asynquery) (rs : List Asynquery)
    → any (has_id a.id) rs ≡ false
    → is_ready i rs ≡ true
    → is_ready i (a ∷ rs) ≡ true
unfolding newest
is_ready-insert i a rs fresh r = elim (Bool-cases (a.id == i)) [
  | inl same ↦ absurd (ground (arith, none_of rs fresh, (eq_iff a.id i).0 same))
  | inr other_id ↦ rw other_id r
]
  where
    none_of : (xs : List Asynquery) → any (has_id a.id) xs ≡ false → newest (has_id a.id) xs ≡ none
    none_of [] h = refl
    none_of (x ∷ xs) h = ground (arith, none_of xs)

is_ready-save :
    (i : String) (a b : Asynquery) (rs : List Asynquery)
    → newest (has_id b.id) rs ≡ some a
    → (a.ready_to_run ≡ true → b.ready_to_run ≡ true)
    → is_ready i rs ≡ true
    → is_ready i (save b rs) ≡ true
is_ready-save i a b rs n keeps r = elim (Bool-cases (b.id == i)) [
  | inl same ↦
      (let e : b.id ≡ i = (eq_iff b.id i).0 same in
        let i_id : b.id ≡ a.id = sym ((eq_iff a.id b.id).0 (newest-test (has_id b.id) a rs n)) in
        rw (← e, newest-save (has_id b.id) a b rs n i_id (eq_refl b.id)) (keeps (rw (← e, n) at r)))
  | inr other_id ↦ rw (newest-save_ne i b rs (λ e. ground (arith, eq_iff b.id i))) r
]

pub Change-is_ready :
    {before after : List Asynquery} (i : String)
    → Change before after
    → is_ready i before ≡ true
    → is_ready i after ≡ true
Change-is_ready i unchanged r = r
Change-is_ready i (inserted a fresh ne) r = is_ready-insert i a _ fresh r
Change-is_ready i (updated a b n keeps) r = is_ready-save i a b _ n keeps r

Change-IsNamed :
    {before after : List Asynquery} → Change before after → All IsNamed before → All IsNamed after
Change-IsNamed unchanged h = h
Change-IsNamed (inserted a fresh ne) h = (ne, h)
Change-IsNamed (updated a b n keeps) h = IsNamed-save b _ h

Change-HasDistinctIds :
    {before after : List Asynquery}
    → Change before after
    → HasDistinctIds before
    → HasDistinctIds after
Change-HasDistinctIds unchanged d = d
Change-HasDistinctIds (inserted a fresh ne) d = (fresh, d)
Change-HasDistinctIds (updated a b n keeps) d = HasDistinctIds-save b _ d

module _ {W : Type 0} where
  -- A change of the rows, and whatever happens to the SDK.
  pub IsSound-Change :
      (v w : World W) → Change v.rows w.rows → w.queued ≡ v.queued → IsSound v → IsSound w
  IsSound-Change v w c q s = record {
    rows_named = Change-IsNamed c s.rows_named;
    rows_distinct = Change-HasDistinctIds c s.rows_distinct;
    tasks_ready = rw q (
        All-map (IsTaskReady v.rows) (IsTaskReady w.rows) v.queued
          (λ t h. (h.0, Change-is_ready t.query_id c h.1)) s.tasks_ready);
  }
