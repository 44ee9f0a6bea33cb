-- ===== src/Geopublish/Rows.antt =====
-- What the statements on the tables leave in place.
use odysee_api.Base.{
  String, ◌≡◌, refl, ap, ◌∙◌, Option, none, some, arith, ◌==◌, if◌then◌else◌, eq_iff, Bool-cases,
  Option-cases, inl, inr, ℤ, Dict, lookup, contains, lookup-insert,
}
use odysee_api.Geopublish.Table.{Upload, update_row, int_of}

-- The user that an upload belongs to.
abbrev pub owner : Option Upload → Option ℤ
owner none = none
owner (some u) = some (int_of u.user_id)

abbrev pub after_change : {A : Type 0} → (A → A) → Option A → Option A
after_change change none = none
after_change change (some r) = some (change r)

pub lookup-update_row :
    {A : Type 0} (id j : String) (change : A → A) (rows : Dict A)
    → lookup j (update_row id change rows)
      ≡ (if id == j then after_change change (lookup j rows) else lookup j rows)
unfolding update_row
lookup-update_row id j change rows = elim (Option-cases (lookup id rows)) [
  | inl absent ↦ ground (arith, absent, eq_iff id j)
  | inr (r, there) ↦ ground (arith, there, eq_iff id j, lookup-insert id j (change r) rows)
]

-- A change of an upload that keeps its user keeps every owner.
pub owner-update_row :
    (id j : String) (change : Upload → Upload) (rows : Dict Upload)
    → ((u : Upload) → (change u).user_id ≡ u.user_id)
    → owner (lookup j (update_row id change rows)) ≡ owner (lookup j rows)
owner-update_row id j change rows keeps =
    ap owner (lookup-update_row id j change rows) ∙ (elim (Bool-cases (id == j)) [
      | inl same ↦ rw same (kept (lookup j rows))
      | inr differs ↦ rw differs refl
    ])
  where
    kept : (o : Option Upload) → owner (after_change change o) ≡ owner o
    kept none = refl
    kept (some u) = ap (λ x. some (int_of x)) (keeps u)

pub contains-update_row :
    {A : Type 0} (id j : String) (change : A → A) (rows : Dict A)
    → contains j (update_row id change rows) ≡ contains j rows
contains-update_row id j change rows = ground (arith, lookup-update_row id j change rows)
