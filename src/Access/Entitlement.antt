-- ===== src/Access/Entitlement.antt =====
-- Who is let in.
use odysee_api.Base.{
  ℕ, String, ◌≡◌, ◌≤◌, ◌<◌, ◌⊎◌, inl, inr, Bool, true, false, Option, none, some, arith, Dict,
  lookup, eq_iff, refl, ◌||◌, Bool-cases, Option-cases,
}
use odysee_api.Errors.{err_text, Result, ok, err, returned}
use odysee_api.Rpc.{Value, text}
use odysee_api.Signature.{SigningChannel}
use odysee_api.Access.{
  Claim, AccessType, purchase, rental, member_only, unlisted, scheduled, CustomerPurchase, client,
  Account, Signing, unsigned, first_access, is_test, is_livestream, signing_for, perk_type,
  is_user_a_mod, check_customer_list_purchase, check_purchase, check_by_type, check_stream_access,
}

customer_status :
    (a : Account) (claim_id : String) (test : Bool) (p : CustomerPurchase)
    → check_customer_list_purchase a claim_id test ≡ ok (some p)
    → (p.status ≡ "confirmed") ⊎ (p.status ≡ "submitted")
unfolding check_customer_list_purchase
customer_status a claim_id test p h =
    ground (arith, eq_iff p.status "confirmed", eq_iff p.status "submitted")

purchase_found :
    (a : Account) (c : Claim) (test rented : Bool) (now : ℕ) (s g : Signing)
    → check_purchase a c test rented now s ≡ ok g
    → (p : CustomerPurchase) × (check_customer_list_purchase a c.claim_id test ≡ ok (some p))
      × ((rented ≡ false) ⊎ ((p.kind ≡ "rental") × (now ≤ p.valid_through)))
      × (g ≡ s)
unfolding check_purchase
purchase_found a c test rented now s g h =
    found (check_customer_list_purchase a c.claim_id test) refl
  where
    found :
        (r : Result (Option CustomerPurchase))
        → check_customer_list_purchase a c.claim_id test ≡ r
        → (p : CustomerPurchase) × (check_customer_list_purchase a c.claim_id test ≡ ok (some p))
          × ((rented ≡ false) ⊎ ((p.kind ≡ "rental") × (now ≤ p.valid_through)))
          × (g ≡ s)
    found (err x) e = ground arith
    found (ok none) e = ground arith
    found (ok (some p)) e =
        (p, e, ground (arith, eq_iff p.kind "rental"), ground (arith, eq_iff p.kind "rental"))

module _ (validate : SigningChannel → String → String → String → Result (Unit {0})) (a : Account)
    (c : Claim) (params : Dict Value) (now : ℕ) where
  -- What entitles a viewer to a claim that is restricted in one way: for a purchase or a rental the
  -- first item of the customer list, in a valid state, a rental that has not run out; for members
  -- the perk; for an unlisted claim a valid signature. Nothing does before the release.
  abbrev pub Entitled : AccessType → Type 0
  Entitled purchase =
      (p : CustomerPurchase) × (check_customer_list_purchase a c.claim_id (is_test params)
        ≡ ok (some p))
      × ((p.status ≡ "confirmed") ⊎ (p.status ≡ "submitted"))
  Entitled rental =
      (p : CustomerPurchase) × (check_customer_list_purchase a c.claim_id (is_test params)
        ≡ ok (some p))
      × (p.kind ≡ "rental")
      × (now ≤ p.valid_through)
  Entitled member_only =
      (a.user ≡ client)
      × (a.perk_check (is_test params) c.claim_id (perk_type (is_livestream params)) ≡ ok true)
  Entitled unlisted =
      (s : String) × (ts : String) × (lookup "signature" params ≡ some (text s))
      × (lookup "signature_ts" params ≡ some (text ts))
      × (validate c.signing_channel s ts c.claim_id ≡ ok tt)
  Entitled scheduled = ⊥

  check_by_type-Entitled :
      (t : AccessType) (g : Signing)
      → check_by_type validate a c params now t ≡ returned (ok g)
      → Entitled t × (g ≡ signing_for params)
  unfolding check_by_type
  check_by_type-Entitled purchase g h =
      let (p, e, r, s) =
        purchase_found a c (is_test params) false now (signing_for params) g (ground arith) in
      ((p, e, customer_status a c.claim_id (is_test params) p e), s)
  check_by_type-Entitled rental g h =
      let (p, e, r, s) =
        purchase_found a c (is_test params) true now (signing_for params) g (ground arith) in
      ((p, e, ground arith, ground arith), s)
  check_by_type-Entitled member_only g h = ground arith
  check_by_type-Entitled unlisted g h = ground arith
  check_by_type-Entitled scheduled g h = cc

  -- Access under a signed URL is given only for a claim with a tag that restricts it, to its
  -- owner, to a moderator, or to a viewer entitled by the first such tag, and the URL is one for a
  -- livestream exactly for a livestream. Access without one is given only where no tag restricts
  -- the claim.
  pub check_stream_access-Entitled :
      (g : Signing)
      → check_stream_access validate a c params now ≡ returned (ok g)
      → ((g ≡ unsigned) × (first_access now c c.tags ≡ none))
        ⊎ ((g ≡ signing_for params)
            × (t : AccessType) × (first_access now c c.tags ≡ some t)
            × ((c.is_my_output ≡ true) ⊎ (is_user_a_mod a (is_test params) ≡ true) ⊎ Entitled t))
  unfolding check_stream_access
  check_stream_access-Entitled g h = elim (Option-cases (first_access now c c.tags)) [
    | inl free ↦ inl (ground arith, free)
    | inr (t, restricted) ↦ elim (Bool-cases (c.is_my_output || is_user_a_mod a (is_test params))) [
      | inl trusted ↦ inr (ground arith, t, restricted, trusted_cases t trusted)
      | inr other ↦
          let (entitled, signed) = check_by_type-Entitled t g (ground arith) in
          inr (signed, t, restricted, inr (inr entitled))
    ]
  ]
    where
      trusted_cases :
          (t : AccessType)
          → (c.is_my_output || is_user_a_mod a (is_test params)) ≡ true
          → (c.is_my_output ≡ true) ⊎ (is_user_a_mod a (is_test params) ≡ true) ⊎ Entitled t
      trusted_cases t e = ground arith

-- A viewer whose first item in the customer list, in a valid state, is a rental that has run out
-- passes the check of a claim that is restricted to purchases, and fails that of one restricted to
-- rentals.
pub expired_rental_buys :
    (validate : SigningChannel → String → String → String → Result (Unit {0})) (a : Account)
    (c : Claim) (params : Dict Value) (now : ℕ) (p : CustomerPurchase)
    → check_customer_list_purchase a c.claim_id (is_test params) ≡ ok (some p)
    → p.kind ≡ "rental"
    → p.valid_through < now
    → (check_by_type validate a c params now purchase ≡ returned (ok (signing_for params)))
      × (check_by_type validate a c params now rental ≡ returned (err (err_text "rental expired")))
unfolding check_by_type check_purchase
expired_rental_buys validate a c params now p e k late = ground (arith, eq_iff p.kind "rental")
