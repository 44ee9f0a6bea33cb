-- ===== src/Stream/Purchases.antt =====
-- What a claim is settled for.
use odysee_api.Base.{
  ap, ◌∙◌, eqb, Bool-cases, [], ◌∷◌, String, ◌≡◌, ◌⊎◌, inl, inr, Bool, true, false, none, some,
  arith, refl, Option-cases,
}
use odysee_api.Errors.{Result, ok, err, Result-cases}
use odysee_api.Rpc.{Response, RpcError, text, flag}
use odysee_api.Query.{Query, new_query, method_purchase_create}
use odysee_api.Access.{Claim, Account, CustomerPurchase, check_customer_list_purchase}
use odysee_api.Stream.{Platform, Settled, resolve, bought, after_purchase, buy, settle, purchase_by}

module _ {S : Type 0} (p : Platform) (send : Query → S → Result Response × S) where
  -- The claim was bought: the SDK took the purchase of the URL without an error, and then its
  -- answer for the URL was this claim, with this receipt.
  abbrev pub Bought : String → String → S → Settled → Type 0
  Bought wallet url s t =
      (q : Query) × (r : Response) × (new_query
          (p.new_request method_purchase_create (("url", text url) ∷ ("blocking", flag true) ∷ []))
          wallet
        ≡ ok q)
      × ((send q s).0 ≡ ok r)
      × (r.error ≡ none)
      × ((resolve p send wallet url (send q s).1).0 ≡ ok t.claim)
      × (t.claim.purchase_receipt ≡ some t.purchase_tx)

  -- The SDK refused the purchase of the URL, as that of a free claim.
  abbrev pub SaidFree : String → String → S → Type 0
  SaidFree wallet url s =
      (q : Query) × (r : Response) × (e : RpcError) × (new_query
          (p.new_request method_purchase_create (("url", text url) ∷ ("blocking", flag true) ∷ []))
          wallet
        ≡ ok q)
      × ((send q s).0 ≡ ok r)
      × (r.error ≡ some e)
      × (p.purchase_free e.message ≡ true)

  -- What a claim is served for: as a free one it has no fee, or the SDK said so when it was to be
  -- bought; as a paid one it is the user's own, or its receipt is the transaction that the token
  -- names, or the first item of the customer list is a purchase; or else it was bought.
  abbrev pub Proven : Account → Bool → String → String → Claim → S → Settled → Type 0
  Proven a test wallet url c s t =
      ((t.claim ≡ c)
        × (((t.is_paid ≡ false) × ((c.fee_amount ≡ 0) ⊎ SaidFree wallet url s))
            ⊎ ((t.is_paid ≡ true)
                × ((c.is_my_output ≡ true)
                    ⊎ (c.purchase_receipt ≡ some t.purchase_tx)
                    ⊎ ((b : CustomerPurchase) × (check_customer_list_purchase a c.claim_id test
                          ≡ ok (some b)))))))
      ⊎ ((t.is_paid ≡ true) × Bought wallet url s t)

  bought-receipt :
      (out : Result Claim) (t : Settled)
      → bought p send out ≡ ok t
      → (t.is_paid ≡ true) × (out ≡ ok t.claim) × (t.claim.purchase_receipt ≡ some t.purchase_tx)
  unfolding bought
  bought-receipt (err e) t h = cc
  bought-receipt (ok c) t h = ground arith

  module _ (a : Account) (test : Bool) (wallet url : String) (c : Claim) (s : S) (t : Settled) where
    after_purchase-Proven :
        (q : Query) (out : Result Response × S)
        → new_query
            (p.new_request method_purchase_create
              (("url", text url) ∷ ("blocking", flag true) ∷ []))
            wallet
          ≡ ok q
        → send q s ≡ out
        → (after_purchase p send wallet url c out).0 ≡ ok t
        → Proven a test wallet url c s t
    unfolding after_purchase
    after_purchase-Proven q (err e, v) made sent h = cc
    after_purchase-Proven q (ok r, v) made sent h = elim (Option-cases r.error) [
      | inl none_here ↦
          let (paid, same, receipt) =
            bought-receipt (resolve p send wallet url v).0 t (rw none_here at h) in
          inr (
            paid,
            (
              q,
              r,
              made,
              ap (λ x. x.0) sent,
              none_here,
              ap (λ x. (resolve p send wallet url x.1).0) sent ∙ same,
              receipt,
            ),
          )
      | inr (e, found) ↦
          let h' = rw found at h in
          inl (
            ground arith,
            inl (ground arith, inr (q, r, e, made, ap (λ x. x.0) sent, found, ground arith)),
          )
    ]

    buy-Proven : (buy p send wallet url c s).0 ≡ ok t → Proven a test wallet url c s t
    unfolding buy
    buy-Proven h = on_query _ refl h
      where
        on_query :
            (m : Result Query)
            → new_query
                (p.new_request method_purchase_create
                  (("url", text url) ∷ ("blocking", flag true) ∷ []))
                wallet
              ≡ m
            → (purchase_by p send wallet url c s m).0 ≡ ok t
            → Proven a test wallet url c s t
        on_query (err e) made k = cc
        on_query (ok q) made k = after_purchase-Proven q (send q s) made refl k

    pub settle-Proven :
        (settle p send a test wallet url c s).0 ≡ ok t → Proven a test wallet url c s t
    unfolding settle
    settle-Proven h = elim (Bool-cases (eqb c.fee_amount 0)) [
      | inl free ↦
          inl (ground (arith, free), inl (ground (arith, free), inl (ground (arith, free))))
      | inr fee ↦ elim (Bool-cases c.is_my_output) [
        | inl mine ↦ inl (ground (arith, fee, mine), inr (ground (arith, fee, mine), inl mine))
        | inr other ↦ elim (Option-cases c.purchase_receipt) [
          | inr (tx, had) ↦ inl (
            ground (arith, fee, other, had),
            inr (ground (arith, fee, other, had), inr (inl (ground (arith, fee, other, had)))),
          )
          | inl no_receipt ↦ elim (Result-cases (check_customer_list_purchase a c.claim_id test)) [
            | inr (e, failed) ↦ buy-Proven (ground (arith, fee, other, no_receipt, failed))
            | inl (o, listed) ↦ elim (Option-cases o) [
              | inl absent ↦ buy-Proven (ground (arith, fee, other, no_receipt, listed, absent))
              | inr (b, there) ↦ inl (
                ground (arith, fee, other, no_receipt, listed, there),
                inr (
                  ground (arith, fee, other, no_receipt, listed, there),
                  inr (inr (b, listed ∙ ap ok there)),
                ),
              )
            ]
          ]
        ]
      ]
    ]
