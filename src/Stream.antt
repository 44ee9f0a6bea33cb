-- ===== src/Stream.antt =====
-- preflightHookGet and resolve of app/query/processors.go: how a request for a stream is answered.
-- Sending a query, the decoder of resolve responses, hashing, tokens and the configuration are
-- arguments; a time is in seconds.
mod Urls
mod Purchases
mod Answers
pub mod Paid
pub mod Signed
pub use Urls.*
unfoldable pub use Urls.{
  safe_char, url_safe, sign_stream_url77, signed_stream, signed_livestream, first_chars,
  content_url, with_arfleet_url, serve,
}
use Prim.Native.String.{◌++◌}
use Prim.Native.String
use Prim.Native.Char.{Char, code}
use odysee_api.Base.{
  ℕ, zero, suc, ◌+◌, String, Bool, true, false, Option, none, some, List, [], ◌∷◌, ◌==◌, eqb, ltb,
  if◌then◌else◌, Dict, lookup, ℤ,
}
use odysee_api.Base.Decimal.{decimal}
use odysee_api.Errors.{
  Error, sentinel, claim_not_found, plain, err_text, Result, ok, err, Exit, returned, panicked,
}
use odysee_api.Rpc.{Value, text, flag, Request, Response, RpcError}
use odysee_api.Signature.{SigningChannel}
use odysee_api.Query.{
  Query, new_query, params_as_map, entries, method_resolve, method_purchase_create,
}
use odysee_api.Access.{
  Source, Claim, Account, Signing, unsigned, signed_url, signed_livestream_url, CustomerPurchase,
  text_of, is_test, check_customer_list_purchase, check_stream_access,
}

module _ {S : Type 0} (p : Platform) (send : Query → S → Result Response × S) where
  -- The claim under a URL in what a resolve query answers.
  unfoldable pub claim_of : String → Result Response → Result Claim
  claim_of url (err e) = err e
  claim_of url (ok r) = elim (p.decode_resolve r.result) [
    | err e ↦ err e
    | ok claims ↦ elim (lookup url claims) [
      | none ↦ err (err_text "could not find a corresponding entry in the resolve response")
      | some c ↦ if c.claim_id == "" then err (sentinel claim_not_found) else ok c
    ]
  ]

  -- resolve, for the wallet of a query
  unfoldable pub resolve : String → String → S → Result Claim × S
  unfolding claim_of
  resolve wallet url s =
      elim (new_query
        (p.new_request method_resolve (
          ("urls", text url)
          ∷ ("include_purchase_receipt", flag true)
          ∷ ("include_protobuf", flag true)
          ∷ ("include_is_my_output", flag true)
          ∷ []))
        wallet) [
          | err e ↦ (err e, s)
          | ok q ↦ (let (reply, s') = send q s in (claim_of url reply, s'))
        ]

  -- The claim after a purchase, by its receipt.
  unfoldable pub bought : Result Claim → Result Settled
  bought (err e) = err e
  bought (ok c) = elim c.purchase_receipt [
    | none ↦ err (err_text "couldn't find purchase receipt for paid stream")
    | some tx ↦ ok (record { claim = c; is_paid = true; purchase_tx = tx })
  ]

  -- What the answer to purchase_create leads to.
  unfoldable pub after_purchase : String → String → Claim → Result Response × S → Result Settled × S
  after_purchase wallet url c (err e, s) = (err e, s)
  after_purchase wallet url c (ok r, s) = elim r.error [
    | some e ↦
        if p.already_purchased e.message
        then (err (err_text "couldn't find purchase receipt for paid stream"), s)
        else if p.purchase_free e.message
        then (ok (record { claim = c; is_paid = false; purchase_tx = "" }), s)
        else (err (plain ("purchase error: " ++ e.message)), s)
    | none ↦ (let (again, s') = resolve wallet url s in (bought again, s'))
  ]

  abbrev pub purchase_by : String → String → Claim → S → Result Query → Result Settled × S
  purchase_by wallet url c s (err e) = (err e, s)
  purchase_by wallet url c s (ok q) = after_purchase wallet url c (send q s)

  unfoldable pub buy : String → String → Claim → S → Result Settled × S
  unfolding after_purchase
  buy wallet url c s = purchase_by wallet url c s (
      new_query
        (p.new_request method_purchase_create (("url", text url) ∷ ("blocking", flag true) ∷ []))
        wallet)

  -- What a claim with a fee is paid with: ownership, a receipt, the customer list, or a purchase.
  unfoldable pub settle : Account → Bool → String → String → Claim → S → Result Settled × S
  unfolding buy
  settle a test wallet url c s =
      if eqb c.fee_amount 0
      then (ok (record { claim = c; is_paid = false; purchase_tx = "" }), s)
      else if c.is_my_output
      then (ok (record { claim = c; is_paid = true; purchase_tx = "owner" }), s)
      else elim c.purchase_receipt [
        | some tx ↦ (ok (record { claim = c; is_paid = true; purchase_tx = tx }), s)
        | none ↦ elim (check_customer_list_purchase a c.claim_id test) [
          | ok (some b) ↦ (
            ok (record { claim = c; is_paid = true; purchase_tx = "customer_list_confirmed" }),
            s,
          )
          | ok none ↦ buy wallet url c s
          | err e ↦ buy wallet url c s
        ]
      ]

  abbrev pub to_response : Query → Result String → Exit GetResponse
  to_response q (err e) = returned (err e)
  to_response q (ok url) =
      returned (ok (respond q (record { streaming_url = url; purchase_receipt = none })))

  abbrev pub serve_settled : Query → Option Source → Result Settled → Exit GetResponse
  serve_settled q src (err e) = returned (err e)
  serve_settled q src (ok t) = elim (serve p src t) [
    | panicked ↦ panicked
    | returned (err e) ↦ returned (err e)
    | returned (ok r) ↦ returned (ok (respond q r))
  ]

  -- The hook once the claim is resolved and access to it was judged.
  unfoldable pub deliver :
      Account → ℕ → Query → String → Claim → Exit Signing → S → Exit GetResponse × S
  unfolding signed_stream signed_livestream settle serve
  deliver a now q url c panicked s = (panicked, s)
  deliver a now q url c (returned (err e)) s = (returned (err e), s)
  deliver a now q url c (returned (ok signed_url)) s = (to_response q (signed_stream p c now), s)
  deliver a now q url c (returned (ok signed_livestream_url)) s =
      (to_response q (signed_livestream p (entries (params_as_map q)) now), s)
  deliver a now q url c (returned (ok unsigned)) s =
      let (paid, s') = settle a (is_test (entries (params_as_map q))) q.wallet_id url c s in
      (serve_settled q c.source paid, s')

  -- The rest of the hook after resolve.
  abbrev pub on_resolved :
      (SigningChannel → String → String → String → Result (Unit {0}))
      → Account
      → ℕ
      → Query
      → String
      → Result Claim × S
      → Exit GetResponse × S
  on_resolved validate a now q url (err e, s) = (returned (err e), s)
  on_resolved validate a now q url (ok c, s) =
      deliver a now q url c (check_stream_access validate a c (entries (params_as_map q)) now) s

  -- The hook on its uri; the assertion that it is a text panics on another value.
  unfoldable pub on_uri :
      (SigningChannel → String → String → String → Result (Unit {0}))
      → Account
      → ℕ
      → Query
      → S
      → Option Value
      → Exit GetResponse × S
  unfolding deliver
  on_uri validate a now q s none =
      (returned (err (err_text "missing uri parameter for 'get' method")), s)
  on_uri validate a now q s (some (text url)) =
      on_resolved validate a now q url (resolve q.wallet_id url s)
  on_uri validate a now q s (some _) = (panicked, s)

  -- preflightHookGet
  unfoldable pub preflight_hook_get :
      (SigningChannel → String → String → String → Result (Unit {0}))
      → Account
      → ℕ
      → Query
      → S
      → Exit GetResponse × S
  unfolding on_uri
  preflight_hook_get validate a now q s =
      on_uri validate a now q s (lookup "uri" (entries (params_as_map q)))
