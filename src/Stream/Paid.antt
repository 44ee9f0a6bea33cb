-- ===== src/Stream/Paid.antt =====
-- What a stream is served for.
use odysee_api.Base.{ℕ, String, ◌≡◌, ◌⊎◌, inl, inr, Option, none, some, arith, refl, lookup}
use odysee_api.Errors.{Error, Result, ok, err, Exit, returned, panicked}
use odysee_api.Rpc.{Response, Value, text, null, flag, number, texts, list, object}
use odysee_api.Signature.{SigningChannel}
use odysee_api.Query.{Query, params_as_map, entries}
use odysee_api.Access.{
  Claim, Source, Account, Signing, unsigned, signed_url, signed_livestream_url, is_test,
  check_stream_access,
}
use odysee_api.Stream.{
  Platform, Settled, GetResponse, resolve, deliver, preflight_hook_get, serve_settled, to_response,
  on_resolved, on_uri, on_resolved, on_uri,
}
use odysee_api.Stream.Purchases.{Proven, settle-Proven}
use odysee_api.Stream.Answers.{
  SignedStream, SignedLivestream, ServedAs, serve_settled-ServedAs, signed_stream-SignedStream,
  signed_livestream-SignedLivestream,
}

module _ {S : Type 0} (p : Platform) (send : Query → S → Result Response × S)
    (validate : SigningChannel → String → String → String → Result (Unit {0})) (a : Account)
    (now : ℕ) (q : Query) (s : S) where
  abbrev pub Served : String → Claim → S → GetResponse → Type 0
  Served url c v out =
      (out.id ≡ q.request.id)
      × (g : Signing) × (check_stream_access validate a c (entries (params_as_map q)) now
          ≡ returned (ok g))
      × (((g ≡ signed_url) × SignedStream p send now q c out)
          ⊎ ((g ≡ signed_livestream_url) × SignedLivestream p send now q out)
          ⊎ ((g ≡ unsigned)
              × (t : Settled) × ServedAs p send now q c.source t out
              × Proven p send a (is_test (entries (params_as_map q))) q.wallet_id url c v t))

  to_response-id :
      (m : Result String) (out : GetResponse)
      → to_response p send q m ≡ returned (ok out)
      → out.id ≡ q.request.id
  to_response-id (err e) out h = cc
  to_response-id (ok u) out h = ground arith

  serve_settled-ok :
      (src : Option Source) (m : Result Settled) (out : GetResponse)
      → serve_settled p send q src m ≡ returned (ok out)
      → (t : Settled) × (m ≡ ok t) × (out.id ≡ q.request.id)
  serve_settled-ok src (err e) out h = cc
  serve_settled-ok src (ok t) out h = (t, refl, ground arith)

  deliver-Served :
      (url : String) (c : Claim) (v : S) (out : GetResponse) (access : Exit Signing)
      → check_stream_access validate a c (entries (params_as_map q)) now ≡ access
      → (deliver p send a now q url c access v).0 ≡ returned (ok out)
      → Served url c v out
  unfolding deliver
  deliver-Served url c v out panicked e h = cc
  deliver-Served url c v out (returned (err x)) e h = cc
  deliver-Served url c v out (returned (ok signed_url)) e h = (
    to_response-id _ out h,
    signed_url,
    e,
    inl (refl, signed_stream-SignedStream p send now q c out h),
  )
  deliver-Served url c v out (returned (ok signed_livestream_url)) e h = (
    to_response-id _ out h,
    signed_livestream_url,
    e,
    inr (inl (refl, signed_livestream-SignedLivestream p send now q out h)),
  )
  deliver-Served url c v out (returned (ok unsigned)) e h =
      let (t, settled, same) = serve_settled-ok c.source _ out h in
      (
        same,
        unsigned,
        e,
        inr (
            inr (
              refl,
              t,
              serve_settled-ServedAs p send now q c.source t out (rw settled at h),
              settle-Proven p send a (is_test (entries (params_as_map q))) q.wallet_id url c v t
                  settled,
            )),
      )

  abbrev pub ServedUri : Option Value → GetResponse → Type 0
  ServedUri uri out =
      (url : String) × (c : Claim) × (uri ≡ some (text url))
      × ((resolve p send q.wallet_id url s).0 ≡ ok c)
      × Served url c (resolve p send q.wallet_id url s).1 out

  on_resolved-Served :
      (url : String) (out : GetResponse) (resolved : Result Claim × S)
      → (on_resolved p send validate a now q url resolved).0 ≡ returned (ok out)
      → (c : Claim) × (resolved.0 ≡ ok c) × Served url c resolved.1 out
  on_resolved-Served url out (err e, v) h = cc
  on_resolved-Served url out (ok c, v) h = (c, refl, deliver-Served url c v out _ refl h)

  on_uri-ServedUri :
      (uri : Option Value) (out : GetResponse)
      → (on_uri p send validate a now q s uri).0 ≡ returned (ok out)
      → ServedUri uri out
  unfolding on_uri
  on_uri-ServedUri none out h = cc
  on_uri-ServedUri (some (text url)) out h =
      let (c, resolved, served) = on_resolved-Served url out (resolve p send q.wallet_id url s) h in
      (url, c, refl, resolved, served)
  on_uri-ServedUri (some null) out h = cc
  on_uri-ServedUri (some (flag b)) out h = cc
  on_uri-ServedUri (some (number n)) out h = cc
  on_uri-ServedUri (some (texts ts)) out h = cc
  on_uri-ServedUri (some (list vs)) out h = cc
  on_uri-ServedUri (some (object ms)) out h = cc

  -- The hook answers only with a claim that resolve gave for the client's uri and that the client
  -- has access to, under the client's id. Where access asks for a signed URL, the answer is that of
  -- the claim's own file, signed; where it asks for that of a livestream, the answer is the client's
  -- base URL, signed. Else the claim was served as free, having no fee or being free by the SDK's
  -- word, or as paid, being the user's own, with the transaction of its receipt, or with a purchase
  -- in the customer list; or it was bought, the SDK taking the purchase without an error, and served
  -- is what the SDK then resolves the uri to, with the transaction of its receipt. The answer then is
  -- the URL of the claim that was served.
  pub preflight_hook_get-ServedUri :
      (out : GetResponse)
      → (preflight_hook_get p send validate a now q s).0 ≡ returned (ok out)
      → ServedUri (lookup "uri" (entries (params_as_map q))) out
  unfolding preflight_hook_get
  preflight_hook_get-ServedUri out h =
      on_uri-ServedUri (lookup "uri" (entries (params_as_map q))) out h

  -- Where the client has no access to the claim, the hook returns the refusal, and has sent
  -- nothing but the resolve query: it buys nothing.
  pub no_access_no_purchase :
      (url : String) (c : Claim) (e : Error)
      → lookup "uri" (entries (params_as_map q)) ≡ some (text url)
      → (resolve p send q.wallet_id url s).0 ≡ ok c
      → check_stream_access validate a c (entries (params_as_map q)) now ≡ returned (err e)
      → preflight_hook_get p send validate a now q s
        ≡ (returned (err e), (resolve p send q.wallet_id url s).1)
  unfolding preflight_hook_get on_uri deliver
  no_access_no_purchase url c e uri resolved refused =
      rw uri (refusal (resolve p send q.wallet_id url s) resolved)
    where
      refusal :
          (r : Result Claim × S)
          → r.0 ≡ ok c
          → on_resolved p send validate a now q url r ≡ (returned (err e), r.1)
      refusal (err x, v) k = cc
      refusal (ok d, v) k = ground (arith, refused)
