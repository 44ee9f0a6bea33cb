-- ===== src/Stream/Answers.antt =====
-- What a stream is answered with.
use Prim.Native.String.{◌++◌}
use odysee_api.Base.{
  ◌+◌, Bool-cases, ℕ, String, ◌≡◌, ◌⊎◌, inl, inr, true, false, Option, none, some, arith, refl,
  Option-cases, lookup,
}
use odysee_api.Errors.{Result, ok, returned, Result-cases}
use odysee_api.Rpc.{Response, Value, text, null, flag, number, texts, list, object}
use odysee_api.Query.{Query, params_as_map, entries}
use odysee_api.Access.{Claim, Source}
use odysee_api.Stream.{
  Platform, Settled, GetResponse, GetResult, first_chars, content_url, with_arfleet_url, serve,
  signed_stream, signed_livestream, sign_stream_url77, day, respond, serve_settled, to_response,
}

module _ {S : Type 0} (p : Platform) (send : Query → S → Result Response × S) (now : ℕ)
    (q : Query) where
  -- The URL of the claim's own file, signed.
  abbrev pub SignedStream : Claim → GetResponse → Type 0
  SignedStream c out =
      (src : Source) × (c.source ≡ some src)
      × (let path = p.start_path c.claim_id src.sd_hash in
          let hash = sign_stream_url77 p path p.token (now + day) in
          out
          ≡ respond q (record {
            streaming_url = "https://" ++ p.paid_host ++ "/" ++ hash ++ path ++ "?hash77=" ++ hash;
            purchase_receipt = none;
          }))

  -- The URL that the client named, signed.
  abbrev pub SignedLivestream : GetResponse → Type 0
  SignedLivestream out =
      (base : String) × (at : String × String) × (lookup "base_streaming_url"
          (entries (params_as_map q))
        ≡ some (text base))
      × (p.parse_url base ≡ some at)
      × (out
          ≡ respond q (record {
            streaming_url =
                "https://" ++ at.0 ++ "/" ++ sign_stream_url77 p at.1 p.token (now + day) ++ at.1;
            purchase_receipt = none;
          }))

  -- What a settled claim is answered with: a free one with its URL at the host, and a paid one with
  -- its URL at the CDN under a token for this claim and its transaction, and the receipt. A URL that
  -- arfleet has for the claim takes its place.
  abbrev pub Content : Settled → Source → String → GetResult → Type 0
  Content t src hash r =
      ((t.is_paid ≡ false)
        × (r ≡ record {
          streaming_url = "https://" ++ p.host ++ p.start_path t.claim.claim_id hash;
          purchase_receipt = none;
        }))
      ⊎ ((t.is_paid ≡ true)
          × (token : String) × (p.create_token (t.claim.name ++ "/" ++ t.claim.claim_id)
                t.purchase_tx src.size
              ≡ ok token)
          × (r ≡ record {
            streaming_url =
                p.cdn_url ++ t.claim.name ++ "/" ++ t.claim.claim_id ++ "/" ++ hash ++ "/" ++ token;
            purchase_receipt = some t.claim.purchase_receipt;
          }))

  abbrev pub ServedAs : Option Source → Settled → GetResponse → Type 0
  ServedAs source t out =
      (src : Source) × (hash : String) × (r : GetResult) × (source ≡ some src)
      × (first_chars 6 src.sd_hash ≡ some hash)
      × Content t src hash r
      × (out ≡ respond q (with_arfleet_url p t.claim.claim_id r))

  content_url-Content :
      (t : Settled) (src : Source) (hash : String) (r : GetResult)
      → content_url p t hash src ≡ ok r
      → Content t src hash r
  unfolding content_url
  content_url-Content t src hash r h = elim (Bool-cases t.is_paid) [
    | inr free ↦ inl (free, ground (arith, free))
    | inl paid ↦
        elim (Result-cases
          (p.create_token (t.claim.name ++ "/" ++ t.claim.claim_id) t.purchase_tx src.size)) [
            | inr (e, failed) ↦ absurd (ground (arith, paid, failed))
            | inl (token, made) ↦ inr (paid, token, made, ground (arith, paid, made))
          ]
  ]

  pub serve_settled-ServedAs :
      (source : Option Source) (t : Settled) (out : GetResponse)
      → serve_settled p send q source (ok t) ≡ returned (ok out)
      → ServedAs source t out
  unfolding serve
  serve_settled-ServedAs none t out h = absurd (ground arith)
  serve_settled-ServedAs (some src) t out h = elim (Option-cases (first_chars 6 src.sd_hash)) [
    | inl short ↦ absurd (ground (arith, short))
    | inr (hash, long) ↦ elim (Result-cases (content_url p t hash src)) [
      | inr (e, failed) ↦ absurd (ground (arith, long, failed))
      | inl (r, made) ↦ (
        src,
        hash,
        r,
        refl,
        long,
        content_url-Content t src hash r made,
        ground (arith, long, made),
      )
    ]
  ]

  pub signed_stream-SignedStream :
      (c : Claim) (out : GetResponse)
      → to_response p send q (signed_stream p c now) ≡ returned (ok out)
      → SignedStream c out
  unfolding signed_stream
  signed_stream-SignedStream c out h = elim (Option-cases c.source) [
    | inl absent ↦ absurd (ground (arith, absent))
    | inr (src, found) ↦ (src, found, ground (arith, found))
  ]

  pub signed_livestream-SignedLivestream :
      (out : GetResponse)
      → to_response p send q (signed_livestream p (entries (params_as_map q)) now)
        ≡ returned (ok out)
      → SignedLivestream out
  unfolding signed_livestream
  signed_livestream-SignedLivestream out h = on_base _ refl
    where
      on_base :
          (v : Option Value)
          → lookup "base_streaming_url" (entries (params_as_map q)) ≡ v
          → SignedLivestream out
      on_base none e = absurd (ground (arith, e))
      on_base (some (text base)) e = elim (Option-cases (p.parse_url base)) [
        | inl bad ↦ absurd (ground (arith, e, bad))
        | inr (at, good) ↦ (base, at, e, good, ground (arith, e, good))
      ]
      on_base (some null) e = absurd (ground (arith, e))
      on_base (some (flag b)) e = absurd (ground (arith, e))
      on_base (some (number n)) e = absurd (ground (arith, e))
      on_base (some (texts ts)) e = absurd (ground (arith, e))
      on_base (some (list vs)) e = absurd (ground (arith, e))
      on_base (some (object ms)) e = absurd (ground (arith, e))
