-- ===== src/Stream/Urls.antt =====
-- The URLs that a stream is served under: signStreamURL77 of app/query/paid.go, and the ends of
-- preflightHookGet in app/query/processors.go.
use Prim.Native.String.{◌++◌}
use Prim.Native.Char.{Char, code}
use odysee_api.Base.{
  ℕ, zero, suc, ◌+◌, String, Bool, Option, none, some, ◌==◌, eqb, if◌then◌else◌, Dict, lookup, ℤ,
}
use odysee_api.Base.Decimal.{decimal}
use odysee_api.Errors.{err_text, Result, ok, err, Exit, returned, panicked}
use odysee_api.Rpc.{Value, text, Request}
use odysee_api.Query.{Query}
use odysee_api.Access.{Source, Claim}

-- What is used of the libraries, and of the configuration.
pub record Platform : Type 0 where
  -- jsonrpc.NewRequest of a method and a map
  pub new_request : String → Dict Value → Request
  -- ljsonrpc.Decode of a resolve response, whose purchase receipts are their transactions
  pub decode_resolve : Value → Result (Dict Claim)
  -- path.Dir; MD5 in base64; url.Parse into host and path
  pub path_dir : String → String
  pub md5_base64 : String → String
  pub parse_url : String → Option (String × String)
  -- reAlreadyPurchased and rePurchaseFree
  pub already_purchased : String → Bool
  pub purchase_free : String → Bool
  -- paid.CreateToken of a stream, a transaction and a size
  pub create_token : String → String → ℕ → Result String
  -- arweave.GetClaimUrl, where arfleet is enabled
  pub arfleet : Option (String → Result String)
  pub host : String
  pub paid_host : String
  pub token : String
  -- the start path for a claim and a hash
  pub start_path : String → String → String
  pub cdn_url : String

-- strings.NewReplacer("+", "-", "/", "_")
unfoldable pub safe_char : Char → Char
safe_char c = if eqb (code c) 43 then "-" else if eqb (code c) 47 then "_" else c

unfoldable pub url_safe : String → String
unfolding safe_char
url_safe String.[] = ""
url_safe (String.◌∷◌ c s) = String.◌∷◌ (safe_char c) (url_safe s)

-- signStreamURL77; a time of zero is none.
unfoldable pub sign_stream_url77 : Platform → String → String → ℕ → String
unfolding url_safe
sign_stream_url77 p path token zero = url_safe (p.md5_base64 (p.path_dir path ++ token))
sign_stream_url77 p path token (suc t) =
    url_safe (p.md5_base64 (decimal (suc t) ++ p.path_dir path ++ token)) ++ "," ++ decimal (suc t)

-- The result of the response: the streaming URL, and for a paid stream its receipt, if any.
pub record GetResult : Type 0 where
  pub streaming_url : String
  pub purchase_receipt : Option (Option String)

pub record GetResponse : Type 0 where
  pub id : ℤ
  pub jsonrpc : String
  pub result : GetResult

abbrev pub respond : Query → GetResult → GetResponse
respond q r = record { id = q.request.id; jsonrpc = q.request.jsonrpc; result = r }

-- A signed URL lives for a day.
abbrev pub day : ℕ
day = 86400

-- The branch for a stream under a signed URL.
unfoldable pub signed_stream : Platform → Claim → ℕ → Result String
signed_stream p claim now = elim claim.source [
  | none ↦ err (err_text "paid content doesn't have source data")
  | some src ↦
      let path = p.start_path claim.claim_id src.sd_hash in
      let hash = sign_stream_url77 p path p.token (now + day) in
      ok ("https://" ++ p.paid_host ++ "/" ++ hash ++ path ++ "?hash77=" ++ hash)
]

-- The branch for a livestream.
unfoldable pub signed_livestream : Platform → Dict Value → ℕ → Result String
signed_livestream p params now = elim (lookup "base_streaming_url" params) [
  | some (text base) ↦ elim (p.parse_url base) [
    | none ↦ err (err_text "invalid base_streaming_url supplied")
    | some (host, path) ↦
        ok ("https://" ++ host ++ "/" ++ sign_stream_url77 p path p.token (now + day) ++ path)
  ]
  | _ ↦ err (err_text "invalid base_streaming_url supplied")
]

-- The first characters of a text, if it has as many.
unfoldable pub first_chars : ℕ → String → Option String
first_chars zero s = some ""
first_chars (suc n) String.[] = none
first_chars (suc n) (String.◌∷◌ c s) = elim (first_chars n s) [
  | none ↦ none
  | some t ↦ some (String.◌∷◌ c t)
]

-- A claim as it is served: the claim with its receipt, whether it was paid for, and the
-- transaction that the token names.
pub record Settled : Type 0 where
  pub claim : Claim
  pub is_paid : Bool
  pub purchase_tx : String

-- The end of the hook, over the source of the claim that was first resolved; the slice of its hash
-- panics where the hash is short.
unfoldable pub content_url : Platform → Settled → String → Source → Result GetResult
content_url p s hash src =
    if s.is_paid
    then elim (p.create_token (s.claim.name ++ "/" ++ s.claim.claim_id) s.purchase_tx src.size) [
      | err e ↦ err e
      | ok token ↦ ok (record {
        streaming_url =
            p.cdn_url ++ s.claim.name ++ "/" ++ s.claim.claim_id ++ "/" ++ hash ++ "/" ++ token;
        purchase_receipt = some s.claim.purchase_receipt;
      })
    ]
    else ok (record {
      streaming_url = "https://" ++ p.host ++ p.start_path s.claim.claim_id hash;
      purchase_receipt = none;
    })

-- The URL of arfleet takes the place of the other one, if there is one.
unfoldable pub with_arfleet_url : Platform → String → GetResult → GetResult
with_arfleet_url p claim_id r = elim p.arfleet [
  | none ↦ r
  | some get ↦ elim (get claim_id) [
    | err e ↦ r
    | ok url ↦ if url == "" then r else record r { streaming_url = url }
  ]
]

unfoldable pub serve : Platform → Option Source → Settled → Exit GetResult
unfolding first_chars content_url with_arfleet_url
serve p none s = returned (err (err_text "stream doesn't have source data"))
serve p (some src) s = elim (first_chars 6 src.sd_hash) [
  | none ↦ panicked
  | some hash ↦ elim (content_url p s hash src) [
    | err e ↦ returned (err e)
    | ok r ↦ returned (ok (with_arfleet_url p s.claim.claim_id r))
  ]
]
