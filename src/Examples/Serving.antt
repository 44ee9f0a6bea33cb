-- ===== src/Examples/Serving.antt =====
-- A stream that is sold, addresses with limiters, and a cache with replicas (preflightHookGet of
-- app/query/processors.go, pkg/iprate and pkg/sturdycache).
use odysee_api.Base.{
  ℕ, ◌+◌, String, ◌≡◌, refl, true, false, some, none, [], ◌∷◌, pos, insert, lookup, keep,
}
use odysee_api.Errors.{Result, ok, err, err_text, plain, returned}
use odysee_api.Rpc.{Response, null, text, named}
use odysee_api.Signature.{SigningChannel}
use odysee_api.Access.{
  Claim, Account, client, check_stream_access, check_by_type, check_purchase,
  check_customer_list_purchase, is_user_a_mod, is_test, first_access, tag_access,
}
use odysee_api.Query.{
  Query, params_as_map, entries, new_query, add_wallet, is_authenticated, is_blank, method_in_list,
  relaxed_methods, wallet_specific_methods, forbidden_param, forbidden_params,
  method_accepts_wallet, method_requires_wallet,
}
use odysee_api.Stream.{
  Platform, GetResponse, resolve, settle, serve, deliver, on_uri, claim_of, content_url,
  first_chars, with_arfleet_url, preflight_hook_get,
}
use odysee_api.Stream.Paid.{ServedUri, preflight_hook_get-ServedUri}
use odysee_api.IpRate.{Entry, Limiter, new_limiter, cleanup}
use odysee_api.SturdyCache.{CacheStore}

abbrev buyer : Account
buyer = record {
  user = client;
  user_me = λ test. ok (true, false);
  customer_list = λ test claim. ok [];
  perk_check = λ test claim perk. ok false;
}

-- A stream with a fee and the receipt of its purchase.
abbrev sold : Claim
sold = record {
  claim_id = "abc";
  name = "song";
  tags = [];
  release_time = 0;
  is_my_output = false;
  purchase_receipt = some "tx1";
  fee_amount = 10;
  source = some (record { sd_hash = "0123456789"; size = 100 });
  signing_channel = record { claim_id = "def"; key_bytes = none };
}

abbrev platform : Claim → Platform
platform c = record {
  new_request = λ m ps. record { method = m; params = named ps; id = pos 0; jsonrpc = "2.0" };
  decode_resolve = λ v. ok (("lbry://song", c) ∷ []);
  path_dir = λ s. s;
  md5_base64 = λ s. s;
  parse_url = λ s. none;
  already_purchased = λ s. false;
  purchase_free = λ s. false;
  create_token = λ s tx n. ok tx;
  arfleet = none;
  host = "host";
  paid_host = "paid";
  token = "secret";
  start_path = λ c h. "/";
  cdn_url = "https://cdn/";
}

abbrev resolver : Query → ℕ → Result Response × ℕ
resolver q n = (ok (record { jsonrpc = "2.0"; result = null; error = none; id = pos 0 }), n + 1)

abbrev song_query : Query
song_query = record {
  request = record {
    method = "get";
    params = named (("uri", text "lbry://song") ∷ []);
    id = pos 9;
    jsonrpc = "2.0";
  };
  wallet_id = "mine";
}

abbrev no_signature : SigningChannel → String → String → String → Result (Unit {0})
no_signature channel signature ts claim = err (plain "no")

abbrev song_response : GetResponse
song_response = record {
  id = pos 9;
  jsonrpc = "2.0";
  result = record {
    streaming_url = "https://cdn/song/abc/012345/tx1";
    purchase_receipt = some (some "tx1");
  };
}

song-served :
    (preflight_hook_get (platform sold) resolver no_signature buyer 200 song_query 0).0
    ≡ returned (ok song_response)
unfolding preflight_hook_get on_uri resolve claim_of deliver settle serve content_url first_chars
    with_arfleet_url check_stream_access first_access tag_access lookup insert new_query add_wallet
    is_authenticated is_blank method_in_list relaxed_methods wallet_specific_methods forbidden_param
    forbidden_params method_accepts_wallet method_requires_wallet
song-served = refl

preflight_hook_get-ServedUri_example :
    ServedUri
      (platform sold)
      resolver
      no_signature
      buyer
      200
      song_query
      0
      (lookup "uri" (entries (params_as_map song_query)))
      song_response
preflight_hook_get-ServedUri_example =
    preflight_hook_get-ServedUri (platform sold) resolver no_signature buyer 200 song_query 0
      song_response song-served

abbrev locked : Claim
locked = record sold { tags = "c:purchase" ∷ [] }

song-uri : lookup "uri" (entries (params_as_map song_query)) ≡ some (text "lbry://song")
unfolding lookup
song-uri = refl

song-resolved : (resolve (platform locked) resolver "mine" "lbry://song" 0).0 ≡ ok locked
unfolding resolve claim_of lookup insert new_query add_wallet is_authenticated is_blank
    method_in_list relaxed_methods wallet_specific_methods forbidden_param forbidden_params
    method_accepts_wallet method_requires_wallet
song-resolved = refl

song-locked :
    check_stream_access no_signature buyer locked (entries (params_as_map song_query)) 200
    ≡ returned (err (err_text "no access to paid content"))
unfolding check_stream_access check_by_type check_purchase check_customer_list_purchase
    is_user_a_mod is_test first_access tag_access lookup
song-locked = refl

-- Limiters that are their bursts.
abbrev limiters : Limiter ℕ
limiters = new_limiter 3

abbrev recent : Entry ℕ
recent = record { limiter = 3; last_seen = 5000 }

abbrev two_seen : Limiter ℕ
two_seen = record {
  ips = ("one", record { limiter = 3; last_seen = 100 }) ∷ ("two", recent) ∷ [];
  b = 3;
}

two-kept : lookup "two" (cleanup 6000 two_seen).ips ≡ some recent
unfolding cleanup lookup keep
two-kept = refl

abbrev missing : CacheStore ℕ ℕ
missing = record {
  get = λ k s. (err (plain "not found"), s);
  get_with_ttl = λ k s. (err (plain "not found"), s);
  set = λ k v s. (none, s);
  invalidate = λ ts s. (none, s);
  delete = λ k s. (none, s);
  clear = λ s. (none, s);
}

abbrev holding : CacheStore ℕ ℕ
holding = record missing { get = λ k s. (ok 7, s) }
