-- ===== src/Examples/Streams.antt =====
-- Streams that are restricted and searches for them (app/query/processors.go), and a reversed slice.
use odysee_api.Base.{
  ℕ, String, ◌≡◌, ◌≢◌, ◌⊎◌, refl, true, false, some, none, List, [], ◌∷◌, pos, lookup, Dict, All,
  ne_of_test,
}
use odysee_api.Errors.{Result, ok, returned}
use odysee_api.Rpc.{Value, texts, named, flag}
use odysee_api.Signature.{SigningChannel}
use odysee_api.Access.{
  Claim, AccessType, purchase, CustomerPurchase, client, Account, unsigned, signed_url, signing_for,
  is_test, tag_access, first_access, is_user_a_mod, check_customer_list_purchase, check_by_type,
  check_stream_access, check_purchase,
}
use odysee_api.Access.Entitlement.{Entitled, check_stream_access-Entitled}
use odysee_api.Query.{Query}
use odysee_api.Query.Gate.{In}
use odysee_api.ClaimSearch.{
  ClaimSearchParams, lists_hidden, lists_scheduled, slice_contains, tag_private, tag_unlisted,
  with_params, preflight_hook_claim_search,
}
use odysee_api.ClaimSearch.Filters.{searches_are_filtered, filtered_entry, hidden_tags}

abbrev old_rental : CustomerPurchase
old_rental = record { status = "confirmed"; kind = "rental"; valid_through = 100 }

-- A viewer with one rental that ran out at 100.
abbrev viewer : Account
viewer = record {
  user = client;
  user_me = λ test. ok (true, false);
  customer_list = λ test claim. ok (old_rental ∷ []);
  perk_check = λ test claim perk. ok false;
}

abbrev film : Claim
film = record {
  claim_id = "abc";
  name = "film";
  tags = "art" ∷ "c:purchase" ∷ [];
  release_time = 0;
  is_my_output = false;
  purchase_receipt = none;
  fee_amount = 0;
  source = none;
  signing_channel = record { claim_id = "def"; key_bytes = none };
}

abbrev any_signature : SigningChannel → String → String → String → Result (Unit {0})
any_signature channel signature ts claim = ok tt

film-opened : check_stream_access any_signature viewer film [] 200 ≡ returned (ok signed_url)
unfolding check_stream_access check_by_type check_purchase check_customer_list_purchase
    is_user_a_mod is_test first_access tag_access lookup
film-opened = refl

check_stream_access-Entitled_example :
    ((signed_url ≡ unsigned) × (first_access 200 film film.tags ≡ none))
    ⊎ ((signed_url ≡ signing_for [])
        × (t : AccessType) × (first_access 200 film film.tags ≡ some t)
        × ((film.is_my_output ≡ true)
            ⊎ (is_user_a_mod viewer (is_test []) ≡ true)
            ⊎ Entitled any_signature viewer film [] 200 t))
check_stream_access-Entitled_example =
    check_stream_access-Entitled any_signature viewer film [] 200 signed_url film-opened

rented : check_customer_list_purchase viewer "abc" (is_test []) ≡ ok (some old_rental)
unfolding check_customer_list_purchase is_test
rented = refl

art-free : All (λ u. tag_access 200 film u ≡ none) ("art" ∷ [])
unfolding tag_access
art-free = (refl, tt)

purchase-tag : tag_access 200 film "c:purchase" ≡ some purchase
unfolding tag_access
purchase-tag = refl

abbrev three_bytes : List ℕ
three_bytes = 1 ∷ 2 ∷ 3 ∷ []

abbrev search_params : ClaimSearchParams
search_params = record {
  order_by = [];
  has_source = some true;
  release_time = [];
  any_tags = "art" ∷ [];
  not_tags = "mature" ∷ [];
}

abbrev search_map : Dict Value
search_map = ("has_source", flag true) ∷ ("any_tags", texts ("art" ∷ [])) ∷ []

abbrev search : Query
search = record {
  request = record {
    method = "claim_search";
    params = named search_map;
    id = pos 3;
    jsonrpc = "2.0";
  };
  wallet_id = "";
}

abbrev decoded : Dict Value → Result ClaimSearchParams
decoded m = ok search_params

hidden_unlisted : lists_hidden search_params ≡ false
unfolding slice_contains
hidden_unlisted = refl

scheduled_unlisted : lists_scheduled search_params ≡ false
unfolding slice_contains
scheduled_unlisted = refl

not_tags_ne : ◌≢◌ {A = String} "not_tags" "order_by"
not_tags_ne = ne_of_test "not_tags" "order_by" refl

searches_are_filtered_example :
    (after : Dict Value) × (preflight_hook_claim_search decoded 1000 search
      ≡ returned (ok (with_params search after)))
    × (lookup "not_tags" after ≡ filtered_entry search_params 1000 search_map "not_tags")
    × In tag_private (hidden_tags search_params)
    × In tag_unlisted (hidden_tags search_params)
    × All (λ u. In u (hidden_tags search_params)) search_params.not_tags
searches_are_filtered_example =
    searches_are_filtered decoded 1000 search search_map search_params "not_tags" refl refl refl
      hidden_unlisted scheduled_unlisted not_tags_ne
