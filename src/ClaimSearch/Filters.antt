-- ===== src/ClaimSearch/Filters.antt =====
-- What the hook adds to a search for streams.
use odysee_api.Base.{
  ℕ, String, ◌≡◌, ◌≢◌, inl, inr, true, false, Option, some, List, [], ◌∷◌, ◌++◌, arith, refl, Dict,
  lookup, lookup-insert, eq_iff, Bool-cases, lookup-insert_ne, ◌∙◌, ◌&&◌, All, if◌then◌else◌, ◌==◌,
}
use Prim.Native.String.{◌++◌ as append_text}
use odysee_api.Base.Decimal.{decimal}
use odysee_api.Errors.{Result, ok, returned}
use odysee_api.Rpc.{Value, texts}
use odysee_api.Query.{Query, params_as_map}
use odysee_api.Query.Gate.{In}
use odysee_api.ClaimSearch.{
  ClaimSearchParams, tag_private, tag_unlisted, slice_contains, without_tag, lists_hidden,
  lists_scheduled, has_source, hide_tags, hide_unreleased, filtered, ordered, round_up,
  release_time_round, preflight_hook_claim_search, with_params, is_empty, no_text,
}

slice_contains_sound : (ts : List String) (t : String) → slice_contains ts (t ∷ []) ≡ true → In t ts
unfolding slice_contains
slice_contains_sound [] t h = cc
slice_contains_sound (u ∷ us) t h = ground (arith, eq_iff u t, slice_contains_sound us t)

In-append_left : (t : String) (ts us : List String) → In t ts → In t (ts ++ us)
In-append_left t [] us h = elim h [ ]
In-append_left t (x ∷ ts) us (inl e) = inl e
In-append_left t (x ∷ ts) us (inr h) = inr (In-append_left t ts us h)

In-append_end : (t : String) (ts : List String) → In t (ts ++ t ∷ [])
In-append_end t [] = inl refl
In-append_end t (x ∷ ts) = inr (In-append_end t ts)

without_tag-In :
    (t : String) (ts : List String)
    → In t (without_tag t ts) × ((u : String) → In u ts → In u (without_tag t ts))
unfolding without_tag
without_tag-In t ts = elim (Bool-cases (slice_contains ts (t ∷ []))) [
  | inl here ↦ rw here (slice_contains_sound ts t here, λ u h. h)
  | inr away ↦ rw away (In-append_end t ts, λ u h. In-append_left u ts (t ∷ []) h)
]

All-In : (ts us : List String) → ((u : String) → In u ts → In u us) → All (λ u. In u us) ts
All-In [] us h = tt
All-In (t ∷ ts) us h = (h t (inl refl), All-In ts us (λ u i. h u (inr i)))

-- The not_tags that a search gets.
abbrev pub hidden_tags : ClaimSearchParams → List String
hidden_tags p = without_tag tag_unlisted (without_tag tag_private p.not_tags)

hidden_tags-In :
    (p : ClaimSearchParams)
    → In tag_private (hidden_tags p)
      × In tag_unlisted (hidden_tags p)
      × ((u : String) → In u p.not_tags → In u (hidden_tags p))
hidden_tags-In p =
    let (one, keep_one) = without_tag-In tag_private p.not_tags in
    let (two, keep_two) = without_tag-In tag_unlisted (without_tag tag_private p.not_tags) in
    (keep_two _ one, two, λ u h. keep_two u (keep_one u h))

-- The release_time that a search gets at a time.
abbrev pub release_filters : ClaimSearchParams → ℕ → List String
release_filters p now =
    p.release_time ++ append_text "<" (decimal (round_up now release_time_round)) ∷ []

lookup-ordered :
    (p : ClaimSearchParams) (m : Dict Value) (k : String)
    → k ≢ "order_by"
    → lookup k (ordered p m) ≡ lookup k m
unfolding ordered
lookup-ordered p m k ne = elim (Bool-cases (is_empty p.order_by && no_text (lookup "text" m))) [
  | inl h ↦ rw h (lookup-insert_ne "order_by" k _ m ne)
  | inr h ↦ rw h refl
]

-- What stands under a key in the parameters of a search that is filtered.
abbrev pub filtered_entry : ClaimSearchParams → ℕ → Dict Value → String → Option Value
filtered_entry p now m k =
    if "release_time" == k
    then some (texts (release_filters p now))
    else if "not_tags" == k
    then some (texts (hidden_tags p))
    else lookup k m

lookup-filtered :
    (p : ClaimSearchParams) (now : ℕ) (m : Dict Value) (k : String)
    → has_source p ≡ true
    → lists_hidden p ≡ false
    → lists_scheduled p ≡ false
    → lookup k (filtered p now m) ≡ filtered_entry p now m k
unfolding filtered hide_tags hide_unreleased
lookup-filtered p now m k s h r = rw (s, h, r) (rw (lookup-insert, lookup-insert) refl)

hook_on_map :
    (decode : Dict Value → Result ClaimSearchParams)
    → (now : ℕ) (q : Query) (m : Dict Value) (p : ClaimSearchParams) → params_as_map q ≡ some m
    → decode m ≡ ok p
    → preflight_hook_claim_search decode now q
      ≡ returned (ok (with_params q (ordered p (filtered p now m))))
unfolding preflight_hook_claim_search
hook_on_map decode now q m p e d = ground arith

-- A search for claims with a source that asks for neither the private and unlisted nor the
-- scheduled ones, with named parameters that decode, is sent on with parameters in which
-- `not_tags` has the two hidden tags beside those that the client excluded, `release_time` has
-- the client's filters and one more that is below the time rounded up, and every other
-- parameter but the order is the client's.
pub searches_are_filtered :
    (decode : Dict Value → Result ClaimSearchParams)
    → (now : ℕ) (q : Query) (m : Dict Value) (p : ClaimSearchParams) (k : String)
    → params_as_map q ≡ some m
    → decode m ≡ ok p
    → has_source p ≡ true
    → lists_hidden p ≡ false
    → lists_scheduled p ≡ false
    → k ≢ "order_by"
    → (after : Dict Value) × (preflight_hook_claim_search decode now q
        ≡ returned (ok (with_params q after)))
      × (lookup k after ≡ filtered_entry p now m k)
      × In tag_private (hidden_tags p)
      × In tag_unlisted (hidden_tags p)
      × All (λ u. In u (hidden_tags p)) p.not_tags
searches_are_filtered decode now q m p k e decoded s h r ne =
    let (private, unlisted, kept) = hidden_tags-In p in
    (
      ordered p (filtered p now m),
      hook_on_map decode now q m p e decoded,
      lookup-ordered p (filtered p now m) k ne ∙ lookup-filtered p now m k s h r,
      private,
      unlisted,
      All-In p.not_tags (hidden_tags p) kept,
    )
