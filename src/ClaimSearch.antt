-- ===== src/ClaimSearch.antt =====
-- preflightHookClaimSearch of app/query/processors.go: the filters and the order that a client's
-- claim_search gets. The decoder of parameters is a library; times are seconds since 1970.
pub mod Filters
pub mod Rounding
use Prim.Native.String.{◌++◌ as append_text}
use odysee_api.Base.{
  ℕ, ◌+◌, ◌-◌, ◌%◌, String, Bool, true, false, not, ◌||◌, ◌&&◌, Option, none, some, List, [], ◌∷◌,
  ◌++◌, ◌==◌, eqb, if◌then◌else◌, Dict, lookup, insert,
}
use odysee_api.Base.Decimal.{decimal}
use odysee_api.Errors.{Error, Result, ok, err, wrapped, Exit, returned, panicked}
use odysee_api.Rpc.{Value, text, texts, Params, named}
use odysee_api.Query.{Query, params_as_map, entries}

-- ClaimSearchParams, by the fields that the hook reads
pub record ClaimSearchParams : Type 0 where
  pub order_by : List String
  pub has_source : Option Bool
  pub release_time : List String
  pub any_tags : List String
  pub not_tags : List String

abbrev pub tag_private : String
tag_private = "c:private"

abbrev pub tag_unlisted : String
tag_unlisted = "c:unlisted"

abbrev pub tag_scheduled_show : String
tag_scheduled_show = "c:scheduled:show"

abbrev pub tag_scheduled_hide : String
tag_scheduled_hide = "c:scheduled:hide"

abbrev is_any_of : String → List String → Bool
is_any_of t [] = false
is_any_of t (i ∷ is) = t == i || is_any_of t is

-- sliceContains
unfoldable pub slice_contains : List String → List String → Bool
slice_contains [] items = false
slice_contains (t ∷ ts) items = is_any_of t items || slice_contains ts items

-- roundUp of numbers that are not negative
unfoldable pub round_up : ℕ → ℕ → ℕ
round_up n s = if eqb (n % s) 0 then n else n + s - n % s

abbrev pub release_time_round : ℕ
release_time_round = 300

-- One of the two tests that add a tag to `not_tags`.
unfoldable pub without_tag : String → List String → List String
unfolding slice_contains
without_tag tag ts = if slice_contains ts (tag ∷ []) then ts else ts ++ tag ∷ []

abbrev pub lists_hidden : ClaimSearchParams → Bool
lists_hidden p = slice_contains p.any_tags (tag_private ∷ tag_unlisted ∷ [])

abbrev pub lists_scheduled : ClaimSearchParams → Bool
lists_scheduled p = slice_contains p.any_tags (tag_scheduled_show ∷ tag_scheduled_hide ∷ [])

unfoldable pub hide_tags : ClaimSearchParams → Dict Value → Dict Value
hide_tags p m =
    if lists_hidden p
    then m
    else insert "not_tags" (texts (without_tag tag_unlisted (without_tag tag_private p.not_tags))) m

unfoldable pub hide_unreleased : ClaimSearchParams → ℕ → Dict Value → Dict Value
hide_unreleased p now m =
    if lists_scheduled p
    then m
    else insert "release_time"
        (texts (p.release_time ++ append_text "<" (decimal (round_up now release_time_round)) ∷ []))
        m

abbrev pub has_source : ClaimSearchParams → Bool
has_source p = elim p.has_source [ none ↦ false | some b ↦ b ]

-- The first `if` of the hook, on a map that is there.
unfoldable pub filtered : ClaimSearchParams → ℕ → Dict Value → Dict Value
unfolding hide_tags hide_unreleased
filtered p now m = if has_source p then hide_unreleased p now (hide_tags p m) else m

abbrev pub is_empty : List String → Bool
is_empty [] = true
is_empty (t ∷ ts) = false

abbrev pub no_text : Option Value → Bool
no_text (some (text s)) = s == ""
no_text _ = true

-- The second: an order, unless the client gave one or searches for a text.
unfoldable pub ordered : ClaimSearchParams → Dict Value → Dict Value
ordered p m =
    if is_empty p.order_by && no_text (lookup "text" m)
    then insert "order_by" (texts ("trending_score" ∷ "release_time" ∷ [])) m
    else m

abbrev pub with_params : Query → Dict Value → Query
with_params q m = record q { request = record q.request { params = named m } }

-- Without parameters the source writes an order into a new map, and panics if it must write a
-- filter into the nil one.
abbrev pub without_params : Query → ClaimSearchParams → Exit Query
without_params q p =
    if has_source p && (not (lists_hidden p) || not (lists_scheduled p))
    then panicked
    else if is_empty p.order_by
    then returned (ok (with_params q (ordered p [])))
    else returned (ok q)

abbrev on_params : Query → ℕ → ClaimSearchParams → Option (Dict Value) → Exit Query
on_params q now p none = without_params q p
on_params q now p (some m) = returned (ok (with_params q (ordered p (filtered p now m))))

-- The hook; it gives no response, and what it returns here is the query that it leaves.
unfoldable pub preflight_hook_claim_search :
    (Dict Value → Result ClaimSearchParams) → ℕ → Query → Exit Query
unfolding filtered ordered
preflight_hook_claim_search decode now q = elim (decode (entries (params_as_map q))) [
  | err e ↦ returned (err (wrapped "cannot decode query params: " e))
  | ok p ↦ on_params q now p (params_as_map q)
]
