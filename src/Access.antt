-- ===== src/Access.antt =====
-- checkStreamAccess, checkCustomerListPurchase and isUserAMod of app/query/processors.go: who may
-- view a stream. The internal API is the record `Account`; a time is a number of seconds.
pub mod Tags
pub mod Entitlement
use odysee_api.Base.{
  ℕ, String, Bool, true, false, ◌&&◌, ◌||◌, not, Option, none, some, List, [], ◌∷◌, ◌==◌,
  starts_with, ltb, if◌then◌else◌, Dict, lookup, contains,
}
use odysee_api.Errors.{Error, Result, ok, err, err_text, wrapped, traced, Exit, returned, panicked}
use odysee_api.Rpc.{Value, null, flag, number, text, texts, list, object}
use odysee_api.Signature.{SigningChannel}

-- The source of a stream: its hash in hexadecimal and its size.
pub record Source : Type 0 where
  pub sd_hash : String
  pub size : ℕ

-- ljsonrpc.Claim, by the fields that the program reads
pub record Claim : Type 0 where
  pub claim_id : String
  pub name : String
  pub tags : List String
  pub release_time : ℕ
  pub is_my_output : Bool
  pub purchase_receipt : Option String
  pub fee_amount : ℕ
  pub source : Option Source
  pub signing_channel : SigningChannel

pub data AccessType : Type 0 where
  purchase rental member_only unlisted scheduled : AccessType

-- CustomerPurchase, and the items of a customer list
pub record CustomerPurchase : Type 0 where
  pub status : String
  pub kind : String
  pub valid_through : ℕ

-- The user of the context: `auth.GetCurrentUserData` failed, there is no API client, or there is
-- one. What the API answers to it may depend on whether the test environment is asked.
pub data User : Type 0 where
  no_data : Error → User
  no_client : User
  client : User

pub record Account : Type 0 where
  pub user : User
  -- user/me: the success flag, and whether the user is a global moderator
  pub user_me : Bool → Result (Bool × Bool)
  -- customer/list for a claim
  pub customer_list : Bool → String → Result (List CustomerPurchase)
  -- membership_perk/check for a claim and a type of perk
  pub perk_check : Bool → String → String → Result Bool

-- How a stream that may be viewed is served: as it is, or under a signed URL.
pub data Signing : Type 0 where
  unsigned signed_url signed_livestream_url : Signing

-- What a tag restricts a claim to, the cases of the loop in order.
unfoldable pub tag_access : ℕ → Claim → String → Option AccessType
tag_access now c t =
    if (t == "c:scheduled:hide" || t == "c:scheduled:show") && ltb now c.release_time
    then some scheduled
    else if starts_with t "purchase:" || t == "c:purchase"
    then some purchase
    else if starts_with t "rental:" || t == "c:rental"
    then some rental
    else if t == "c:members-only"
    then some member_only
    else if t == "c:unlisted"
    then some unlisted
    else none

-- TagLoop: the first tag that restricts the claim.
unfoldable pub first_access : ℕ → Claim → List String → Option AccessType
first_access now c [] = none
first_access now c (t ∷ ts) =
    let rest = first_access now c ts in elim (tag_access now c t) [ some a ↦ some a | none ↦ rest ]

abbrev pub text_of : Option Value → String
text_of (some (text s)) = s
text_of _ = ""

-- The environment parameter is the test one.
unfoldable pub is_test : Dict Value → Bool
is_test params = text_of (lookup "environment" params) == "test"

abbrev pub is_livestream : Dict Value → Bool
is_livestream params = contains "base_streaming_url" params

abbrev pub signing_for : Dict Value → Signing
signing_for params = if is_livestream params then signed_livestream_url else signed_url

-- isUserAMod
unfoldable pub is_user_a_mod : Account → Bool → Bool
is_user_a_mod a test = elim a.user [
  | no_data e ↦ false
  | no_client ↦ false
  | client ↦ elim (a.user_me test) [ err e ↦ false | ok (success, mod_flag) ↦ success && mod_flag ]
]

-- The first item of the list, if its state is valid.
abbrev pub valid_purchase : List CustomerPurchase → Option CustomerPurchase
valid_purchase [] = none
valid_purchase (p ∷ ps) =
    if not (p.status == "confirmed") && not (p.status == "submitted") then none else some p

-- checkCustomerListPurchase
unfoldable pub check_customer_list_purchase :
    Account → String → Bool → Result (Option CustomerPurchase)
check_customer_list_purchase a claim_id test = elim a.user [
  | no_data e ↦ err e
  | no_client ↦ err (err_text "authentication required")
  | client ↦ elim (a.customer_list test claim_id) [ err e ↦ err e | ok ps ↦ ok (valid_purchase ps) ]
]

-- The case of a purchase or a rental.
unfoldable pub check_purchase : Account → Claim → Bool → Bool → ℕ → Signing → Result Signing
check_purchase a c test rented now signing = elim (check_customer_list_purchase a c.claim_id test) [
  | err e ↦ err e
  | ok none ↦ err (err_text "no access to paid content")
  | ok (some p) ↦
      if rented && not (p.kind == "rental")
      then err (err_text "incorrect purchase type")
      else if rented && ltb p.valid_through now
      then err (err_text "rental expired")
      else ok signing
]

abbrev pub perk_type : Bool → String
perk_type livestream = if livestream then "Exclusive livestreams" else "Exclusive content"

-- The case of content for members.
unfoldable pub check_membership : Account → Claim → Bool → Bool → Signing → Result Signing
check_membership a c test livestream signing = elim a.user [
  | no_data e ↦ err (traced "" (wrapped "no user data in context: " e))
  | no_client ↦ err (err_text "authentication required")
  | client ↦ elim (a.perk_check test c.claim_id (perk_type livestream)) [
    | err e ↦ err e
    | ok has_access ↦
        if has_access then ok signing else err (err_text "no access to members-only content")
  ]
]

-- The case of an unlisted claim, with ValidateSignatureFromClaim on the claim's channel and id. A
-- signature or time that is no text makes the source's type assertion panic.
unfoldable pub check_signature :
    (SigningChannel → String → String → String → Result (Unit {0}))
    → Claim
    → Dict Value
    → Signing
    → Exit Signing
check_signature validate c params signing = elim (lookup "signature" params) [
  | none ↦ returned (err (err_text "missing required signature param"))
  | some signature ↦ elim (lookup "signature_ts" params) [
    | none ↦ returned (err (err_text "missing required signature_ts param"))
    | some signature_ts ↦ elim signature [
      | text s ↦ elim signature_ts [
        | text ts ↦ elim (validate c.signing_channel s ts c.claim_id) [
          | err e ↦ returned (err e)
          | ok u ↦ returned (ok signing)
        ]
        | _ ↦ panicked
      ]
      | _ ↦ panicked
    ]
  ]
]

module _ (validate : SigningChannel → String → String → String → Result (Unit {0})) where
  -- What is asked of a viewer who is neither the owner nor a moderator.
  unfoldable pub check_by_type : Account → Claim → Dict Value → ℕ → AccessType → Exit Signing
  unfolding check_signature check_purchase check_membership
  check_by_type a c params now unlisted = check_signature validate c params (signing_for params)
  check_by_type a c params now scheduled =
      returned (err (err_text "claim release time is in the future, not ready to be viewed yet"))
  check_by_type a c params now purchase =
      returned (check_purchase a c (is_test params) false now (signing_for params))
  check_by_type a c params now rental =
      returned (check_purchase a c (is_test params) true now (signing_for params))
  check_by_type a c params now member_only =
      returned (check_membership a c (is_test params) (is_livestream params) (signing_for params))

  -- checkStreamAccess: `ok` is access, with the error that asks for a signed URL as a `Signing`;
  -- `err` is no access.
  unfoldable pub check_stream_access : Account → Claim → Dict Value → ℕ → Exit Signing
  check_stream_access a c params now = elim (first_access now c c.tags) [
    | none ↦ returned (ok unsigned)
    | some access ↦
        if c.is_my_output || is_user_a_mod a (is_test params)
        then returned (ok (signing_for params))
        else check_by_type a c params now access
  ]
