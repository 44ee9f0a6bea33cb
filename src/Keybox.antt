-- ===== src/Keybox.antt =====
-- pkg/keybox/keybox.go: the tokens that a keyfob signs and a validator parses. The key and token
-- libraries are a record `Jwt`: keys of types `Sk` and `Pk` and tokens of a type `T`, at a time.
-- Left out are PEM and Base64 texts of keys, and the HTTP delivery of a public key.
use odysee_api.Base.{
  ℕ, ◌<◌, ◌≤◌, String, ◌≡◌, Option, none, some, List, [], ◌∷◌, ℤ, Dict, insert, lookup,
}
use odysee_api.Base.Decimal.{itoa}
use odysee_api.Errors.{Error, plain, wrapped, Result, ok, err}

pub record Jwt (Sk Pk T : Type 0) : Type 0 where
  -- Keyfob's public key
  pub public : Sk → Pk
  -- Builder.Build, on the claims with text values and the expiration
  pub build : Dict String → ℕ → Result T
  -- jwt.Sign with ES256
  pub sign : Sk → T → Result String
  -- jwt.Parse with a key, which validates too: the token, and the error that may stand beside it
  pub parse : Pk → ℕ → String → Option T × Option Error
  -- jwt.Validate
  pub validate : ℕ → T → Option Error
  -- Token.Subject, empty where the token has none
  pub subject : T → String

abbrev pub text_of : Option String → String
text_of none = ""
text_of (some s) = s

-- No claim is one of the times of a token: `exp` would replace the expiration, and a token is not
-- valid before `nbf` and `iat`.
abbrev pub Untimed : Dict String → Type 0
Untimed claims =
    (lookup "exp" claims ≡ none) × (lookup "nbf" claims ≡ none) × (lookup "iat" claims ≡ none)

-- What is documented of the libraries, on claims without a time: a token that was signed is parsed with the public key as the
-- one that was built, until it expires, and from then on it is refused.
pub record IsJwt {Sk Pk T : Type 0} (j : Jwt Sk Pk T) : Type 0 where
  pub parses :
      (sk : Sk) (claims : Dict String) (expiry now : ℕ) (t : T) (s : String)
      → Untimed claims
      → j.build claims expiry ≡ ok t
      → j.sign sk t ≡ ok s
      → now < expiry
      → j.parse (j.public sk) now s ≡ (some t, none)
  pub expires :
      (sk : Sk) (claims : Dict String) (expiry now : ℕ) (t : T) (s : String)
      → Untimed claims
      → j.build claims expiry ≡ ok t
      → j.sign sk t ≡ ok s
      → expiry ≤ now
      → (e : Error) × (j.parse (j.public sk) now s ≡ (none, some e))
  pub validates :
      (claims : Dict String) (expiry now : ℕ) (t : T)
      → Untimed claims
      → j.build claims expiry ≡ ok t
      → now < expiry
      → j.validate now t ≡ none
  pub has_subject :
      (claims : Dict String) (expiry : ℕ) (t : T)
      → j.build claims expiry ≡ ok t
      → j.subject t ≡ text_of (lookup "sub" claims)

-- The loop over the fields, which panics where the last name has no value.
unfoldable pub add_claims : List String → Dict String → Option (Dict String)
add_claims [] claims = some claims
add_claims (name ∷ []) claims = none
add_claims (name ∷ value ∷ fields) claims = add_claims fields (insert name value claims)

abbrev pub first_claims : ℤ → Dict String
first_claims user = ("iss", "api.odysee.com") ∷ ("sub", itoa user) ∷ []

module _ {Sk Pk T : Type 0} (j : Jwt Sk Pk T) where
  abbrev pub signed : Result String → Result String
  signed (ok s) = ok s
  signed (err e) = err (wrapped "unable to sign token: " e)

  abbrev pub built : Sk → Result T → Result String
  built sk (err e) = err (wrapped "unable to build token: " e)
  built sk (ok t) = signed (j.sign sk t)

  abbrev pub with_claims : Sk → ℕ → Option (Dict String) → Option (Result String)
  with_claims sk expiry none = none
  with_claims sk expiry (some claims) = some (built sk (j.build claims expiry))

  -- GenerateToken; `none` is a panic.
  unfoldable pub generate_token : Sk → ℤ → ℕ → List String → Option (Result String)
  unfolding add_claims itoa
  generate_token sk user expiry fields =
      with_claims sk expiry (add_claims fields (first_claims user))

  abbrev pub unparsed : Option Error → Error
  unparsed none = plain "unable to parse token: %!w(<nil>)"
  unparsed (some e) = wrapped "unable to parse token: " e

  -- The token, and the error that may stand beside it
  abbrev pub on_parsed : Option T × Option Error → Option T × Option Error
  on_parsed (none, e) = (none, some (unparsed e))
  on_parsed (some t, e) = (some t, e)

  -- ParseToken
  unfoldable pub parse_token : Pk → ℕ → String → Option T × Option Error
  parse_token pk now token = on_parsed (j.parse pk now token)
