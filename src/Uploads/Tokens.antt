-- ===== src/Uploads/Tokens.antt =====
-- Whom a token lets in.
use odysee_api.Base.{
  ℕ, ◌<◌, ◌≤◌, String, ◌≡◌, ◌≢◌, refl, sym, ap, ◌∙◌, true, Option, none, some, List, [], ◌∷◌, arith,
  ◌⊎◌, inl, inr, ℤ, pos, Dict, lookup, insert, lookup-insert_ne, eq_iff,
}
use odysee_api.Base.Decimal.{itoa}
use odysee_api.Base.Decimal.Reading.{IsInt32, parse_int32-itoa, itoa_ne}
use odysee_api.Errors.{Error, ok, err, message, Result-cases}
use odysee_api.Keybox.{
  Jwt, IsJwt, Untimed, add_claims, first_claims, with_claims, text_of, generate_token, parse_token,
  unparsed,
}
use odysee_api.Uploads.{Upload, verify_upload_file_access}
use odysee_api.Uploads.Owners.{Mem, verify_upload_file_access_lem}
use odysee_api.Uploads.Admission.{
  answered, passed, extract_upload_id_from_path, extract_user_id_from_request, auth_by_token, admit,
}

-- The names of the fields, at every other place, are not this one.
abbrev pub Avoids : String → List String → Type 0
Avoids k [] = Unit {0}
Avoids k (name ∷ []) = Unit {0}
Avoids k (name ∷ v ∷ fields) = (name ≢ k) × Avoids k fields

-- No field is the subject of the token or one of its times.
abbrev pub NoReserved : List String → Type 0
NoReserved fields =
    Avoids "sub" fields × Avoids "exp" fields × Avoids "nbf" fields × Avoids "iat" fields

lookup-add_claims :
    (k : String) (fields : List String) (claims more : Dict String)
    → Avoids k fields
    → add_claims fields claims ≡ some more
    → lookup k more ≡ lookup k claims
unfolding add_claims
lookup-add_claims k [] claims more n h = ground arith
lookup-add_claims k (name ∷ []) claims more n h = cc
lookup-add_claims k (name ∷ v ∷ fields) claims more (ne, n) h =
    lookup-add_claims k fields (insert name v claims) more n h
    ∙ lookup-insert_ne name k v claims (λ e. ne (sym e))

first_subject : (user : ℤ) → text_of (lookup "sub" (first_claims user)) ≡ itoa user
unfolding lookup
first_subject user = refl

first_claims-Untimed : (user : ℤ) → Untimed (first_claims user)
unfolding lookup
first_claims-Untimed user = (refl, refl, refl)

add_claims-Untimed :
    (user : ℤ) (fields : List String) (claims : Dict String)
    → NoReserved fields
    → add_claims fields (first_claims user) ≡ some claims
    → Untimed claims
add_claims-Untimed user fields claims (s, e, n, i) h =
    let (fe, fn, fi) = first_claims-Untimed user in
    (
      lookup-add_claims "exp" fields (first_claims user) claims e h ∙ fe,
      lookup-add_claims "nbf" fields (first_claims user) claims n h ∙ fn,
      lookup-add_claims "iat" fields (first_claims user) claims i h ∙ fi,
    )

module _ {Sk Pk T : Type 0} (j : Jwt Sk Pk T) (laws : IsJwt j) (sk : Sk) where
  -- What a token was made of
  generated :
      (user : ℤ) (expiry : ℕ) (fields : List String) (s : String)
      → NoReserved fields
      → generate_token j sk user expiry fields ≡ some (ok s)
      → (claims : Dict String) × (t : T) × Untimed claims
        × (j.build claims expiry ≡ ok t)
        × (j.sign sk t ≡ ok s)
        × (j.subject t ≡ itoa user)
  unfolding generate_token
  generated user expiry fields s n h = on_claims (add_claims fields (first_claims user)) refl h
    where
      on_claims :
          (o : Option (Dict String))
          → add_claims fields (first_claims user) ≡ o
          → with_claims j sk expiry o ≡ some (ok s)
          → (claims : Dict String) × (t : T) × Untimed claims
            × (j.build claims expiry ≡ ok t)
            × (j.sign sk t ≡ ok s)
            × (j.subject t ≡ itoa user)
      on_claims none a k = cc
      on_claims (some claims) a k = elim (Result-cases (j.build claims expiry)) [
        | inl (t, made) ↦ elim (Result-cases (j.sign sk t)) [
          | inl (x, wrote) ↦ (
            claims,
            t,
            add_claims-Untimed user fields claims n a,
            made,
            ground (arith, made, wrote),
            laws.has_subject claims expiry t made
                ∙ ap text_of (lookup-add_claims "sub" fields (first_claims user) claims n.0 a)
                ∙ first_subject user,
          )
          | inr (e, failed) ↦ absurd (ground (arith, made, failed))
        ]
        | inr (e, failed) ↦ absurd (ground (arith, failed))
      ]

  module _ (quote : String → String) (user : ℤ) (expiry : ℕ) (fields : List String) (s : String)
      (n : NoReserved fields) (made : generate_token j sk user expiry fields ≡ some (ok s)) where
    -- The text of a token that a keyfob makes for a user is read back as that user, until it
    -- expires; if no field of the token is its subject or one of its times (`exp`, `nbf`, `iat`),
    -- and the text is not empty.
    pub extract_user_id-generate_token :
        (now : ℕ)
        → IsInt32 user
        → now < expiry
        → s ≢ ""
        → extract_user_id_from_request j quote (j.public sk) now s ≡ ok user
    unfolding extract_user_id_from_request parse_token
    extract_user_id-generate_token now fits early ne =
        let (claims, t, untimed, b, w, same) = generated user expiry fields s n made in
        let parsed = laws.parses sk claims expiry now t s untimed b w early in
        let valid = laws.validates claims expiry now t untimed b early in
        ground (
          arith,
          parsed,
          valid,
          same,
          parse_int32-itoa user fits,
          itoa_ne user,
          eq_iff s "",
          eq_iff (itoa user) "",
        )

    pub late_user :
        (now : ℕ)
        → expiry ≤ now
        → s ≢ ""
        → (e : Error) × (extract_user_id_from_request j quote (j.public sk) now s ≡ err e)
    unfolding extract_user_id_from_request parse_token
    late_user now late ns =
        let (claims, t, untimed, b, w, same) = generated user expiry fields s n made in
        let (e, refused) = laws.expires sk claims expiry now t s untimed b w late in
        (unparsed j (some e), ground (arith, refused, eq_iff s ""))

    -- From then on it lets nobody in: a request with it is answered with 401, if it is not one for
    -- the options.
    pub expired_refused :
        (now : ℕ) (method path : String) (us : List Upload)
        → expiry ≤ now
        → method ≢ "OPTIONS"
        → s ≢ ""
        → (m : String) × (admit j quote (j.public sk) now method s path us ≡ answered 401 m)
    unfolding admit auth_by_token
    expired_refused now method path us late ne ns =
        let (e, refused) = late_user now late ns in
        (message e, ground (arith, refused, eq_iff method "OPTIONS"))

    -- A request with the token that goes on does so as the user of the token, who has an id, and its
    -- path names no upload or the id of an upload of that user.
    pub admit-owner :
        (now : ℕ) (method path : String) (us : List Upload) (who : ℤ)
        → IsInt32 user
        → now < expiry
        → s ≢ ""
        → admit j quote (j.public sk) now method s path us ≡ passed (some who)
        → (who ≡ user)
          × (user ≢ pos 0)
          × ((extract_upload_id_from_path path ≡ "")
              ⊎ ((u : Upload) × Mem u us
                  × (u.user_id ≡ user)
                  × (u.id ≡ extract_upload_id_from_path path)))
    unfolding admit auth_by_token
    admit-owner now method path us who fits early ne h =
        let read = extract_user_id-generate_token now fits early ne in
        let both : (who ≡ user)
            × (verify_upload_file_access user (extract_upload_id_from_path path) us ≡ true) =
          ground (arith, read) in
        let (has_user, own) =
          verify_upload_file_access_lem user (extract_upload_id_from_path path) us both.1 in
        (both.0, has_user, own)
