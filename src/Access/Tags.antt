-- ===== src/Access/Tags.antt =====
-- Which tag decides.
use odysee_api.Base.{ℕ, String, ◌≡◌, none, some, List, [], ◌∷◌, ◌++◌, All, arith, refl}
use odysee_api.Access.{Claim, AccessType, tag_access, first_access}

-- The first tag that restricts the claim decides, wherever it stands and whatever follows it: tags
-- that do not restrict it give no result, and with one after them the result is that tag's.
pub first_access_lem :
    (now : ℕ) (c : Claim) (before after : List String) (t : String) (a : AccessType)
    → All (λ u. tag_access now c u ≡ none) before
    → tag_access now c t ≡ some a
    → (first_access now c before ≡ none) × (first_access now c (before ++ t ∷ after) ≡ some a)
unfolding first_access
first_access_lem now c [] after t a h e = (refl, ground arith)
first_access_lem now c (u ∷ us) after t a (free, h) e =
    let (none_before, decides) = first_access_lem now c us after t a h e in
    (ground arith, ground (arith, decides))
