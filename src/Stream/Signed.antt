-- ===== src/Stream/Signed.antt =====
-- What stands in a signed URL.

use Prim.Native.Char.{Char, code}
use odysee_api.Base.{ℕ, String, ◌≢◌, inl, inr, arith, eqb, Bool-cases}
use odysee_api.Stream.{url_safe, safe_char}

-- No character of the text has the code.
abbrev pub Without : ℕ → String → Type 0
Without n String.[] = Unit {0}
Without n (String.◌∷◌ c s) = (code c ≢ n) × Without n s

safe_char-ne : (c : Char) → (code (safe_char c) ≢ 43) × (code (safe_char c) ≢ 47)
unfolding safe_char
safe_char-ne c = elim (Bool-cases (eqb (code c) 43)) [
  | inl plus ↦ rw plus (λ e. omega arith, λ e. omega arith)
  | inr other ↦ elim (Bool-cases (eqb (code c) 47)) [
    | inl slash ↦ rw (other, slash) (λ e. omega arith, λ e. omega arith)
    | inr kept ↦ rw (other, kept) (λ e. ground arith, λ e. ground arith)
  ]
]

-- The text that the replacer makes of a hash has neither a plus nor a slash.
pub url_safe_lem : (s : String) → Without 43 (url_safe s) × Without 47 (url_safe s)
unfolding url_safe
url_safe_lem String.[] = (tt, tt)
url_safe_lem (String.◌∷◌ c s) =
    let (plus, slash) = safe_char-ne c in
    let (pluses, slashes) = url_safe_lem s in ((plus, pluses), (slash, slashes))
