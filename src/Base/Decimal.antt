-- ===== src/Base/Decimal.antt =====
-- The decimal text of a number, as fmt writes it under `%d`, and that it determines the number.
pub mod Reading
use Prim.Native.String.{◌++◌, count}
use text.Mathlib.TextLemmas.{length-append, append_inj}
use odysee_api.Base.Int.{ℤ, pos, negsuc}
use odysee_api.Base.Tests.{ltb, if◌then◌else◌, Bool-cases}
use Prim.Native.Nat.{ℕ, zero, suc, ◌/◌, ◌%◌, ◌≤◌, ◌<◌}
use Prim.Native.String.{String}
use mathlib.Core.Path.{◌≡◌, refl, sym, ap, ◌∙◌}
use mathlib.Core.Logic.{◌≢◌, inl, inr}
use native.Mathlib.Omega.{arith}
use text.Mathlib.Text.{◌==◌}

digit : ℕ → String
digit zero = "0"
digit (suc zero) = "1"
digit (suc (suc zero)) = "2"
digit (suc (suc (suc zero))) = "3"
digit (suc (suc (suc (suc zero)))) = "4"
digit (suc (suc (suc (suc (suc zero))))) = "5"
digit (suc (suc (suc (suc (suc (suc zero)))))) = "6"
digit (suc (suc (suc (suc (suc (suc (suc zero))))))) = "7"
digit (suc (suc (suc (suc (suc (suc (suc (suc zero)))))))) = "8"
digit (suc (suc (suc (suc (suc (suc (suc (suc (suc n))))))))) = "9"

digit_value : String → ℕ
digit_value s =
    if s == "0"
    then 0
    else if s == "1"
    then 1
    else if s == "2"
    then 2
    else if s == "3"
    then 3
    else if s == "4"
    then 4
    else if s == "5"
    then 5
    else if s == "6"
    then 6
    else if s == "7"
    then 7
    else if s == "8"
    then 8
    else 9

count-digit : (n : ℕ) → count (digit n) ≡ 1
unfolding digit
count-digit zero = refl
count-digit (suc zero) = refl
count-digit (suc (suc zero)) = refl
count-digit (suc (suc (suc zero))) = refl
count-digit (suc (suc (suc (suc zero)))) = refl
count-digit (suc (suc (suc (suc (suc zero))))) = refl
count-digit (suc (suc (suc (suc (suc (suc zero)))))) = refl
count-digit (suc (suc (suc (suc (suc (suc (suc zero))))))) = refl
count-digit (suc (suc (suc (suc (suc (suc (suc (suc zero)))))))) = refl
count-digit (suc (suc (suc (suc (suc (suc (suc (suc (suc n))))))))) = refl

digit_value-digit : (n : ℕ) → n < 10 → digit_value (digit n) ≡ n
unfolding digit digit_value
digit_value-digit zero h = refl
digit_value-digit (suc zero) h = refl
digit_value-digit (suc (suc zero)) h = refl
digit_value-digit (suc (suc (suc zero))) h = refl
digit_value-digit (suc (suc (suc (suc zero)))) h = refl
digit_value-digit (suc (suc (suc (suc (suc zero))))) h = refl
digit_value-digit (suc (suc (suc (suc (suc (suc zero)))))) h = refl
digit_value-digit (suc (suc (suc (suc (suc (suc (suc zero))))))) h = refl
digit_value-digit (suc (suc (suc (suc (suc (suc (suc (suc zero)))))))) h = refl
digit_value-digit (suc (suc (suc (suc (suc (suc (suc (suc (suc n))))))))) h = omega arith

digits : ℕ → ℕ → String
digits zero n = ""
digits (suc f) n =
    let rest = digits f (n / 10) in if ltb n 10 then digit n else rest ++ digit (n % 10)

-- A number is above its tenth, so its own size is fuel enough.
unfoldable pub decimal : ℕ → String
unfolding digits digit
decimal n = digits (suc n) n

-- strconv.Itoa
unfoldable pub itoa : ℤ → String
unfolding decimal
itoa (pos n) = decimal n
itoa (negsuc n) = "-" ++ decimal (suc n)

decimal_max : decimal 2147483647 ≡ "2147483647"
unfolding decimal
decimal_max = refl

digit_inj : (n m : ℕ) → n < 10 → m < 10 → digit n ≡ digit m → n ≡ m
digit_inj n m p q e = sym (digit_value-digit n p) ∙ ap digit_value e ∙ digit_value-digit m q

count-digits : (f n : ℕ) → n < f → 1 ≤ count (digits f n)
unfolding digits
count-digits zero n h = absurd (omega arith)
count-digits (suc f) n h = elim (Bool-cases (ltb n 10)) [
  | inl small ↦ rw (small, count-digit n) (omega arith)
  | inr large ↦
      rw (large, length-append (digits f (n / 10)) (digit (n % 10)), count-digit (n % 10))
        (omega arith)
]

digits_inj : (f g n m : ℕ) → n < f → m < g → digits f n ≡ digits g m → n ≡ m
unfolding digits
digits_inj zero g n m p q e = absurd (omega arith)
digits_inj (suc f) zero n m p q e = absurd (omega arith)
digits_inj (suc f) (suc g) n m p q e = elim (Bool-cases (ltb n 10)) [
  | inl small ↦ elim (Bool-cases (ltb m 10)) [
    | inl small' ↦ digit_inj n m (ground arith) (ground arith) (rw (small, small') at e)
    | inr large' ↦ absurd (longer g m n (ground arith) (sym (rw (small, large') at e)))
  ]
  | inr large ↦ elim (Bool-cases (ltb m 10)) [
    | inl small' ↦ absurd (longer f n m (ground arith) (rw (large, small') at e))
    | inr large' ↦
        let e' : digits f (n / 10) ++ digit (n % 10) ≡ digits g (m / 10) ++ digit (m % 10) =
          rw (large, large') at e in
        let parts = append_inj e' (counts f g n m e') in
        joined n m (digits_inj f g (n / 10) (m / 10) (ground arith) (ground arith) parts.0)
          (digit_inj (n % 10) (m % 10) (omega arith) (omega arith) parts.1)
  ]
]
  where
    counts :
        (f g n m : ℕ)
        → digits f (n / 10) ++ digit (n % 10) ≡ digits g (m / 10) ++ digit (m % 10)
        → count (digits f (n / 10)) ≡ count (digits g (m / 10))
    counts f g n m e = omega (
      arith,
      ap count e,
      length-append (digits f (n / 10)) (digit (n % 10)),
      length-append (digits g (m / 10)) (digit (m % 10)),
      count-digit (n % 10),
      count-digit (m % 10),
    )

    longer : (f n m : ℕ) → n / 10 < f → digits f (n / 10) ++ digit (n % 10) ≡ digit m → ⊥
    longer f n m h e = omega (
      arith,
      ap count e,
      length-append (digits f (n / 10)) (digit (n % 10)),
      count-digit (n % 10),
      count-digit m,
      count-digits f (n / 10) h,
    )

    joined : (n m : ℕ) → n / 10 ≡ m / 10 → n % 10 ≡ m % 10 → n ≡ m
    joined n m h k = omega arith

pub decimal_inj : (n m : ℕ) → decimal n ≡ decimal m → n ≡ m
unfolding decimal
decimal_inj n m e = digits_inj (suc n) (suc m) n m (omega arith) (omega arith) e

pub append-decimal_ne : (s : String) (n : ℕ) → s ++ decimal n ≢ ""
unfolding decimal
append-decimal_ne s n e =
    let c : count (s ++ decimal n) ≡ 0 = rw e refl in
    omega (arith, length-append s (decimal n), count-digits (suc n) n (omega arith), c)
