-- ===== src/Base/Decimal/Reading.antt =====
-- strconv.ParseInt to base 10 and 32 bits, and that it reads what strconv.Itoa writes.
use Prim.Native.Char.{code}
use Prim.Native.String.{◌++◌}
use text.Mathlib.TextLemmas.{nil-append, cons-append}
use odysee_api.Base.Tests.{ltb, leb, eqb, if◌then◌else◌, Bool-cases}
use odysee_api.Base.Int.{ℤ, pos, negsuc}
use odysee_api.Base.Decimal.{digit, digits, decimal, itoa, append-decimal_ne}
use Prim.Native.Nat.{ℕ, zero, suc, ◌+◌, ◌-◌, ◌*◌, ◌/◌, ◌%◌, ◌^◌, ◌<◌}
use Prim.Native.String.{String}
use mathlib.Core.Path.{◌≡◌, refl, ap, ◌∙◌}
use mathlib.Core.Logic.{◌≢◌, inl, inr}
use mathlib.Core.Bool.{Bool, false, ◌&&◌}
use native.Mathlib.Omega.{arith}

-- The value, or one of the two errors of package strconv.
pub data Reading {ℓ} (A : Type ℓ) : Type ℓ where
  value : A → Reading A
  err_syntax err_range : Reading A

abbrev is_digit : ℕ → Bool
is_digit c = leb 48 c && leb c 57

-- The loop of ParseUint for 32 bits
scan : ℕ → String → Reading ℕ
scan n String.[] = value n
scan n (String.◌∷◌ c s) =
    let rest = scan (n * 10 + (code c - 48)) s in
    if is_digit (code c)
    then (if ltb (n * 10 + (code c - 48)) (2 ^ 32) then rest else err_range)
    else err_syntax

abbrev parse_uint : String → Reading ℕ
parse_uint String.[] = err_syntax
parse_uint (String.◌∷◌ c s) = scan 0 (String.◌∷◌ c s)

abbrev negated : ℕ → ℤ
negated zero = pos 0
negated (suc n) = negsuc n

abbrev positive : Reading ℕ → Reading ℤ
positive (value n) = if ltb n (2 ^ 31) then value (pos n) else err_range
positive err_syntax = err_syntax
positive err_range = err_range

abbrev negative : Reading ℕ → Reading ℤ
negative (value n) = if leb n (2 ^ 31) then value (negated n) else err_range
negative err_syntax = err_syntax
negative err_range = err_range

-- strconv.ParseInt(s, 10, 32)
unfoldable pub parse_int32 : String → Reading ℤ
unfolding scan
parse_int32 String.[] = err_syntax
parse_int32 (String.◌∷◌ c s) =
    if eqb (code c) 43
    then positive (parse_uint s)
    else if eqb (code c) 45
    then negative (parse_uint s)
    else positive (scan 0 (String.◌∷◌ c s))

largest : parse_int32 "2147483647" ≡ value (pos 2147483647)
unfolding parse_int32
largest = refl

too_large : parse_int32 "2147483648" ≡ err_range
unfolding parse_int32
too_large = refl

smallest : parse_int32 "-2147483648" ≡ value (negsuc 2147483647)
unfolding parse_int32
smallest = refl

scan-append : (s t : String) (n m : ℕ) → scan n s ≡ value m → scan n (s ++ t) ≡ scan m t
unfolding scan
scan-append String.[] t n m h = (let e : n ≡ m = ground arith in rw (e, nil-append t) refl)
scan-append (String.◌∷◌ c s) t n m h = elim (Bool-cases (is_digit (code c))) [
  | inl good ↦ elim (Bool-cases (ltb (n * 10 + (code c - 48)) (2 ^ 32))) [
    | inl low ↦
        rw (cons-append c s t, good, low)
          (scan-append s t (n * 10 + (code c - 48)) m (rw (good, low) at h))
    | inr high ↦ absurd (ground (arith, good, high))
  ]
  | inr bad ↦ absurd (ground (arith, bad))
]

scan-digit : (d n : ℕ) → d < 10 → n * 10 + d < 2 ^ 32 → scan n (digit d) ≡ value (n * 10 + d)
unfolding scan digit
scan-digit zero n h k = ground arith
scan-digit (suc zero) n h k = ground arith
scan-digit (suc (suc zero)) n h k = ground arith
scan-digit (suc (suc (suc zero))) n h k = ground arith
scan-digit (suc (suc (suc (suc zero)))) n h k = ground arith
scan-digit (suc (suc (suc (suc (suc zero))))) n h k = ground arith
scan-digit (suc (suc (suc (suc (suc (suc zero)))))) n h k = ground arith
scan-digit (suc (suc (suc (suc (suc (suc (suc zero))))))) n h k = ground arith
scan-digit (suc (suc (suc (suc (suc (suc (suc (suc zero)))))))) n h k = ground arith
scan-digit (suc (suc (suc (suc (suc (suc (suc (suc (suc d))))))))) n h k =
    (let e : d ≡ 0 = omega arith in rw e (ground arith))

scan-digits : (f n : ℕ) → n < f → n < 2 ^ 32 → scan 0 (digits f n) ≡ value n
unfolding digits
scan-digits zero n h k = absurd (omega arith)
scan-digits (suc f) n h k = elim (Bool-cases (ltb n 10)) [
  | inl small ↦ rw small (scan-digit n 0 (ground arith) (ground arith) ∙ ap value (omega arith))
  | inr large ↦ rw large (
      scan-append (digits f (n / 10)) (digit (n % 10)) 0 (n / 10)
        (scan-digits f (n / 10) (ground arith) (omega arith))
      ∙ scan-digit (n % 10) (n / 10) (omega arith) (omega arith)
      ∙ ap value (omega arith))
]

-- A text that is read as a number without a sign
parse_uint-scan : (s : String) → s ≢ "" → parse_uint s ≡ scan 0 s
parse_uint-scan String.[] ne = absurd (ne refl)
parse_uint-scan (String.◌∷◌ c s) ne = refl

unsigned : (s : String) (n : ℕ) → s ≢ "" → scan 0 s ≡ value n → parse_int32 s ≡ positive (value n)
unfolding parse_int32
unsigned String.[] n ne h = absurd (ne refl)
unsigned (String.◌∷◌ c s) n ne h = elim (Bool-cases (is_digit (code c))) [
  | inl good ↦
      let plus : eqb (code c) 43 ≡ false = ground (arith, good) in
      let minus : eqb (code c) 45 ≡ false = ground (arith, good) in rw (plus, minus, h) refl
  | inr bad ↦ absurd (ground (arith, bad))
]

after_minus : (s : String) → parse_int32 ("-" ++ s) ≡ negative (parse_uint s)
unfolding parse_int32
after_minus s = ap parse_int32 (cons-append "-" "" s ∙ ap (String.◌∷◌ "-") (nil-append s))

scan-decimal : (n : ℕ) → n < 2 ^ 32 → scan 0 (decimal n) ≡ value n
unfolding decimal
scan-decimal n h = scan-digits (suc n) n (omega arith) h

decimal_ne : (n : ℕ) → decimal n ≢ ""
decimal_ne n e = append-decimal_ne "" n (nil-append (decimal n) ∙ e)

abbrev pub IsInt32 : ℤ → Type 0
IsInt32 (pos n) = n < 2 ^ 31
IsInt32 (negsuc n) = n < 2 ^ 31

-- Every 32-bit integer is read back from its text.
pub parse_int32-itoa : (z : ℤ) → IsInt32 z → parse_int32 (itoa z) ≡ value z
unfolding itoa
parse_int32-itoa (pos n) h =
    unsigned (decimal n) n (decimal_ne n) (scan-decimal n (omega arith)) ∙ ground arith
parse_int32-itoa (negsuc n) h =
    after_minus (decimal (suc n))
    ∙ ap negative (
        parse_uint-scan (decimal (suc n)) (decimal_ne (suc n)) ∙ scan-decimal (suc n) (omega arith))
    ∙ ground arith

pub itoa_ne : (z : ℤ) → itoa z ≢ ""
unfolding itoa
itoa_ne (pos n) e = decimal_ne n e
itoa_ne (negsuc n) e = append-decimal_ne "-" (suc n) e
