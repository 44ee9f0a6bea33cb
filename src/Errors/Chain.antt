-- ===== src/Errors/Chain.antt =====
-- Wrapping keeps an error's identity, and prefixing its text.
use Prim.Native.String.{◌++◌}
use text.Mathlib.TextLemmas.{append_assoc, append-eq-nil_iff}
use odysee_api.Base.{String, ◌≡◌, ◌≢◌, false, arith, ◌==◌, Bool-cases, inl, inr, eq_iff}
use odysee_api.Errors.{
  Error, Sentinel, traced, is, message, err_of, prefix, show_prefixed, join_prefix,
}

-- Err changes neither which errors `Is` finds in the chain nor the message.
pub err_of_transparent :
    (e : Error) (s : Sentinel) → (is (err_of e) s ≡ is e s) × (message (err_of e) ≡ message e)
unfolding is message err_of
err_of_transparent e s = ground arith

prefix-is : (p : String) (e : Error) (s : Sentinel) → is (prefix p e) s ≡ is e s
unfolding is prefix
prefix-is p e s = ground arith

colon-ne-nil : (p q : String) → ((p ++ ": " ++ q) == "") ≡ false
colon-ne-nil p q = elim (Bool-cases ((p ++ ": " ++ q) == "")) [
  | inl h ↦ absurd (bare (empty_end ((eq_iff _ "").0 h)))
  | inr h ↦ h
]
  where
    bare : ◌≢◌ {A = String} ": " ""
    bare e = cc

    empty_end : p ++ ": " ++ q ≡ "" → ◌≡◌ {A = String} ": " ""
    empty_end e =
        ((append-eq-nil_iff {p = ": "} {q = q}).0
          ((append-eq-nil_iff {p = p} {q = ": " ++ q}).0 e).1).0

show_prefixed-join :
    (p old m : String)
    → p ≢ ""
    → show_prefixed (join_prefix p old) m ≡ p ++ ": " ++ show_prefixed old m
show_prefixed-join p old m h = elim (Bool-cases (old == "")) [
  | inl o ↦ rw o (ground (arith, eq_iff p ""))
  | inr o ↦ rw (o, colon-ne-nil p old) (simp append_assoc)
]

message-prefix : (p : String) (e : Error) → p ≢ "" → message (prefix p e) ≡ p ++ ": " ++ message e
unfolding message prefix
message-prefix p (traced old e) h = show_prefixed-join p old (message e) h
message-prefix p e h = ground (arith, eq_iff p "")

-- Prefix puts a text that is not empty and a colon before the message, whether or not the error was
-- traced and prefixed before, and does not change which errors `Is` finds.
pub prefix_lem :
    (p : String) (e : Error) (s : Sentinel)
    → p ≢ ""
    → (message (prefix p e) ≡ p ++ ": " ++ message e) × (is (prefix p e) s ≡ is e s)
prefix_lem p e s h = (message-prefix p e h, prefix-is p e s)
