-- ===== src/Cache/Invalidation.antt =====
-- The invalidator's runs over the block height.
use odysee_api.Base.{
  ℕ, ◌<◌, String, ◌≡◌, ◌⊎◌, inl, inr, Option, none, some, List, [], ◌∷◌, arith, refl, ap, ltb,
  ltb→lt, Bool-cases, true, false,
}
use odysee_api.Errors.{Error, Result, ok, err}
use odysee_api.Query.{method_claim_search}
use odysee_api.Cache.{run_invalidator, tag_of}

run_invalidator-same :
    (height : ℕ) (answer : Option Error)
    → run_invalidator (ok height) height answer ≡ (none, height, [])
unfolding run_invalidator
run_invalidator-same height answer = ground arith

-- A run that finds the height raised.
raised :
    (height last : ℕ) (answer : Option Error)
    → ltb last height ≡ true
    → ((run_invalidator (ok height) last answer).1 ≡ height)
      × ((run_invalidator (ok height) last answer).2 ≡ tag_of method_claim_search ∷ [])
      × ((answer ≡ none) ⊎ ((e : Error) × ((run_invalidator (ok height) last answer).0 ≡ some e)))
unfolding run_invalidator
raised height last none h = rw h (refl, refl, inl refl)
raised height last (some x) h = rw h (refl, refl, inr (_, refl))

unraised :
    (height last : ℕ) (answer : Option Error)
    → ltb last height ≡ false
    → run_invalidator (ok height) last answer ≡ (none, last, [])
unfolding run_invalidator
unraised height last answer h = rw h refl

abbrev pub Run : ℕ → Option Error → Option Error × ℕ × List String → Type 0
Run last answer (failed, height, tags) =
    ((height ≡ last) × (tags ≡ []))
    ⊎ ((last < height)
        × (tags ≡ tag_of method_claim_search ∷ [])
        × ((answer ≡ none) ⊎ ((e : Error) × (failed ≡ some e))))

run_invalidator-Run :
    (reply : Result ℕ) (last : ℕ) (answer : Option Error)
    → Run last answer (run_invalidator reply last answer)
unfolding run_invalidator
run_invalidator-Run (err e) last answer = inl (refl, refl)
run_invalidator-Run (ok height) last answer = elim (Bool-cases (ltb last height)) [
  | inl up ↦
      let (h, t, f) = raised height last answer up in
      let higher : last < (run_invalidator (ok height) last answer).1 =
        rw h (ltb→lt last height up) in
      inr (higher, t, f)
  | inr same ↦ inl (
    ap (λ r. r.1) (unraised height last answer same),
    ap (λ r. r.2) (unraised height last answer same),
  )
]

-- A run of the invalidator leaves the height and invalidates nothing, or raises it and
-- invalidates the searches, reporting an invalidation that failed; and a run that finds the height
-- of the last one, whether or not that one's invalidation failed, invalidates nothing.
pub run_invalidator_lem :
    (reply : Result ℕ) (last height : ℕ) (answer : Option Error)
    → Run last answer (run_invalidator reply last answer)
      × (run_invalidator (ok height) height answer ≡ (none, height, []))
run_invalidator_lem reply last height answer =
    (run_invalidator-Run reply last answer, run_invalidator-same height answer)
