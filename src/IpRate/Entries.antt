-- ===== src/IpRate/Entries.antt =====
-- Which limiter an address gets.
use odysee_api.Base.{
  ℕ, ◌+◌, ◌≤◌, String, ◌≡◌, inl, inr, not, some, arith, refl, lookup, lookup-insert,
  lookup-insert_self, lookup-keep, ◌==◌, eq_iff, Option-cases, Bool-cases, lookup-keep_kept,
}
use odysee_api.IpRate.{Entry, Limiter, hour, expired, cleanup, get_limiter}

module _ {L : Type 0} (new_rate_limiter : ℕ → L) where
  -- The address has the limiter, and was seen at the time or later.
  abbrev Known : String → L → ℕ → Limiter L → Type 0
  Known ip one since l =
      (e : Entry L) × (lookup ip l.ips ≡ some e) × (e.limiter ≡ one) × (since ≤ e.last_seen)

  get_limiter-Known :
      (now : ℕ) (ip : String) (l : Limiter L)
      → let (one, l') = get_limiter new_rate_limiter now ip l in Known ip one now l'
  unfolding get_limiter
  get_limiter-Known now ip l = elim (Option-cases (lookup ip l.ips)) [
    | inl new ↦ (_, lookup-insert_self ip _ l.ips, refl, rw new (omega arith))
    | inr (e, old) ↦ (_, lookup-insert_self ip _ l.ips, refl, rw old (omega arith))
  ]

  -- Another request changes at most when the address was seen.
  get_limiter-keeps :
      (now since : ℕ) (ip other : String) (one : L) (l : Limiter L)
      → since ≤ now
      → Known ip one since l
      → Known ip one since (get_limiter new_rate_limiter now other l).1
  unfolding get_limiter
  get_limiter-keeps now since ip other one l later (e, here, same, fresh) =
      elim (Bool-cases (other == ip)) [
        | inl hit ↦
            let same_ip : other ≡ ip = (eq_iff other ip).0 hit in
            (
              record e { last_seen = now },
              rw (same_ip, here) (lookup-insert_self ip _ l.ips),
              same,
              later,
            )
        | inr miss ↦ (e, rw (lookup-insert, miss) here, same, fresh)
      ]

  cleanup-Known :
      (now since : ℕ) (ip : String) (one : L) (l : Limiter L)
      → now ≤ since + hour
      → Known ip one since l
      → Known ip one since (cleanup now l)
  unfolding cleanup
  cleanup-Known now since ip one l soon (e, here, same, fresh) =
      (e, lookup-keep_kept _ ip l.ips e here (ground arith), same, fresh)

  served-Known :
      (now since : ℕ) (ip : String) (one : L) (l : Limiter L)
      → Known ip one since l
      → (get_limiter new_rate_limiter now ip l).0 ≡ one
  unfolding get_limiter
  served-Known now since ip one l (e, here, same, fresh) = rw here same

  -- An address that is asked for again gets the limiter that it had, whatever address was asked for
  -- in between, if a cleanup ran after that, within an hour of the first request.
  pub get_limiter_again :
      (first between last : ℕ) (ip other : String) (l : Limiter L)
      → first ≤ between
      → between ≤ first + hour
      → let (one, l1) = get_limiter new_rate_limiter first ip l in
        let (two, l2) = get_limiter new_rate_limiter between other l1 in
        (get_limiter new_rate_limiter last ip (cleanup between l2)).0 ≡ one
  get_limiter_again first between last ip other l later soon =
      let (one, l1) = get_limiter new_rate_limiter first ip l in
      let l2 = (get_limiter new_rate_limiter between other l1).1 in
      served-Known last first ip one (cleanup between l2) (
        cleanup-Known between first ip one l2 soon
          (get_limiter-keeps between first ip other one l1 later (get_limiter-Known first ip l)))

-- After a cleanup no entry is left that was not seen for more than an hour.
pub cleanup_lem :
    {L : Type 0} (now : ℕ) (l : Limiter L) (ip : String) (e : Entry L)
    → lookup ip (cleanup now l).ips ≡ some e
    → now ≤ e.last_seen + hour
unfolding cleanup
cleanup_lem now l ip e h = ground (arith, lookup-keep (λ e. not (expired now e)) ip l.ips e)
