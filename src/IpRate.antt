-- ===== src/IpRate.antt =====
-- pkg/iprate/iprate.go: one rate limiter for each IP address, dropped when it was not seen for an
-- hour. A limiter of the rate library is a value of a type `L`; a time is in seconds.
pub mod Entries
use odysee_api.Base.{
  ℕ, ◌+◌, List, [], String, Bool, true, false, not, Option, none, some, ltb, Dict, lookup, insert,
  keep, if◌then◌else◌,
}

pub record Entry (L : Type 0) : Type 0 where
  pub limiter : L
  pub last_seen : ℕ

-- The Limiter: its table, and the burst `b`. The rate stands in the function that makes limiters.
pub record Limiter (L : Type 0) : Type 0 where
  pub ips : Dict (Entry L)
  pub b : ℕ

-- NewLimiter
unfoldable pub new_limiter : {L : Type 0} → ℕ → Limiter L
new_limiter b = record { ips = []; b = b }

abbrev pub hour : ℕ
hour = 3600

-- An entry is seen before an hour ago.
abbrev pub expired : {L : Type 0} → ℕ → Entry L → Bool
expired now e = ltb (e.last_seen + hour) now

-- cleanup
unfoldable pub cleanup : {L : Type 0} → ℕ → Limiter L → Limiter L
cleanup now l = record l { ips = keep (λ e. not (expired now e)) l.ips }

module _ {L : Type 0} (new_rate_limiter : ℕ → L) where
  -- The entry that GetLimiter leaves under the address.
  abbrev pub seen : ℕ → ℕ → Option (Entry L) → Entry L
  seen now b none = record { limiter = new_rate_limiter b; last_seen = now }
  seen now b (some e) = record e { last_seen = now }

  -- GetLimiter
  unfoldable pub get_limiter : ℕ → String → Limiter L → L × Limiter L
  get_limiter now ip l =
      let e = seen now l.b (lookup ip l.ips) in (e.limiter, record l { ips = insert ip e l.ips })
