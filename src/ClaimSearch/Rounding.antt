-- ===== src/ClaimSearch/Rounding.antt =====
-- roundUp of app/query/processors.go, with the step that a search for streams uses.
use odysee_api.Base.{ℕ, ◌+◌, ◌*◌, ◌%◌, ◌≤◌, ◌<◌, ◌≡◌, arith}
use odysee_api.ClaimSearch.{round_up, release_time_round}

round_up-bounds :
    (n : ℕ)
    → (n ≤ round_up n release_time_round) × (round_up n release_time_round < n + release_time_round)
unfolding round_up
round_up-bounds n = ground arith

round_up-multiple : (n : ℕ) → round_up n release_time_round % release_time_round ≡ 0
unfolding round_up
round_up-multiple n = ground arith

-- The least multiple not below n, of whatever multiple that is not below n.
round_up-least :
    (n k : ℕ) → n ≤ k * release_time_round → round_up n release_time_round ≤ k * release_time_round
unfolding round_up
round_up-least n k h = ground arith

-- roundUp with the step of 300 seconds gives the least multiple of the step that is not below the
-- number: it is not below it, less than a step above it, the step divides it, and a multiple that
-- is not below the number is not below the result.
pub round_up_lem :
    (n k : ℕ)
    → n ≤ k * release_time_round
    → (n ≤ round_up n release_time_round)
      × (round_up n release_time_round < n + release_time_round)
      × (round_up n release_time_round % release_time_round ≡ 0)
      × (round_up n release_time_round ≤ k * release_time_round)
round_up_lem n k h =
    let (above, near) = round_up-bounds n in
    (above, near, round_up-multiple n, round_up-least n k h)
