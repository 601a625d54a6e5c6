-- ===== src/Shared/Retry/Jitter.antt =====
-- Bounds on the waits.
use twitter_microservices.Prelude.{ℕ, ◌≤◌, ◌<◌, arith}
use twitter_microservices.Shared.Retry.{jitter_cap}

-- For a positive maximum, the bound handed to the random source is positive and at most the
-- maximum, at every attempt, also where the shift overflows an int64.
pub jitter_cap_bounds :
    (base max attempt : ℕ)
    → 0 < max
    → (0 < jitter_cap base max attempt) × (jitter_cap base max attempt ≤ max)
unfolding jitter_cap
jitter_cap_bounds base max attempt h = ground arith
