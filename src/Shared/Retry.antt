-- ===== src/Shared/Retry.antt =====
-- Retries: apps/shared/grpcretry/grpcretry.go, and flushWithRetry of apps/shared/outbox/runner.go.
-- Durations are nanoseconds in an int64.
pub mod Jitter
pub mod Attempts
use twitter_microservices.Prelude.{
  ℕ, zero, suc, ◌+◌, ◌-◌, ◌*◌, ◌/◌, ◌%◌, ◌^◌, Bool, true, false, ◌||◌, Option, none, some, List, [],
  ◌∷◌, if◌then◌else◌, ltb, leb, ◌==◌, ℤ, pos, negsuc,
}
use twitter_microservices.Shared.Errors.{Error}

-- codes.Code, as the numbers of google.golang.org/grpc/codes.
abbrev pub deadline_exceeded : ℕ
deadline_exceeded = 4

abbrev pub unavailable : ℕ
unavailable = 14

pub record Options : Type 0 where
  pub max_attempts : ℤ
  pub base_delay : ℤ
  pub max_delay : ℤ
  pub retry_codes : List ℕ

-- A positive value, or the default.
abbrev or_default : ℤ → ℕ → ℤ
or_default (pos zero) d = pos d
or_default (pos (suc n)) d = pos (suc n)
or_default (negsuc n) d = pos d

abbrev codes_or_default : List ℕ → List ℕ
codes_or_default [] = unavailable ∷ deadline_exceeded ∷ []
codes_or_default (c ∷ cs) = c ∷ cs

-- applyDefaults
unfoldable pub apply_defaults : Options → Options
apply_defaults o = record {
  max_attempts = or_default o.max_attempts 3;
  base_delay = or_default o.base_delay 50000000;
  max_delay = or_default o.max_delay 500000000;
  retry_codes = codes_or_default o.retry_codes;
}

-- A 64-bit pattern read as an int64.
abbrev pub to_int64 : ℕ → ℤ
to_int64 n = if ltb n (2 ^ 63) then pos n else negsuc (2 ^ 64 - 1 - n)

-- `base << attempt` on an int64 with base ≥ 0.
abbrev pub shift_left : ℕ → ℕ → ℤ
shift_left base attempt = to_int64 (base * 2 ^ attempt % 2 ^ 64)

-- `cap > max || cap <= 0`
abbrev capped : ℤ → ℕ → ℕ
capped (negsuc n) max = max
capped (pos n) max = if ltb max n || n == 0 then max else n

-- The bound below which jitter draws; the draw itself is rand.Int64N.
unfoldable pub jitter_cap : ℕ → ℕ → ℕ → ℕ
jitter_cap base max attempt = capped (shift_left base attempt) max

unfoldable pub jitter : (ℕ → ℕ) → ℕ → ℕ → ℕ → ℕ
unfolding jitter_cap
jitter int64_n base max attempt = int64_n (jitter_cap base max attempt)

abbrev pub retryable : List ℕ → ℕ → Bool
retryable [] code = false
retryable (c ∷ cs) code = c == code || retryable cs code

-- An outcome of a call: `none` is success, otherwise the status code of the error.
-- The interceptor's loop. `ctx_err attempt` is the code of ctx.Err() before that attempt, `call attempt`
-- the outcome of the invoker, `cancelled attempt` whether the context ends during the wait behind it.
-- The result is the returned error and the number of calls that were made.
attempts :
    List ℕ → (ℕ → Option ℕ) → (ℕ → Option ℕ) → (ℕ → Option ℕ) → ℕ → ℕ → Option ℕ → Option ℕ × ℕ
attempts retry_codes ctx_err call cancelled zero attempt last_err = (last_err, attempt)
attempts retry_codes ctx_err call cancelled (suc left) attempt last_err =
    let again = attempts retry_codes ctx_err call cancelled left (attempt + 1) (call attempt) in
    elim (ctx_err attempt) [
      | some e ↦ (some e, attempt)
      | none ↦ elim (call attempt) [
        | none ↦ (none, attempt + 1)
        | some code ↦
            if retryable retry_codes code
            then (if left == 0
                then (some code, attempt + 1)
                else elim (cancelled attempt) [ some e ↦ (some e, attempt + 1) | none ↦ again ])
            else (some code, attempt + 1)
      ]
    ]

abbrev attempt_count : ℤ → ℕ
attempt_count (pos n) = n
attempt_count (negsuc n) = 0

-- UnaryClientInterceptor
unfoldable pub unary_client_interceptor :
    Options → (ℕ → Option ℕ) → (ℕ → Option ℕ) → (ℕ → Option ℕ) → Option ℕ × ℕ
unfolding attempts apply_defaults
unary_client_interceptor opts ctx_err call cancelled =
    let o = apply_defaults opts in
    attempts o.retry_codes ctx_err call cancelled (attempt_count o.max_attempts) 0 none
