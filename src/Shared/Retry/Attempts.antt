-- ===== src/Shared/Retry/Attempts.antt =====
-- How often the interceptor calls, and with which outcome it returns.
use twitter_microservices.Prelude.{
  ℕ, zero, suc, ◌+◌, ◌≤◌, ◌<◌, ◌≡◌, ap, ◌∙◌, arith, Bool, true, not, Option, none, some, List, pos,
}
use twitter_microservices.Shared.Retry.{
  Options, apply_defaults, attempts, attempt_count, retryable, unary_client_interceptor,
}

-- Whatever the calls return and whenever the context ends, at most `left` more calls are made.
attempts_le :
    (rc : List ℕ) (ctx_err call cancelled : ℕ → Option ℕ) (left n : ℕ) (last : Option ℕ)
    → (attempts rc ctx_err call cancelled left n last).1 ≤ n + left
unfolding attempts
attempts_le rc ctx_err call cancelled zero n last = omega arith
attempts_le rc ctx_err call cancelled (suc left) n last =
    ground (arith, attempts_le rc ctx_err call cancelled left (n + 1) (call n))

-- The calls from `n` on fail with a retryable code `k` times in a row.
abbrev pub FailsTransiently : List ℕ → (ℕ → Option ℕ) → ℕ → ℕ → Type 0
FailsTransiently rc call n zero = Unit
FailsTransiently rc call n (suc k) =
    ((code : ℕ) × (call n ≡ some code) × (retryable rc code ≡ true))
    × FailsTransiently rc call (n + 1) k

-- The context never ends.
abbrev pub NeverEnds : (ℕ → Option ℕ) → Type 0
NeverEnds ctx = (n : ℕ) → ctx n ≡ none

-- A success, or an error that is not retried.
abbrev pub is_decisive : List ℕ → Option ℕ → Bool
is_decisive rc none = true
is_decisive rc (some code) = not (retryable rc code)

attempts-decisive :
    (rc : List ℕ) (ctx_err call cancelled : ℕ → Option ℕ) (k left n : ℕ) (last : Option ℕ)
    → NeverEnds ctx_err
    → NeverEnds cancelled
    → FailsTransiently rc call n k
    → is_decisive rc (call (n + k)) ≡ true
    → k < left
    → attempts rc ctx_err call cancelled left n last ≡ (call (n + k), n + k + 1)
unfolding attempts
attempts-decisive rc ctx_err call cancelled k zero n last a b f d h = absurd (omega arith)
attempts-decisive rc ctx_err call cancelled zero (suc left) n last a b f d h =
    let here : n + 0 ≡ n = omega arith in rw here (ground (arith, a n, b n, rw here at d))
attempts-decisive rc ctx_err call cancelled (suc k) (suc left) n last a b ((code, e, again), f) d
      h =
    let later : n + suc k ≡ n + 1 + k = omega arith in
    rw later (
      ground (
        arith,
        a n,
        b n,
        e,
        again,
        attempts-decisive rc ctx_err call cancelled k left (n + 1) (call n) a b f (rw later at d)
            (omega arith),
      ))

attempts-exhausted :
    (rc : List ℕ) (ctx_err call cancelled : ℕ → Option ℕ) (left n : ℕ) (last : Option ℕ)
    → NeverEnds ctx_err
    → NeverEnds cancelled
    → FailsTransiently rc call n (suc left)
    → attempts rc ctx_err call cancelled (suc left) n last ≡ (call (n + left), n + left + 1)
unfolding attempts
attempts-exhausted rc ctx_err call cancelled zero n last a b ((code, e, again), f) =
    let here : n + 0 ≡ n = omega arith in rw here (ground (arith, a n, b n, e, again))
attempts-exhausted rc ctx_err call cancelled (suc left) n last a b ((code, e, again), f) =
    let later : n + suc left ≡ n + 1 + left = omega arith in
    rw later (
      ground (
        arith,
        a n,
        b n,
        e,
        again,
        attempts-exhausted rc ctx_err call cancelled left (n + 1) (call n) a b f,
      ))

module _ (opts : Options) (max : ℕ) (ctx_err call cancelled : ℕ → Option ℕ) where
  abbrev pub codes_of : List ℕ
  codes_of = (apply_defaults opts).retry_codes

  -- The interceptor never makes more calls than MaxAttempts, whatever happens.
  pub interceptor_bounded :
      (apply_defaults opts).max_attempts ≡ pos max
      → (unary_client_interceptor opts ctx_err call cancelled).1 ≤ max
  unfolding unary_client_interceptor
  interceptor_bounded m =
      ground
        (arith, attempts_le (apply_defaults opts).retry_codes ctx_err call cancelled max 0 none)

  -- While the context is alive, after `k` calls that fail with a retryable code, the first call
  -- that succeeds or fails with another code ends the loop with its outcome, if `k` is below
  -- MaxAttempts.
  pub interceptor_decisive :
      (k : ℕ)
      → (apply_defaults opts).max_attempts ≡ pos max
      → NeverEnds ctx_err
      → NeverEnds cancelled
      → FailsTransiently codes_of call 0 k
      → is_decisive codes_of (call k) ≡ true
      → k < max
      → unary_client_interceptor opts ctx_err call cancelled ≡ (call k, k + 1)
  unfolding unary_client_interceptor
  interceptor_decisive k m a b f d h =
      let from_zero : 0 + k ≡ k = omega arith in
      ap (λ t. attempts codes_of ctx_err call cancelled (attempt_count t) 0 none) m
      ∙ attempts-decisive codes_of ctx_err call cancelled k max 0 none a b f (rw from_zero d) h
      ∙ ap (λ (t : ℕ). (call t, t + 1)) from_zero

  -- While the context is alive, if every one of the MaxAttempts calls fails with a retryable code,
  -- the interceptor makes exactly that many calls and returns the error of the last one.
  pub interceptor_exhausted :
      (left : ℕ)
      → max ≡ suc left
      → (apply_defaults opts).max_attempts ≡ pos max
      → NeverEnds ctx_err
      → NeverEnds cancelled
      → FailsTransiently codes_of call 0 max
      → unary_client_interceptor opts ctx_err call cancelled ≡ (call left, max)
  unfolding unary_client_interceptor
  interceptor_exhausted left e m a b f =
      let from_zero : 0 + left ≡ left = omega arith in
      let rounds : (apply_defaults opts).max_attempts ≡ pos (suc left) = m ∙ ap pos e in
      ap (λ t. attempts codes_of ctx_err call cancelled (attempt_count t) 0 none) rounds
      ∙ attempts-exhausted codes_of ctx_err call cancelled left 0 none a b (rw e at f)
      ∙ ap (λ (t : ℕ). (call t, t + 1)) from_zero
      ∙ ap (λ (t : ℕ). (call left, t)) (omega arith)
