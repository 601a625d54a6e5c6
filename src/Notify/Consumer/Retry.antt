-- ===== src/Notify/Consumer/Retry.antt =====
-- What the retries and the rounds of the consumer guarantee.
use twitter_microservices.Prelude.{
  ℕ, zero, suc, ◌+◌, ◌<◌, ◌≡◌, inl, inr, refl, sym, ap, subst, ◌∙◌, Bool, true, false, Option, none,
  some, List, [], ◌∷◌, Bytes, ◌=?◌, ◌==◌, arith, Bool-cases, ℤ,
}
use twitter_microservices.Shared.Errors.{Error, Result, ok, err}
use twitter_microservices.Shared.Events.{UserFollowedEvent, Unmarshal}
use twitter_microservices.Shared.Ints.{is_positive}
use twitter_microservices.Shared.Kafka.{Message, extract_event_id, topic_user_followed}
use twitter_microservices.Shared.Tx.{Tx, IsAtomic}
use twitter_microservices.Notify.Store.{Notification, Tables}
use twitter_microservices.Notify.Service.{Env, create, create_from_follow}
use twitter_microservices.Notify.Service.Once.{Once, not_yet, create-Once}
use twitter_microservices.Notify.Consumer.{
  dispatch, dispatch_max_attempts, is_unmarshal, retry, attempts, dispatch_with_retry, is_duplicate,
  committed, settled, round,
}

module _ (P : Tables → Type 0) where
  wait_keeps :
      (left : ℕ) (e : Error) (c : Option Error) (t : Tables)
      (again : Result (Option Notification) × Tables)
      → P t
      → P again.1
      → P (retry left e c t again).1
  wait_keeps left e (some x) t again q later = elim (Bool-cases (is_unmarshal e)) [
    | inl bad ↦ rw bad q
    | inr transient ↦ elim (Bool-cases (left == 0)) [
      | inl last ↦ rw (transient, last) q
      | inr more ↦ rw (transient, more) q
    ]
  ]
  wait_keeps left e none t again q later = elim (Bool-cases (is_unmarshal e)) [
    | inl bad ↦ rw bad q
    | inr transient ↦ elim (Bool-cases (left == 0)) [
      | inl last ↦ rw (transient, last) q
      | inr more ↦ rw (transient, more) later
    ]
  ]

  -- What every attempt keeps, the retries keep.
  attempts_keep :
      (act : ℕ → Tx Tables (Option Notification)) (cancelled : ℕ → Option Error) (left n : ℕ)
      (s : Tables)
      → ((k : ℕ) (t : Tables) → P t → P (act k t).1)
      → P s
      → P (attempts act cancelled left n s).1
  unfolding attempts
  attempts_keep act cancelled zero n s keep p = p
  attempts_keep act cancelled (suc left) n s keep p =
      by_result (act n s) (keep n s p) (λ t q. attempts_keep act cancelled left (n + 1) t keep q)
    where
      by_result :
          (x : Result (Option Notification) × Tables)
          → P x.1
          → ((t : Tables) → P t → P (attempts act cancelled left (n + 1) t).1)
          → P
              (elim x.0 as (λ r. Result (Option Notification) × Tables) [
                | ok m ↦ (ok m, x.1)
                | err e ↦ retry left e (cancelled n) x.1 (attempts act cancelled left (n + 1) x.1)
              ]).1
      by_result (ok m, t) q later = q
      by_result (err e, t) q later = wait_keeps left e (cancelled n) t _ q (later t q)

  -- What dispatch keeps at every attempt, a round keeps.
  round_keeps :
      (u : Unmarshal) (envs : ℕ → Env) (cancelled : ℕ → Option Error) (check_fails : Option Error)
      (msg : Message) (s : Tables)
      → ((k : ℕ) (t : Tables) → P t → P (dispatch u (envs k) (extract_event_id msg) msg t).1)
      → P s
      → P (round u envs cancelled check_fails msg s).1
  unfolding round dispatch_with_retry
  round_keeps u envs cancelled check_fails msg s keep p =
      by_check (is_duplicate check_fails msg s) refl
    where
      by_settled : (x : Result (Option Notification) × Tables) → P x.1 → P (settled msg x).1
      by_settled (ok m, t) q = q
      by_settled (err e, t) q = q

      by_check :
          (d : Result Bool)
          → is_duplicate check_fails msg s ≡ d
          → P (round u envs cancelled check_fails msg s).1
      by_check (err e) h = rw (h, round) p
      by_check (ok true) h = rw (h, round) p
      by_check (ok false) h =
          rw (h, round)
            (by_settled _ (
              attempts_keep (λ k. dispatch u (envs k) (extract_event_id msg) msg) cancelled
                dispatch_max_attempts 0 s keep p))

-- What a delivery of a message takes from outside.
pub record Delivery : Type 1 where
  pub envs : ℕ → Env
  pub cancelled : ℕ → Option Error
  pub check_fails : Option Error

-- The rounds of a message that is delivered again and again.
unfoldable pub rounds : Unmarshal → Message → List Delivery → Tables → Tables
unfolding round
rounds u msg [] s = s
rounds u msg (d ∷ ds) s = rounds u msg ds (round u d.envs d.cancelled d.check_fails msg s).1

-- The transactions are atomic, and the kind of a follow is this text.
abbrev pub Sound : Bytes → List Delivery → Type 1
Sound t [] = Unit {1}
Sound t (d ∷ ds) =
    ((k : ℕ) → IsAtomic (d.envs k).exec_tx × ((d.envs k).type_follow ≡ t)) × Sound t ds

dispatch_followed :
    (u : Unmarshal) (env : Env) (event_id : ℤ) (msg : Message) (evt : UserFollowedEvent)
    (s : Tables)
    → msg.topic ≡ topic_user_followed
    → u.user_followed msg.value ≡ some evt
    → dispatch u env event_id msg s
      ≡ create env event_id evt.followee_id evt.follower_id env.type_follow none s
unfolding dispatch create_from_follow ◌=?◌
dispatch_followed u env event_id msg evt s topic reads = rw (topic, dispatch) (rw reads refl)

follow_rounds-Once :
    (u : Unmarshal) (msg : Message) (evt : UserFollowedEvent) (t : Bytes) (ds : List Delivery)
    (s s' : Tables)
    → msg.topic ≡ topic_user_followed
    → u.user_followed msg.value ≡ some evt
    → is_positive (extract_event_id msg) ≡ true
    → Sound t ds
    → Once (extract_event_id msg) evt.followee_id evt.follower_id t none s s'
    → Once (extract_event_id msg) evt.followee_id evt.follower_id t none s (rounds u msg ds s')
unfolding rounds
follow_rounds-Once u msg evt t [] s s' topic reads p sound once = once
follow_rounds-Once u msg evt t (d ∷ ds) s s' topic reads p (sound, more) once =
    follow_rounds-Once u msg evt t ds s _ topic reads p more
      (round_keeps P u d.envs d.cancelled d.check_fails msg s' step once)
  where
    P : Tables → Type 0
    P = Once (extract_event_id msg) evt.followee_id evt.follower_id t none s

    step : (k : ℕ) (x : Tables) → P x → P (dispatch u (d.envs k) (extract_event_id msg) msg x).1
    step k x q =
        let (tx, kind) = sound k in
        rw (dispatch_followed u (d.envs k) (extract_event_id msg) msg evt x topic reads) (
          subst
            (λ w.
              P
                (create (d.envs k) (extract_event_id msg) evt.followee_id evt.follower_id w none
                  x).1)
            (sym kind)
            (create-Once (d.envs k) (extract_event_id msg) evt.followee_id evt.follower_id t none s
              x tx p q))

-- A user.followed message with a readable payload and a positive event ID, after any number of
-- rounds with their retries and failures on atomic transactions, has changed nothing or has added
-- one notification for the followee and recorded the event.
pub followed-Once :
    (u : Unmarshal) (msg : Message) (evt : UserFollowedEvent) (t : Bytes) (ds : List Delivery)
    (s : Tables)
    → msg.topic ≡ topic_user_followed
    → u.user_followed msg.value ≡ some evt
    → is_positive (extract_event_id msg) ≡ true
    → Sound t ds
    → Once (extract_event_id msg) evt.followee_id evt.follower_id t none s (rounds u msg ds s)
followed-Once u msg evt t ds s topic reads p sound =
    follow_rounds-Once u msg evt t ds s s topic reads p sound (not_yet refl)

-- The attempts from `n` on fail `k` times in a row without an effect, each for a reason that is
-- retried, and no wait behind them ends with the context.
abbrev pub FailsFrom :
    (ℕ → Tx Tables (Option Notification)) → (ℕ → Option Error) → Tables → ℕ → ℕ → Type 0
FailsFrom act cancelled s n zero = Unit
FailsFrom act cancelled s n (suc k) =
    ((e : Error) × (act n s ≡ (err e, s)) × (is_unmarshal e ≡ false) × (cancelled n ≡ none))
    × FailsFrom act cancelled s (n + 1) k

attempts_recover :
    (act : ℕ → Tx Tables (Option Notification)) (cancelled : ℕ → Option Error) (k left n : ℕ)
    (s t : Tables) (m : Option Notification)
    → FailsFrom act cancelled s n k
    → act (n + k) s ≡ (ok m, t)
    → k < left
    → attempts act cancelled left n s ≡ (ok m, t)
unfolding attempts
attempts_recover act cancelled k zero n s t m f h lt = absurd (omega arith)
attempts_recover act cancelled zero (suc left) n s t m f h lt =
    let here : n + 0 ≡ n = omega arith in
    let now : act n s ≡ (ok m, t) = rw here at h in
    rw (now, attempts) (ap (λ (x : Result (Option Notification) × Tables). (ok m, x.1)) now)
attempts_recover act cancelled (suc k) (suc left) n s t m ((e, bad, transient, waits), f) h lt =
    let later : n + suc k ≡ n + 1 + k = omega arith in
    let more : left == 0 ≡ false = ground arith in
    rw (bad, attempts)
      (rw (transient, more, waits)
        (ap (attempts act cancelled left (n + 1))
            (ap (λ (x : Result (Option Notification) × Tables). x.1) bad)
          ∙ attempts_recover act cancelled k left (n + 1) s t m f (rw later at h) (omega arith)))

-- A message that is no duplicate, for which fewer than three attempts fail without effect for a
-- reason that is retried before one succeeds and no wait between them ends with the context, is
-- committed without a dead letter and with the effect of that attempt.
pub round_recovers :
    (u : Unmarshal) (envs : ℕ → Env) (cancelled : ℕ → Option Error) (check_fails : Option Error)
    (msg : Message) (k : ℕ) (s t : Tables) (m : Option Notification)
    → is_duplicate check_fails msg s ≡ ok false
    → FailsFrom (λ n. dispatch u (envs n) (extract_event_id msg) msg) cancelled s 0 k
    → dispatch u (envs k) (extract_event_id msg) msg s ≡ (ok m, t)
    → k < dispatch_max_attempts
    → round u envs cancelled check_fails msg s ≡ (committed msg ∷ [], t)
unfolding round dispatch_with_retry
round_recovers u envs cancelled check_fails msg k s t m fresh f h lt =
    let from_zero : 0 + k ≡ k = omega arith in
    rw (fresh, round)
      (ap (settled msg) (
        attempts_recover (λ n. dispatch u (envs n) (extract_event_id msg) msg) cancelled k
          dispatch_max_attempts 0 s t m f (rw from_zero h) lt))
