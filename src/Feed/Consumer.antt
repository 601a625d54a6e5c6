-- ===== src/Feed/Consumer.antt =====
-- Consumer.RunTweetConsumer of apps/feed-service/internal/consumer/consumer.go. A round of the loop is
-- a function from what the servers answer to the effects in their order; a run is the list of the
-- rounds. FetchMessage gives the messages one after the other. `acted` says that the handlers of
-- the message returned, and that the goroutine of its fan-out, if it has one, was started: the round
-- does not wait for that goroutine.
pub mod Delivery
pub mod Collision
use twitter_microservices.Prelude.{
  ℕ, Bool, true, false, Option, none, some, List, [], ◌∷◌, ◌++◌, Bytes, if◌then◌else◌, ℤ, pos,
  negsuc, ltb,
}
use twitter_microservices.Shared.Errors.{Error, app, no_rows, pg, unmarshal, other, Result, ok, err}
use twitter_microservices.Shared.Events.{Unmarshal}
use twitter_microservices.Shared.Kafka.{Message, extract_event_id}
use twitter_microservices.Feed.Dispatch.{Action, dispatch}

pub data Effect : Type 0 where
  acted : Message → List Action → Effect
  dead_lettered : Message → Effect
  marked : ℤ → Effect
  committed : Message → Effect

abbrev is_positive : ℤ → Bool
is_positive (pos n) = ltb 0 n
is_positive (negsuc n) = false

-- errors.Is(err, errUnmarshal)
abbrev is_unmarshal : Error → Bool
is_unmarshal unmarshal = true
is_unmarshal _ = false

-- The end of a round: the dedup key, then the offset.
unfoldable pub finish : Message → List Effect
finish msg =
    (if is_positive (extract_event_id msg) then marked (extract_event_id msg) ∷ [] else [])
    ++ committed msg ∷ []

-- The round behind the dedup check.
abbrev pub settle : Message → Result (List Action) → List Effect
settle msg (ok actions) = acted msg actions ∷ finish msg
settle msg (err e) = if is_unmarshal e then dead_lettered msg ∷ finish msg else []

-- One round for a fetched message; `seen` answers EXISTS on the dedup key.
unfoldable pub round : Unmarshal → ℤ → (ℤ → Result Bool) → Message → List Effect
unfolding finish
round u now seen msg =
    if is_positive (extract_event_id msg)
    then elim (seen (extract_event_id msg)) [
      | err e ↦ []
      | ok true ↦ committed msg ∷ []
      | ok false ↦ settle msg (dispatch u now msg)
    ]
    else settle msg (dispatch u now msg)

-- The effects of a run over the fetched messages, each with the answer to its dedup check.
unfoldable pub run : Unmarshal → ℤ → List (Message × Result Bool) → List Effect
run u now [] = []
run u now ((msg, seen) ∷ rest) = round u now (λ _. seen) msg ++ run u now rest
