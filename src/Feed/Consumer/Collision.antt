-- ===== src/Feed/Consumer/Collision.antt =====
-- Event IDs are row IDs of an outbox. The user service and the tweet service have an outbox each.
use twitter_microservices.Prelude.{◌≡◌, ◌∙◌, sym, subst, Bool, true, [], ◌∷◌, ℤ, IsInt64}
use twitter_microservices.Shared.Errors.{Result, ok}
use twitter_microservices.Shared.Events.{Unmarshal}
use twitter_microservices.Shared.Kafka.{extract_event_id}
use twitter_microservices.Shared.Outbox.{Row, outbox_message}
use twitter_microservices.Shared.Outbox.Headers.{extract_event_id-outbox_message}
use twitter_microservices.Feed.Consumer.{committed, is_positive, round}

-- Once the dedup key of one service's outbox row with a positive int64 ID is set, the event of the
-- other service's row with the same ID is committed without any action.
pub same_row_id_dropped :
    (u : Unmarshal) (now : ℤ) (seen : ℤ → Result Bool) (first second : Row)
    → IsInt64 first.id
    → second.id ≡ first.id
    → is_positive first.id ≡ true
    → seen (extract_event_id (outbox_message first)) ≡ ok true
    → round u now seen (outbox_message second) ≡ committed (outbox_message second) ∷ []
unfolding round
same_row_id_dropped u now seen first second range same p marked =
    let id₁ = extract_event_id-outbox_message first range in
    let id₂ : extract_event_id (outbox_message second) ≡ first.id =
      extract_event_id-outbox_message second (subst IsInt64 (sym same) range) ∙ same in
    let known : seen first.id ≡ ok true = rw id₁ at marked in rw (id₂, round) (rw p (rw known))
