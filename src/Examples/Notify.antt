-- ===== src/Examples/Notify.antt =====
-- Deliveries of one follow, and a stream that opens and ends.
use twitter_microservices.Prelude.{
  ltb, ◌≡◌, refl, Option, none, some, List, [], ◌∷◌, codes, ◌=?◌, if◌then◌else◌, pos, arith,
}
use twitter_microservices.Text.Decimal.{parse_int}
use twitter_microservices.Shared.Errors.{Error, other, map_err}
use twitter_microservices.Shared.Events.{UserFollowedEvent, Unmarshal}
use twitter_microservices.Shared.Kafka.{
  Message, event_id_header, event_id_of, extract_event_id, topic_user_followed,
}
use twitter_microservices.Examples.Tx.{committing, committing-IsAtomic}
use twitter_microservices.Notify.Store.{
  Notification, Tables, is_event_processed, mark_event_processed, create_notification,
}
use twitter_microservices.Notify.Service.{
  Env, new_notification, create_tx, create, create_from_follow,
}
use twitter_microservices.Notify.Service.Once.{Outcome, Once, create-Outcome}
use twitter_microservices.Notify.Consumer.{committed, dispatch, is_duplicate, round}
use twitter_microservices.Notify.Consumer.Retry.{
  Delivery, Sound, rounds, followed-Once, round_recovers,
}
use twitter_microservices.Notify.Hub.{Hub, subscribe, fan_out_local}
use twitter_microservices.Notify.Hub.Run.{Run, new_hub, Run-fan_out_local}

-- An environment whose first query fails or not.
abbrev env : Option Error → Env
env read_fails = record {
  exec_tx = committing;
  new_id = codes "1";
  now = pos 5;
  type_like = codes "like";
  type_retweet = codes "retweet";
  type_reply = codes "reply";
  type_follow = codes "follow";
  read_fails = read_fails;
  mark_fails = none;
  insert_fails = none;
}

abbrev no_rows_yet : Tables
no_rows_yet = record { notifications = []; processed = [] }

create-Outcome_example :
    Outcome
      (pos 7)
      (new_notification (env none) (codes "bob") (codes "ann") (codes "follow") none)
      no_rows_yet
      (create (env none) (pos 7) (codes "bob") (codes "ann") (codes "follow") none no_rows_yet)
create-Outcome_example =
    create-Outcome (env none) (pos 7) (codes "bob") (codes "ann") (codes "follow") none no_rows_yet
      committing-IsAtomic refl

abbrev followed : UserFollowedEvent
followed = record { follower_id = codes "ann"; followee_id = codes "bob"; created_at = pos 5 }

abbrev reads_follows : Unmarshal
reads_follows = record {
  tweet_created = λ b. none;
  tweet_deleted = λ b. none;
  tweet_liked = λ b. none;
  tweet_retweeted = λ b. none;
  tweet_unretweeted = λ b. none;
  tweet_replied = λ b. none;
  user_created = λ b. none;
  user_followed = λ b. some followed;
  user_updated = λ b. none;
}

abbrev message : Message
message = record {
  topic = topic_user_followed;
  partition = 0;
  offset = 3;
  key = [];
  value = codes "{}";
  headers = record { key = event_id_header; value = codes "7" } ∷ [];
}

-- The first attempt of a delivery fails, and the second does not.
abbrev delivery : Delivery
delivery = record {
  envs = λ n. env (if ltb n 1 then some (other 1) else none);
  cancelled = λ n. none;
  check_fails = none;
}

abbrev two_deliveries : List Delivery
two_deliveries = delivery ∷ delivery ∷ []

two_deliveries-Sound : Sound (codes "follow") two_deliveries
two_deliveries-Sound =
    ((λ k. (committing-IsAtomic, refl)), ((λ k. (committing-IsAtomic, refl)), tt))

followed-Once_example :
    Once
      (extract_event_id message)
      (codes "bob")
      (codes "ann")
      (codes "follow")
      none
      no_rows_yet
      (rounds reads_follows message two_deliveries no_rows_yet)
unfolding extract_event_id event_id_of ◌=?◌ parse_int
followed-Once_example =
    followed-Once reads_follows message followed (codes "follow") two_deliveries no_rows_yet refl
      refl refl two_deliveries-Sound

abbrev after_follow : Tables
after_follow = record {
  notifications =
      new_notification (env none) (codes "bob") (codes "ann") (codes "follow") none ∷ [];
  processed = pos 7 ∷ [];
}

round_recovers_example :
    round reads_follows
      (λ n. env (if ltb n 1 then some (other 1) else none))
      (λ n. none)
      none
      message
      no_rows_yet
    ≡ (committed message ∷ [], after_follow)
unfolding extract_event_id event_id_of ◌=?◌ parse_int dispatch create_from_follow create create_tx
    is_event_processed mark_event_processed create_notification is_duplicate map_err
round_recovers_example =
    round_recovers reads_follows (λ n. env (if ltb n 1 then some (other 1) else none)) (λ n. none)
      none message 1 no_rows_yet after_follow
      (some (new_notification (env none) (codes "bob") (codes "ann") (codes "follow") none)) refl
      ((other 1, refl, refl, refl), tt) refl (omega arith)

-- A stream of bob is open.
abbrev one_stream : Hub
one_stream = (subscribe (codes "bob") new_hub).1

one_stream-Run : Run one_stream
one_stream-Run = Run.opens new_hub (codes "bob") Run.start

abbrev a_notification : Notification
a_notification = new_notification (env none) (codes "bob") (codes "ann") (codes "follow") none

Run-fan_out_local_example :
    (h' : Hub) × (fan_out_local (codes "bob") a_notification one_stream ≡ some h')
Run-fan_out_local_example = Run-fan_out_local one_stream (codes "bob") a_notification one_stream-Run
