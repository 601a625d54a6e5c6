-- ===== src/Notify/Store.antt =====
-- The tables of apps/notification-service, as the queries of apps/notification-service/db/query.sql
-- that the consumer uses read and write them.
use twitter_microservices.Prelude.{
  Bool, false, ◌&&◌, ◌||◌, Option, none, some, List, [], ◌∷◌, Bytes, codes, ◌=?◌, ◌==◌,
  if◌then◌else◌, ℤ, pos, negsuc,
}
use twitter_microservices.Shared.Errors.{ok}
use twitter_microservices.Shared.Tx.{Tx}

-- db.Notification
pub record Notification : Type 0 where
  pub id : Bytes
  pub user_id : Bytes
  pub actor_id : Bytes
  pub type_of : Bytes
  pub tweet_id : Option Bytes
  pub read_at : Option ℤ
  pub created_at : ℤ

pub record Tables : Type 0 where
  pub notifications : List Notification
  -- the event IDs of processed_events
  pub processed : List ℤ

abbrev pub same_id : ℤ → ℤ → Bool
same_id (pos m) (pos n) = m == n
same_id (negsuc m) (negsuc n) = m == n
same_id _ _ = false

abbrev pub is_processed : ℤ → List ℤ → Bool
is_processed id [] = false
is_processed id (x ∷ xs) = same_id x id || is_processed id xs

-- IsEventProcessed
unfoldable pub is_event_processed : ℤ → Tx Tables Bool
is_event_processed id t = (ok (is_processed id t.processed), t)

-- MarkEventProcessed
unfoldable pub mark_event_processed : ℤ → Tx Tables (Unit {0})
mark_event_processed id t = (
  ok tt,
  record t { processed = if is_processed id t.processed then t.processed else id ∷ t.processed },
)

-- CreateNotification
unfoldable pub create_notification : Notification → Tx Tables Notification
create_notification n t = (ok n, record t { notifications = n ∷ t.notifications })

abbrev is_text : Option Bytes → Bytes → Bool
is_text none b = false
is_text (some a) b = a =? b

abbrev is_retweet_of : Bytes → Bytes → Notification → Bool
is_retweet_of actor_id tweet_id n =
    n.actor_id =? actor_id && is_text n.tweet_id tweet_id && n.type_of =? codes "retweet"

abbrev without_retweet : Bytes → Bytes → List Notification → List Notification
without_retweet actor_id tweet_id [] = []
without_retweet actor_id tweet_id (n ∷ ns) =
    let rest = without_retweet actor_id tweet_id ns in
    if is_retweet_of actor_id tweet_id n then rest else n ∷ rest

-- DeleteRetweetNotification
unfoldable pub delete_retweet_notification : Bytes → Bytes → Tx Tables (Unit {0})
delete_retweet_notification actor_id tweet_id t =
    (ok tt, record t { notifications = without_retweet actor_id tweet_id t.notifications })
