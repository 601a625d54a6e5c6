-- ===== src/Notify/Service.antt =====
-- The Create… and Delete… calls of apps/notification-service/internal/notification/service.go. ExecTx,
-- the new ID, the clock and the failures of the queries are parameters. The result of a call is the
-- notification that is handed to the hub behind the commit, if any.
pub mod Once
use twitter_microservices.Prelude.{
  ℕ, Bool, true, false, Option, none, some, List, [], ◌∷◌, ◌++◌, Bytes, codes, ◌=?◌, if◌then◌else◌,
  ℤ, pos, negsuc, ltb,
}
use twitter_microservices.Shared.Errors.{Error, Result, ok, err}
use twitter_microservices.Shared.Ints.{is_positive}
use twitter_microservices.Shared.Tx.{Tx, ExecTx, pure, fail, map_tx, ◌>>=◌, ◌>>◌}
use twitter_microservices.Notify.Store.{
  Notification, Tables, is_event_processed, mark_event_processed, create_notification,
  delete_retweet_notification,
}

-- What a call takes from outside; a query fails if its field is an error. The texts of the four
-- db.NotifType constants stand in generated code.
pub record Env : Type 1 where
  pub exec_tx : ExecTx Tables
  pub new_id : Bytes
  pub now : ℤ
  pub type_like : Bytes
  pub type_retweet : Bytes
  pub type_reply : Bytes
  pub type_follow : Bytes
  pub read_fails : Option Error
  pub mark_fails : Option Error
  pub insert_fails : Option Error

abbrev pub unless_failing : {A : Type 0} → Option Error → Tx Tables A → Tx Tables A
unless_failing none m = m
unless_failing (some e) m = fail e

module _ (env : Env) where
  open env use {
    exec_tx, new_id, now, type_like, type_retweet, type_reply, type_follow, read_fails, mark_fails,
    insert_fails,
  }

  -- The row of CreateNotification.
  abbrev pub new_notification : Bytes → Bytes → Bytes → Option Bytes → Notification
  new_notification user_id actor_id t tweet_id = record {
    id = codes "ntf_" ++ new_id;
    user_id = user_id;
    actor_id = actor_id;
    type_of = t;
    tweet_id = tweet_id;
    read_at = none;
    created_at = now;
  }

  abbrev pub insert : Notification → Tx Tables (Option Notification)
  insert n = do row ← map_tx (unless_failing insert_fails (create_notification n)); pure (some row)

  -- The transaction behind IsEventProcessed.
  abbrev pub insert_once : ℤ → Notification → Bool → Tx Tables (Option Notification)
  insert_once event_id n true = pure none
  insert_once event_id n false = do
    map_tx (unless_failing mark_fails (mark_event_processed event_id))
    insert n

  -- The transaction of create.
  unfoldable pub create_tx : ℤ → Notification → Tx Tables (Option Notification)
  unfolding is_event_processed mark_event_processed create_notification
  create_tx event_id n =
      if is_positive event_id
      then (do
        processed ← map_tx (unless_failing read_fails (is_event_processed event_id))
        insert_once event_id n processed)
      else insert n

  -- create
  unfoldable pub create : ℤ → Bytes → Bytes → Bytes → Option Bytes → Tx Tables (Option Notification)
  create event_id user_id actor_id t tweet_id =
      exec_tx (Option Notification)
        (create_tx event_id (new_notification user_id actor_id t tweet_id))

  -- CreateFromLike
  unfoldable pub create_from_like : ℤ → Bytes → Bytes → Bytes → Tx Tables (Option Notification)
  create_from_like event_id actor_id author_id tweet_id =
      if actor_id =? author_id
      then pure none
      else create event_id author_id actor_id type_like (some tweet_id)

  -- CreateFromRetweet
  unfoldable pub create_from_retweet : ℤ → Bytes → Bytes → Bytes → Tx Tables (Option Notification)
  create_from_retweet event_id retweeter_id original_author_id tweet_id =
      if retweeter_id =? original_author_id
      then pure none
      else create event_id original_author_id retweeter_id type_retweet (some tweet_id)

  -- DeleteFromRetweet
  unfoldable pub delete_from_retweet : Bytes → Bytes → Tx Tables (Option Notification)
  delete_from_retweet retweeter_id tweet_id = do
    map_tx (delete_retweet_notification retweeter_id tweet_id)
    pure none

  -- CreateFromReply
  unfoldable pub create_from_reply : ℤ → Bytes → Bytes → Bytes → Tx Tables (Option Notification)
  create_from_reply event_id replier_id parent_author_id parent_tweet_id =
      if replier_id =? parent_author_id
      then pure none
      else create event_id parent_author_id replier_id type_reply (some parent_tweet_id)

  -- CreateFromFollow
  unfoldable pub create_from_follow : ℤ → Bytes → Bytes → Tx Tables (Option Notification)
  create_from_follow event_id follower_id followee_id =
      create event_id followee_id follower_id type_follow none
