-- ===== src/Users/Follows.antt =====
-- Service.Follow and Service.Unfollow of apps/user-service/internal/user/service.go over the tables of
-- Users/Store. ExecTx, json.Marshal, the clock and the trace are parameters. The result of a call is
-- its error, and the pipeline that it sends to Redis afterwards.
pub mod Counts
pub mod Calls
pub mod Relation
use twitter_microservices.Prelude.{
  ℕ, Bool, true, false, Option, none, some, List, [], ◌∷◌, ◌++◌, Bytes, codes, ◌=?◌, ◌==◌,
  if◌then◌else◌, ℤ, pos, negsuc,
}
use twitter_microservices.Shared.Errors.{AppError, Error, app, Result, ok, err}
use twitter_microservices.Shared.Events.{UserFollowedEvent, UserCreatedEvent, UserUpdatedEvent}
use twitter_microservices.Shared.Kafka.{topic_user_followed}
use twitter_microservices.Shared.Redis.{Command, hincrby}
use twitter_microservices.Shared.Tx.{Tx, ExecTx, pure, fail, map_tx, or_log, ◌>>=◌, ◌>>◌}
use twitter_microservices.Users.Store.{
  Tables, get_user_by_id, create_follow, delete_follow, increment_follower_count,
  increment_following_count, decrement_follower_count, decrement_following_count, insert_outbox,
}

abbrev pub self_follow : AppError
self_follow = record {
  status = 400;
  code = codes "SELF_FOLLOW";
  message = codes "cannot follow yourself";
}

unfoldable pub user_counts_key : Bytes → Bytes
user_counts_key id = codes "user:counts:" ++ id

-- incrCounts; `false` is a service without Redis.
unfoldable pub incr_counts : Bool → Bytes → Bytes → ℤ → List Command
unfolding user_counts_key
incr_counts false follower followee delta = []
incr_counts true follower followee delta =
    hincrby (user_counts_key follower) (codes "following_count") delta
    ∷ hincrby (user_counts_key followee) (codes "follower_count") delta
    ∷ []

-- What a call takes from outside: ExecTx, whether there is a Redis client, json.Marshal, the time and
-- the trace of the request.
pub record Env : Type 1 where
  pub exec_tx : ExecTx Tables
  pub has_redis : Bool
  pub marshal_followed : UserFollowedEvent → Result Bytes
  pub marshal_created : UserCreatedEvent → Result Bytes
  pub marshal_updated : UserUpdatedEvent → Result Bytes
  pub now : ℤ
  -- strings.ToLower(strings.TrimSpace(s)) where s is not ASCII
  pub lower_unicode : Bytes → Bytes
  pub trace_id : Bytes

module _ (env : Env) where
  open env use {exec_tx, has_redis, marshal_followed, now, trace_id}

  -- outboxEnqueue behind json.Marshal.
  abbrev pub outbox_enqueue : Bytes → Bytes → Result Bytes → Tx Tables (Unit {0})
  outbox_enqueue topic key (err e) = fail e
  outbox_enqueue topic key (ok b) = insert_outbox topic key b trace_id

  abbrev pub follow_event : Bytes → Bytes → UserFollowedEvent
  follow_event follower followee = record {
    follower_id = follower;
    followee_id = followee;
    created_at = now;
  }

  -- The part of the transaction behind CreateFollow; the result is `applied`.
  abbrev pub applied_follow : Bytes → Bytes → ℕ → Tx Tables Bool
  applied_follow follower followee rows_affected = if rows_affected == 0 then pure false else (do
    or_log (increment_follower_count followee)
    or_log (increment_following_count follower)
    outbox_enqueue topic_user_followed followee (marshal_followed (follow_event follower followee))
    pure true)

  -- The transaction of Follow.
  unfoldable pub follow_tx : Bytes → Bytes → Tx Tables Bool
  unfolding create_follow increment_follower_count increment_following_count insert_outbox
  follow_tx follower followee = do
    rows_affected ← map_tx (create_follow follower followee)
    applied_follow follower followee rows_affected

  -- Follow
  unfoldable pub follow : Bytes → Bytes → Tx Tables (List Command)
  unfolding get_user_by_id incr_counts
  follow follower followee = if follower =? followee then fail (app self_follow) else (do
    map_tx (get_user_by_id followee)
    applied ← exec_tx Bool (follow_tx follower followee)
    pure (if applied then incr_counts has_redis follower followee (pos 1) else []))

  -- The transaction of Unfollow.
  unfoldable pub unfollow_tx : Bytes → Bytes → Tx Tables (Unit {0})
  unfolding delete_follow decrement_follower_count decrement_following_count
  unfollow_tx follower followee = do
    map_tx (delete_follow follower followee)
    or_log (decrement_follower_count followee)
    or_log (decrement_following_count follower)
    pure tt

  -- Unfollow
  unfoldable pub unfollow : Bytes → Bytes → Tx Tables (List Command)
  unfolding incr_counts
  unfollow follower followee = do
    exec_tx Unit (unfollow_tx follower followee)
    pure (incr_counts has_redis follower followee (negsuc 0))
