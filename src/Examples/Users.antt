-- ===== src/Examples/Users.antt =====
-- Two users, one of whom follows the other.
use twitter_microservices.Prelude.{
  ℕ, ◌≡◌, refl, true, none, [], ◌∷◌, Bytes, codes, ◌=?◌, pos, arith,
}
use twitter_microservices.Text.Decimal.{format_int}
use twitter_microservices.Shared.Errors.{ok}
use twitter_microservices.Examples.Tx.{committing, committing-IsAtomic}
use twitter_microservices.Users.Limits.{clamp_limit, query_limit, clamp_limit-query_limit}
use twitter_microservices.Users.Store.{User, Tables}
use twitter_microservices.Users.Follows.{Env, follow}
use twitter_microservices.Users.Follows.Counts.{IsConsistent, pair}
use twitter_microservices.Users.Follows.Calls.{follow-keeps_counts}

abbrev pub user : Bytes → ℕ → ℕ → User
user id followers followings = record {
  id = id;
  email = [];
  username = none;
  display_name = none;
  avatar_url = none;
  header_image_url = none;
  bio = none;
  website_url = none;
  location = none;
  follower_count = followers;
  following_count = followings;
  created_at = pos 0;
  updated_at = pos 0;
}

-- ann follows bob.
abbrev pub tables : Tables
tables = record {
  users = user (codes "ann") 0 1 ∷ user (codes "bob") 1 0 ∷ [];
  follows = pair (codes "ann") (codes "bob") (pos 3) ∷ [];
  outbox = [];
  last_outbox_id = 0;
  clock = pos 4;
}

abbrev pub env : Env
env = record {
  exec_tx = committing;
  has_redis = true;
  marshal_followed = λ evt. ok evt.follower_id;
  marshal_created = λ evt. ok evt.user_id;
  marshal_updated = λ evt. ok evt.user_id;
  now = pos 5;
  lower_unicode = λ s. s;
  trace_id = [];
}

tables-IsConsistent : IsConsistent tables
unfolding ◌=?◌
tables-IsConsistent = record {
  counted = (
    record { followers = refl; followings = refl },
    (record { followers = refl; followings = refl }, tt),
  );
  single = (refl, tt);
}

follow-keeps_counts_example : IsConsistent (follow env (codes "bob") (codes "ann") tables).1
follow-keeps_counts_example =
    follow-keeps_counts env (codes "bob") (codes "ann") tables committing-IsAtomic
      tables-IsConsistent

clamp_limit-query_limit_example : clamp_limit (query_limit (format_int (pos 42))) 20 100 ≡ pos 42
clamp_limit-query_limit_example =
    clamp_limit-query_limit 42 20 100 (omega arith) (omega arith) (omega arith)
