-- ===== src/Lib.antt =====
-- A model of the services of this repository, a micro-blogging system of Go services that talk through
-- PostgreSQL, Redis, Kafka and gRPC, with theorems about their core logic. Each service writes its events
-- to an outbox table in the transaction that causes them; a runner sends the rows to Kafka with the row's
-- ID in a header; the consumers of the other services deduplicate by that ID and update Redis or their own
-- tables. A message that cannot be handled goes to a dead-letter topic, from which a tool replays it.
--
-- Files:
--   Prelude, Text        helpers: Boolean tests, byte strings, lists, int64 values; strings.Split,
--                        strconv.FormatInt and strconv.ParseInt.
--   Shared/Errors        apps/shared/httperr, apps/shared/pgxutil, apps/shared/ptr.
--   Shared/Events, Kafka apps/shared/events; messages and headers; extractEventID of the two consumers.
--   Shared/Tx            transactions (ExecTx) as state passing, with what callers rely on (IsAtomic).
--   Shared/Walk          a client that follows the cursors of a list.
--   Shared/Redis         the Redis client as a parameter, with the documented LIST commands (KeepsLists);
--                        Redis/Hashes has those on hashes (KeepsHashes).
--   Shared/Outbox        FlushOutbox of the services and flushWithRetry of apps/shared/outbox.
--   Shared/Dlq           apps/shared/dlq and apps/dlq-replay.
--   Shared/Retry         apps/shared/grpcretry.
--   Feed/Entry, Page     the entries of the home timelines, and cursor pagination
--                        (apps/feed-service/internal/consumer/consumer.go).
--   Feed/Fanout          FanOut, RemoveRetweetFromFollowers, BackfillFollowingFeed of the same file.
--   Feed/Dispatch, Consumer  dispatch and RunTweetConsumer of the same file.
--   Feed/Signals, Snapshots, Handlers  what the handlers of dispatch send to Redis: the trending tags, the
--                        interests and affinities, and the snapshots of tweets.
--   Feed/Merge, Service, Enrich, Recommended  the read path (apps/feed-service/internal/feed/service.go).
--   Users/Store, Queries, Rows  the queries of apps/user-service/db/query.sql on the tables.
--   Users/Follows        Follow, Unfollow (apps/user-service/internal/user/service.go); Relation has what
--                        their clients see.
--   Users/Profiles       Provision, GetProfile, UpdateProfile, GetFollowState, RefreshAllCounts of it.
--   Users/Lists          ListFollowers, ListFollowing, ListSuggestions of it.
--   Users/Cursor, Limits cursors and page limits of the same file and of handler_users.go.
--   Search/Docs, Query, Enrich, Service, Handler  SearchTweets and SearchUsers of
--                        apps/search-service/internal/search, with the query builders of
--                        internal/opensearch, internal/enrich and the handlers of internal/server.
--   Search/Index, Indexer  the writes of internal/opensearch and the consumer of internal/indexer.
--   Notify/Store, Service, Reads, Consumer, Hub  apps/notification-service: queries, the Create calls,
--                        CountUnread and the marks, the consumer with its retries, the channels of the
--                        open streams.
--   Tweets/Hashtag, Limits  hashtag.Extract, and parseLimit and the profile cursors of
--                        apps/tweet-service.
--   Tweets/Store, Service  the queries of apps/tweet-service/db/query.sql, and Create, Delete, Like, Unlike,
--                        Retweet, Unretweet and Reply (apps/tweet-service/internal/tweet/service.go).
--   Examples             concrete runs to which the theorems are applied.
--
-- Conventions: a Go string is a list of bytes; a time is a whole number of the unit that the code uses;
-- a pair `(value, err)` is a Result; a loop over a channel or a topic is a list of rounds. A pipeline of
-- Redis is a list of commands. json, the clock, random numbers, new IDs, ExecTx and the clients of
-- Redis, Kafka and gRPC are parameters. How the database orders texts, and what a text that is not ASCII
-- is in lower case, are parameters too. Loops with a bound in the source (4 flushes, 3 attempts of
-- dispatch, MaxAttempts calls) recurse on that bound; no other fuel is used, except in `walk`, where one
-- page more than entries is shown to be enough. A query of Users/Store and Tweets/Store fails only where
-- its SQL or a constraint of the migrations says so; that a transaction as a whole may fail is in
-- ExecTx. New IDs are taken to be fresh.
--
-- Not modelled: the media service, HTTP and gRPC encoding, telemetry, process wiring, the web client; of
-- the feed service the scores of GetTrending, GetUserInterests, GetUserAffinity and
-- rebuildRecommendedFeed, which are floating-point: the order in which they put the candidates is a
-- parameter; of the search service the clients of OpenSearch, of the embedding service and of the other
-- services, which are calls of third-party libraries and stand as parameters.
mod Prelude
pub mod Text
pub mod Shared
pub mod Feed
pub mod Search
pub mod Users
pub mod Tweets
pub mod Notify
pub mod Examples
