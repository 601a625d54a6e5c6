-- ===== src/Tweets.antt =====
-- apps/tweet-service: hashtags, page limits, the tables, and the calls that like, retweet and reply.
pub mod Hashtag
pub mod Limits
pub mod Store
pub mod Service
