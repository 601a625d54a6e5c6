-- ===== src/Examples.antt =====
-- Concrete runs: the theorems applied to servers, tables and messages that are written out.
mod Feed
mod Delivery
mod Tx
mod Shared
mod Users
mod Tweets
mod Notify
mod Profiles
mod Search
mod Snapshots
mod Reads
