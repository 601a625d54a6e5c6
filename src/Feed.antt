-- ===== src/Feed.antt =====
-- apps/feed-service
pub mod Entry
pub mod Ids
pub mod Keys
pub mod Page
pub mod Merge
pub mod Fanout
pub mod Signals
pub mod Snapshots
pub mod Recommended
pub mod Handlers
pub mod Dispatch
pub mod Consumer
pub mod Service
pub mod Enrich
