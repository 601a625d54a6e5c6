-- ===== src/Search.antt =====
-- apps/search-service
pub mod Docs
pub mod Query
pub mod Enrich
pub mod Service
pub mod Handler
pub mod Index
pub mod Indexer
