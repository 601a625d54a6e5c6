-- ===== src/Users.antt =====
-- apps/user-service
pub mod Limits
pub mod Cursor
pub mod Store
pub mod Queries
pub mod Follows
pub mod Profiles
pub mod Rows
pub mod Lists
