-- ===== src/Store.antt =====
-- The database that the services share: the rows of each table, and a session over them.
pub mod Rows
pub mod Cases
pub mod Catalog
pub mod Drafts
pub mod Session
pub mod Steps
pub mod Queries
