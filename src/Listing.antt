-- ===== src/Listing.antt =====
-- ui/src/lib/model.ts: what the list and the sidebar derive from the rows.
pub mod Status
pub mod Filters
pub mod Sort
pub mod Folders
pub mod Labels
pub mod Health
mod Tests
