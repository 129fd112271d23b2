-- ===== src/Client.antt =====
-- The logic that the clients share (clients/lib): placement, filters, sorting and sync.
pub mod Priority
pub mod Filter
pub mod SortOrder
pub mod Sync
pub mod Links
pub mod DueDates
pub mod Requests
