-- ===== src/Server.antt =====
-- The server (server/src): storage over SQL tables, and the request handler.
pub mod Errors
pub mod Table
pub mod Db
pub mod Live
pub mod Write
pub mod Root
pub mod Implications
pub mod Storage
pub mod Reads
pub mod History
pub mod Handler
