-- ===== src/System.antt =====
-- The server and a client together: requests one after the other, and a client that comes back.
pub mod Trace
pub mod Converge
pub mod Answers
