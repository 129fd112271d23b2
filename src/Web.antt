-- ===== src/Web.antt =====
-- The logic of the web application (clients/wasm) that does not touch the browser.
pub mod Burst
pub mod Queue
pub mod Drag
pub mod Push
