-- ===== src/Tests.antt =====
-- Runs of the definitions at fixed inputs, and instances of the theorems.
pub mod Data
mod Protocol
mod Client
mod Server
mod System
mod Links
mod Web
mod DueDates
