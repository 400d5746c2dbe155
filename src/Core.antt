-- ===== src/Core.antt =====
-- The program around the servers: core/src and core/include.
pub mod Values
pub mod Config
pub mod Main
pub mod Outcomes
pub mod ValidValues
pub mod Valid
pub mod Validated
pub mod Endpoints
pub mod Starts
mod Examples
