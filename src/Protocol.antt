-- ===== src/Protocol.antt =====
-- The two servers together: what one builds, the other reads.
pub mod Registration
pub mod Games
pub mod Creates
mod Examples
