-- ===== src/Utils.antt =====
-- The helpers of server/src/Utils that the program's texts go through.
pub mod IpToStr
pub mod Runs
pub mod Ipv6
mod Examples
