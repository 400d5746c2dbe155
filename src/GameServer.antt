-- ===== src/GameServer.antt =====
-- The game server (server/include/RTypeSrv/GameServer.hpp and server/src/GameServer).
pub mod State
pub mod Packets
pub mod Udp
pub mod UdpCodec
pub mod Snapshots
pub mod Sessions
pub mod Handlers
pub mod Datagrams
pub mod Link
pub mod Loop
pub mod Server
pub mod Faults
pub mod Auth
pub mod Grants
pub mod Gate
pub mod Handshake
pub mod Joined
pub mod Expiry
pub mod Latency
pub mod Checks
pub mod Games
pub mod Run
pub mod Kept
pub mod Frames
pub mod Untried
pub mod Attempts
pub mod Known
pub mod Sources
pub mod Turns
pub mod Heard
pub mod Origins
mod Examples
mod RunExamples
