-- ===== src/Gateway.antt =====
-- The TCP gateway (server/include/RTypeSrv/Gateway.hpp and server/src/Gateway).
pub mod State
pub mod Packets
pub mod Helpers
pub mod Commands
pub mod Parse
pub mod Net
pub mod Local
pub mod Header
pub mod Progress
pub mod Outbox
pub mod Keepalive
pub mod Ensures
pub mod Frame
pub mod Tables
pub mod Directory
pub mod Changes
pub mod PacketChanges
pub mod Consistent
pub mod Invariant
pub mod Turns
pub mod TurnChanges
pub mod Good
pub mod Open
pub mod OpenParse
pub mod OpenTurn
pub mod Refines
pub mod Safety
pub mod Partial
pub mod Flush
pub mod Balance
pub mod Packet
pub mod Joins
pub mod Server
pub mod Reachable
pub mod Examples
