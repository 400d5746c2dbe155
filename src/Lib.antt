-- ===== src/Lib.antt =====
-- A model of the R-Type server: the TCP gateway that clients and game servers connect to, the game
-- servers' side of its protocol, and the theorems that join the two.
--
-- The program. A gateway (server/src/Gateway) listens on TCP. Game servers register with it, tell
-- it their load and their games; clients ask it to join a game (JOIN) or to make one (CREATE). A
-- CREATE goes to the game server with the least games, whose answer goes back to the client. A game
-- server (server/src/GameServer) keeps one connection to the gateway, and talks to the players by
-- UDP: a datagram carries a header, which is checked, and a command; a client joins, answers a challenge
-- with a cookie, and from then on its input goes to the queue of its game, and it is sent snapshots. A game
-- runs on an engine whose systems (server/include/RTypeSrv/Systems.hpp) move the players and make the
-- snapshots that the game server sends. The program (core/src) reads its configuration and starts the
-- gateway and the game servers, each in a thread.
--
-- The files.
--   Wire: bytes, readers of a buffer at an offset, big-endian numbers
--     (server/include/RTypeSrv/inline/PacketParser.inl, GameServerPacketParser.hpp).
--   Gateway/State: the fields of `Gateway` (server/include/RTypeSrv/Gateway.hpp).
--   Gateway/Packets: `Gateway::PacketParser` (server/src/Gateway/PacketParser.cpp).
--   Gateway/Helpers, Gateway/Parse: server/src/Gateway/ParsePackets.cpp.
--   Gateway/Commands: the handlers of server/src/Gateway/Commands.
--   Gateway/Net: server/src/Gateway/Recv.cpp, Send.cpp, Helpers.cpp and Implementation.cpp.
--   Gateway/Server: the start and the end of the gateway, and its loop as a step relation.
--   GameServer/Packets: server/src/GameServer/GameServerPacketParser.cpp.
--   GameServer/State: the fields of `GameServer` (server/include/RTypeSrv/GameServer.hpp).
--   GameServer/Udp, GameServer/Snapshots: the header, the commands and the fragments of a datagram.
--   GameServer/Sessions: sessions, authentication, timers and what is sent to a client.
--   GameServer/Handlers, GameServer/Datagrams: the commands of a datagram and the path to them.
--   GameServer/Link, GameServer/Loop, GameServer/Server: the connection to the gateway, the parts of
--     the loop, the start and the end of the game server. GameServer/Run: its loop as a step relation.
--   Systems: server/include/RTypeSrv/Systems.hpp, a function per system.
--   Utils/IpToStr: server/src/Utils/IPToStr.cpp.
--   Core/Values, Core/Config: core/src/GetConfig.cpp. Core/Main: core/src/main.cpp, StartServer.cpp and
--     SetSigHandlers.cpp.
--   Text: what the code uses of C's and C++'s own texts: `sscanf`, `getline`, `<<` of a number.
--   Gateway/Directory: what the gateway promises of its game servers, without its tables, and who may
--     change it; Gateway/Refines joins it to the turns of the gateway's loop.
--   Protocol: the packets of the game server in the hands of the gateway.
-- The other files hold proofs and examples; each says of what.
--
-- How the code is read. An operation takes the state and returns the new one. A handler is a reader:
-- from a buffer and an offset it gives a value and the offset after it, or an exception with the offset
-- that the caller's reference has at the throw, or `oob` where it reads past the buffer, which is
-- undefined in C++. No handler changes the state before it throws, so an exception carries no state.
-- A byte, a port, a handle and an id are natural numbers, with the bounds as hypotheses where they
-- matter and the wrap-around of machine integers written out; `|` of disjoint bits is a sum. An
-- `unordered_map` is a list of entries: its order is unspecified in C++, and the theorems hold for
-- every list, so for every order. What `recv`, `send`, `accept`, `listen` and `poll` return is an
-- argument of the operation that calls them: they belong to the network library, a submodule.
--
-- A text is the list of its character codes. `sscanf` and `getline` follow the C and C++ standards; a
-- number that does not fit its type, which is undefined for `sscanf`, is a result of its own.
--
-- The engine, the cryptographic primitives and the clock are not under the repository's own
-- sources: a record `Crypto` of functions is a parameter, and the time is an argument. The engine's
-- query is the list of the entities, and `float` is any type with the operations that the systems use:
-- what is proved does not depend on its rounding.
--
-- Bounds and fuel. `parse_buffer` has the length of the buffer as fuel, which is enough, since a packet
-- that is handled takes five bytes at least; the buffer of the game server's connection and the cutting
-- of a snapshot into fragments have the length too, and the loops over the eight words of an address
-- have 8. `_parseErrors` is a byte, `_next_id` a 64-bit number.
--
-- How many threads there is room for, and how many the system starts, is the parameter `Host` of
-- Core/Main; an exception in a noexcept function ends the program. The use of a freed iterator, where a
-- challenge of a client expires, has the outcome `undefined`, and nothing is said of what comes after it.
--
-- Not modelled: what is logged, the hash functions, the registration of the handlers of signals, the
-- functions that nothing calls, and the build. The program itself does not put input in order or fragments
-- together, and sends nothing again: `_fragment_buffers` is read by nothing, and the numbers of what came
-- from a client are only sent back to it. The
-- submodules for the network and the engine are not in the repository; what they return is an argument.
mod Prelude
pub mod Text
pub mod Wire
pub mod Gateway
pub mod GameServer
pub mod Systems
pub mod Utils
pub mod Core
pub mod Protocol
