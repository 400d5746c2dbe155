-- ===== src/GameServer/Frames.antt =====
-- What leaves the sessions of the game server alone: the pings, the connection to the gateway, what is sent, and
-- the end of a connection.
pub mod Tcp
pub mod Snapshots
use r_type_server.Prelude.{
  ℕ, zero, suc, ◌+◌, ◌≡◌, refl, sym, ◌∙◌, Bool, true, false, List, [], ◌∷◌, Option, none, some,
  arith, ◌==◌, ◌&&◌, ◌||◌, if◌then◌else◌, ltb, length,
}
use r_type_server.Prelude.Dict.{Dict, nat_eq, endpoint_eq, lookup, insert, get}
use r_type_server.Wire.{Bytes, Read, ok, err, oob}
use r_type_server.Gateway.State.{Address, PollFd}
use r_type_server.GameServer.State.{GameServer, Game, ClientState, AuthChallenge}
use r_type_server.GameServer.Packets.{parse_header}
use r_type_server.GameServer.Sessions.{
  Clock, Handled, served, thrown, undefined, send_datagram, send_snapshot, push_packet, next_number,
}
use r_type_server.GameServer.Datagrams.{ping_endpoints, ping_client, ping_clients, catch_error}
use r_type_server.GameServer.Link.{
  Received, bytes, closed, again, failed, recv_tcp_packets, send_tcp_packets, dispatch_tcp,
  parse_tcp_buffer, parse_tcp_packets, handle_create, handle_occupancy_request, send_tcp, next_game,
  emplace_game, erase_tcp,
}
use r_type_server.GameServer.Loop.{
  send_packets, forget_endpoints, disconnect_by_handle, snapshot_clients, snapshot_games,
  snapshot_of, endpoint_of, clients_in_game, send_game_snapshots, game_loop_tick,
}
use r_type_server.GameServer.Kept.{Ends, Ends-map}

-- The received packets, the handles, and the sessions and challenges by endpoint and by handle.
abbrev pub Tables : Type 0
Tables =
    Dict Address (List Bytes)
    × Dict ℕ ℕ
    × Dict Address ClientState
    × Dict ℕ AuthChallenge
    × Dict Address AuthChallenge

abbrev pub tables : GameServer → Tables
tables gs = (gs.recv_packets, gs.client_ids, gs.ep_client_states, gs.auth_states, gs.ep_auth_states)

abbrev pub Frame : GameServer → GameServer → Type 0
Frame gs gs' = tables gs' ≡ tables gs

ping_endpoints-Frame :
    (h : ℕ) (packet : Bytes) (m : Dict Address ℕ) (gs : GameServer)
    → Frame gs (ping_endpoints h packet m gs)
unfolding ping_endpoints push_packet
ping_endpoints-Frame h packet [] gs = refl
ping_endpoints-Frame h packet ((endpoint, h') ∷ m) gs =
    ping_endpoints-Frame h packet m _ ∙ ground arith

ping_client-Frame :
    (clock : Clock) (client_id h : ℕ) (gs : GameServer)
    → Frame gs (ping_client clock client_id h gs)
unfolding ping_client
ping_client-Frame clock client_id h gs = ping_endpoints-Frame h _ gs.endpoint_to_handle _

pub ping_clients-Frame :
    (clock : Clock) (m : Dict ℕ ℕ) (gs : GameServer) → Frame gs (ping_clients clock m gs)
unfolding ping_clients
ping_clients-Frame clock [] gs = refl
ping_clients-Frame clock ((client_id, h) ∷ m) gs =
    ping_clients-Frame clock m _ ∙ ground (arith, ping_client-Frame clock client_id h gs)

pub catch_error-Frame : (h : ℕ) (gs : GameServer) → Ends (Frame gs) (catch_error h gs)
unfolding catch_error
catch_error-Frame h gs = ground arith

forget_endpoints-Frame :
    (h : ℕ) (m : Dict Address ℕ) (gs : GameServer) → Frame gs (forget_endpoints h m gs).0
unfolding forget_endpoints
forget_endpoints-Frame h [] gs = refl
forget_endpoints-Frame h ((endpoint, h') ∷ m) gs = forget_endpoints-Frame h m _ ∙ ground arith

pub disconnect_by_handle-Frame : (h : ℕ) (gs : GameServer) → Frame gs (disconnect_by_handle h gs)
unfolding disconnect_by_handle
disconnect_by_handle-Frame h gs = forget_endpoints-Frame h gs.endpoint_to_handle gs

pub send_packets-Frame : (i : ℕ) (fd : PollFd) (gs : GameServer) → Frame gs (send_packets i fd gs).0
unfolding send_packets
send_packets-Frame i fd gs = ground arith
