-- ===== src/GameServer/Server.antt =====
-- The life of the game server: server/src/GameServer/Implementation.cpp.
use r_type_server.Prelude.{
  ℕ, true, List, [], ◌∷◌, ◌++◌, Option, none, some, ◌==◌, length, get_elem?, if◌then◌else◌,
}
use r_type_server.Prelude.Dict.{nat_eq, endpoint_eq}
use r_type_server.Gateway.State.{PollFd}
use r_type_server.Gateway.Net.{back}
use r_type_server.Gateway.Server.{listener}
use r_type_server.GameServer.State.{GameServer, Game}
use r_type_server.GameServer.Sessions.{Crypto, Clock, Handled, served, thrown, undefined}
use r_type_server.GameServer.Datagrams.{parse_packets}
use r_type_server.GameServer.Link.{
  Received, recv_tcp_packets, send_tcp_packets, parse_tcp_packets, send_gs_registration,
}
use r_type_server.GameServer.Loop.{Datagram, recv_packets, send_packets, disconnect_by_handle}

pub data Started : Type 0 where
  started : GameServer → Started
  failed : GameServer → Started

-- `listening` is the socket of `listen`, none where it throws; `connected` the handle of `connect`,
-- none where it is -1.
unfoldable pub init_server : Option ℕ → Option ℕ → GameServer → Started
init_server listening connected gs = elim listening [
  | none ↦ failed gs
  | some h ↦
      (let open_server = record gs {
        sock = h;
        fds = gs.fds ++ listener h ∷ [];
        is_running = true;
      } in
        elim connected [
          | none ↦ failed open_server
          | some tcp ↦
              (let fds = open_server.fds ++ listener tcp ∷ [] in
                started (
                  send_gs_registration
                    (record open_server { tcp_handle = tcp; fds = fds; nfds = length fds })))
        ])
]

-- Where the loop over the descriptors goes on; `lost` is the exception that ends the server.
pub data Turn : Type 0 where
  turn : GameServer → ℕ → Turn
  lost : GameServer → Turn
  fault : Turn

-- What the clocks, the network and the engine give in one turn.
pub record World : Type 0 where
  pub crypto : Crypto
  pub clock : Clock
  pub ipv4_offset : ℕ
  pub datagram : Datagram
  pub received : Received
  pub sends : List (Option ℕ)
  pub new_game : Game

unfoldable pub recv_and_parse : ℕ → World → GameServer → Handled
recv_and_parse h world gs = elim (recv_packets world.ipv4_offset h world.datagram gs) [
  | served gs' ↦ parse_packets world.crypto world.clock gs'
  | thrown gs' ↦ thrown gs'
  | undefined ↦ undefined
]

-- `_handleClients(i)` for the handle at i.
unfoldable pub handle_clients : ℕ → ℕ → World → GameServer → Turn
unfolding recv_and_parse
handle_clients i h world gs = elim (recv_and_parse h world gs) [
  | served gs' ↦ turn gs' i
  | thrown gs' ↦ turn (disconnect_by_handle h gs') (back i)
  | undefined ↦ fault
]

-- After `_handleClients`, the descriptor at the index that it left is looked at for POLLOUT. After an
-- exception that is the one before, and before the first there is none.
unfoldable pub then_send : Turn → Turn
then_send (turn gs i) = elim (get_elem? gs.fds i) [
  | none ↦ fault
  | some fd ↦ if fd.rev_out then turn (send_packets i fd gs).0 i else turn gs i
]
then_send (lost gs) = lost gs
then_send fault = fault

-- The connection to the gateway: any exception ends the server.
unfoldable pub handle_gateway : ℕ → PollFd → World → GameServer → Turn
handle_gateway i fd world gs =
    let sent = λ (gs' : GameServer).
      (if fd.rev_out then turn (send_tcp_packets world.sends gs').0 i else turn gs' i) in
    if fd.rev_in
    then (let (gs', threw) = recv_tcp_packets world.received gs in
        if threw
        then lost gs'
        else elim (parse_tcp_packets world.new_game gs') [ none ↦ fault | some gs'' ↦ sent gs'' ])
    else sent gs

-- `_handleLoop(i)` for the descriptor `fd` at i.
unfoldable pub handle_loop : ℕ → PollFd → World → GameServer → Turn
unfolding handle_clients then_send handle_gateway
handle_loop i fd world gs =
    if fd.rev_error
    then if fd.handle == gs.tcp_handle
      then lost gs
      else turn (disconnect_by_handle fd.handle gs) (back i)
    else if fd.handle == gs.sock
    then then_send (if fd.rev_in then handle_clients i fd.handle world gs else turn gs i)
    else if fd.handle == gs.tcp_handle
    then handle_gateway i fd world gs
    else turn gs i
