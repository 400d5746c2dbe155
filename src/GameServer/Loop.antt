-- ===== src/GameServer/Loop.antt =====
-- The sockets and the loop of the game server: server/src/GameServer/Recv.cpp, Send.cpp, Helpers.cpp,
-- GameServer.cpp and Implementation.cpp. What the network library and the game engine do is an argument.
use r_type_server.Prelude.{
  ℕ, ◌+◌, ◌-◌, ◌%◌, ◌^◌, Bool, true, false, ◌&&◌, ◌||◌, List, [], ◌∷◌, ◌++◌, Option, none, some,
  ◌==◌, take, drop, if◌then◌else◌,
}
use r_type_server.Prelude.Dict.{Dict, nat_eq, endpoint_eq, insert, erase, get, is_empty}
use r_type_server.Wire.{Bytes}
use r_type_server.Gateway.State.{Address, PollFd, Socket}
use r_type_server.Gateway.Net.{erase_socket, has_fd, erase_fd, clear_pollout}
use r_type_server.GameServer.State.{GameServer, Game}
use r_type_server.GameServer.Sessions.{Handled, served, thrown, undefined, send_snapshot}

-- A datagram and where it came from, nothing to read, or an error of `recvfrom`.
pub data Datagram : Type 0 where
  datagram : Bytes → Address → Datagram
  nothing_there recv_error : Datagram

-- `network::IPv4Offset`, a constant of the network library, is the argument `at`.
abbrev pub loopback : Bytes
loopback = 0 ∷ 0 ∷ 0 ∷ 0 ∷ 0 ∷ 0 ∷ 0 ∷ 0 ∷ 0 ∷ 0 ∷ 255 ∷ 255 ∷ 127 ∷ 0 ∷ 0 ∷ 1 ∷ []

abbrev pub all_zero : Bytes → Bool
all_zero [] = true
all_zero (b ∷ bs) = b == 0 && all_zero bs

unfoldable pub or_loopback : ℕ → Address → Address
or_loopback at (ip, port) = (if all_zero (take 4 (drop at ip)) then loopback else ip, port)

-- `_recvPackets` for the descriptor of a handle.
unfoldable pub recv_packets : ℕ → ℕ → Datagram → GameServer → Handled
unfolding or_loopback get
recv_packets at h (datagram bytes from) gs =
    let endpoint = or_loopback at from in
    served (record gs {
      client_endpoints = insert h endpoint gs.client_endpoints;
      recv_packets =
          insert endpoint (get endpoint [] gs.recv_packets ++ bytes ∷ []) gs.recv_packets;
      endpoint_to_handle = insert endpoint h gs.endpoint_to_handle;
    })
recv_packets at h nothing_there gs = served gs
recv_packets at h recv_error gs = thrown gs

-- The buffers of one endpoint that are given to `sendto`; a failed `sendto` is only logged.
unfoldable pub sent_to : Address → List Bytes → List (Address × Bytes)
sent_to endpoint [] = []
sent_to endpoint (buf ∷ bufs) =
    let rest = sent_to endpoint bufs in
    if is_empty buf || endpoint.1 == 0 || all_zero endpoint.0 then rest else (endpoint, buf) ∷ rest

unfoldable pub sent_all : Dict Address (List Bytes) → List (Address × Bytes)
unfolding sent_to
sent_all [] = []
sent_all ((endpoint, bufs) ∷ rest) = sent_to endpoint bufs ++ sent_all rest

-- `_sendPackets(i)` for the descriptor `fd` at i: every endpoint's entry is erased.
unfoldable pub send_packets : ℕ → PollFd → GameServer → GameServer × List (Address × Bytes)
unfolding sent_all
send_packets i fd gs =
    if fd.rev_out && fd.handle == gs.sock
    then (record gs { send_spans = []; fds = clear_pollout i gs.fds }, sent_all gs.send_spans)
    else (gs, [])

-- The loop over `_endpoint_to_handle`, and the entries of it that stay.
unfoldable pub forget_endpoints : ℕ → Dict Address ℕ → GameServer → GameServer × Dict Address ℕ
forget_endpoints h [] gs = (gs, [])
forget_endpoints h ((endpoint, h') ∷ rest) gs =
    let (gs', kept) = forget_endpoints h rest (
      if h' == h
      then record gs {
        send_spans = erase endpoint gs.send_spans;
        endpoint_to_client = erase endpoint gs.endpoint_to_client;
      }
      else gs) in
    (gs', if h' == h then kept else (endpoint, h') ∷ kept)

unfoldable pub disconnect_by_handle : ℕ → GameServer → GameServer
unfolding forget_endpoints erase_socket has_fd erase_fd
disconnect_by_handle h gs =
    let (gs', kept) = forget_endpoints h gs.endpoint_to_handle gs in
    record gs' {
      sockets = erase_socket h gs.sockets;
      endpoint_to_handle = kept;
      fds = erase_fd h gs.fds;
      nfds = if has_fd h gs.fds then gs.nfds - 1 else gs.nfds;
    }

-- `_acceptClients`: none where `accept` throws.
unfoldable pub accept_clients : Option Socket → GameServer → GameServer
accept_clients none gs = gs
accept_clients (some s) gs = record gs {
  fds = gs.fds ++ fd ∷ [];
  sockets = insert gs.next_id s gs.sockets;
  nfds = gs.nfds + 1;
  next_id = (gs.next_id + 1) % 2 ^ 64;
}
  where
    fd : PollFd
    fd = record {
      handle = s.handle;
      pollin = true;
      pollout = true;
      rev_error = false;
      rev_in = false;
      rev_out = false;
    }

-- `get_clients_in_game`
unfoldable pub clients_in_game : ℕ → Dict ℕ ℕ → List ℕ
clients_in_game game_id [] = []
clients_in_game game_id ((client, gid) ∷ rest) =
    let others = clients_in_game game_id rest in if gid == game_id then client ∷ others else others

-- The first endpoint of a client.
unfoldable pub endpoint_of : ℕ → Dict Address ℕ → Option Address
endpoint_of client_id [] = none
endpoint_of client_id ((endpoint, cid) ∷ rest) =
    if cid == client_id then some endpoint else endpoint_of client_id rest

-- The numbers of a snapshot are by the endpoint, which is handle 0.
unfoldable pub snapshot_clients : ℕ → Bytes → List ℕ → GameServer → Handled
unfolding endpoint_of send_snapshot
snapshot_clients sequence state [] gs = served gs
snapshot_clients sequence state (client_id ∷ clients) gs =
    elim (endpoint_of client_id gs.endpoint_to_client) [
      | none ↦ snapshot_clients sequence state clients gs
      | some endpoint ↦ elim (send_snapshot endpoint 0 client_id sequence state gs) [
        | served gs' ↦ snapshot_clients sequence state clients gs'
        | thrown gs' ↦ thrown gs'
        | undefined ↦ undefined
      ]
    ]

-- What is sent of a game: none without both resources, or with an empty snapshot.
unfoldable pub snapshot_of : Game → Option (ℕ × Bytes)
snapshot_of game = elim game.snapshot [
  | none ↦ none
  | some state ↦ elim game.snapshot_sequence [
    | none ↦ none
    | some sequence ↦ if is_empty state then none else some (sequence, state)
  ]
]

unfoldable pub snapshot_games : Dict ℕ Game → GameServer → Handled
unfolding snapshot_clients snapshot_of clients_in_game
snapshot_games [] gs = served gs
snapshot_games ((game_id, game) ∷ rest) gs = elim (snapshot_of game) [
  | none ↦ snapshot_games rest gs
  | some (sequence, state) ↦
      elim (snapshot_clients sequence state (clients_in_game game_id gs.client_to_game) gs) [
        | served gs' ↦ snapshot_games rest gs'
        | thrown gs' ↦ thrown gs'
        | undefined ↦ undefined
      ]
]

unfoldable pub send_game_snapshots : GameServer → Handled
unfolding snapshot_games
send_game_snapshots gs = snapshot_games gs.game_instances gs

-- `app->tick()` belongs to the game engine.
unfoldable pub tick_games : (Game → Game) → Dict ℕ Game → Dict ℕ Game
tick_games tick [] = []
tick_games tick ((id, game) ∷ rest) = (id, tick game) ∷ tick_games tick rest

unfoldable pub game_loop_tick : (Game → Game) → GameServer → GameServer
unfolding tick_games
game_loop_tick tick gs = record gs { game_instances = tick_games tick gs.game_instances }

unfoldable pub cleanup_server : GameServer → GameServer
cleanup_server gs = record gs {
  send_spans = [];
  recv_packets = [];
  client_endpoints = [];
  tcp_recv_spans = [];
  tcp_send_spans = [];
  sockets = [];
  fds = [];
  nfds = 0;
  next_id = 0;
  is_running = false;
}
