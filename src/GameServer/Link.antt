-- ===== src/GameServer/Link.antt =====
-- The connection to the gateway: server/src/GameServer/TcpGateway.cpp and the handlers of
-- ParsePackets.cpp that it calls. What `recv` and `send` return is an argument.
use r_type_server.Prelude.{
  ℕ, zero, suc, ◌+◌, ◌%◌, ◌^◌, Bool, true, false, ◌&&◌, ◌||◌, List, [], ◌∷◌, ◌++◌, Option, none,
  some, ltb, leb, ◌==◌, length, drop, if◌then◌else◌,
}
use r_type_server.Prelude.Dict.{nat_eq, endpoint_eq, lookup, insert, contains, get, is_empty}
use r_type_server.Wire.{Bytes, ok, err, oob}
use r_type_server.Gateway.State.{PollFd}
use r_type_server.Gateway.Helpers.{set_pollout}
use r_type_server.Gateway.Net.{flush}
use r_type_server.GameServer.State.{GameServer, Game, max_buffer_size}
use r_type_server.GameServer.Packets.{
  parse_header, build_gs_registration, build_occupancy, build_create_ko, build_join_response,
}

-- `_tcp_send_spans[h].push_back(packet)` and POLLOUT for the handle.
unfoldable pub send_tcp : ℕ → Bytes → GameServer → GameServer
unfolding get set_pollout
send_tcp h packet gs = record gs {
  tcp_send_spans = insert h (get h [] gs.tcp_send_spans ++ packet ∷ []) gs.tcp_send_spans;
  fds = set_pollout h gs.fds;
}

-- What `recv` returned: bytes, the end of the stream, EAGAIN or EWOULDBLOCK, or another error.
pub data Received : Type 0 where
  bytes : Bytes → Received
  closed again failed : Received

-- The state, and whether an exception was thrown.
unfoldable pub recv_tcp_packets : Received → GameServer → GameServer × Bool
unfolding get
recv_tcp_packets (bytes bs) gs =
    let accum = get gs.tcp_handle [] gs.tcp_recv_spans ++ bs in
    (
      record gs { tcp_recv_spans = insert gs.tcp_handle accum gs.tcp_recv_spans },
      ltb max_buffer_size (length accum),
    )
recv_tcp_packets closed gs = (gs, true)
recv_tcp_packets again gs = (gs, false)
recv_tcp_packets failed gs = (gs, true)

-- `fd.events &= ~POLLOUT` for the first descriptor with the handle.
unfoldable pub clear_pollout_of : ℕ → List PollFd → List PollFd
clear_pollout_of h [] = []
clear_pollout_of h (fd ∷ fds) =
    if fd.handle == h then record fd { pollout = false } ∷ fds else fd ∷ clear_pollout_of h fds

-- `prepareTcpSendQueue`, `processTcpSendQueue` and `updateTcpSendBuffers` are the gateway's.
abbrev pub flush_tcp : List (Option ℕ) → List Bytes → List Bytes × Bytes
flush_tcp = flush

unfoldable pub send_tcp_packets : List (Option ℕ) → GameServer → GameServer × Bytes
unfolding clear_pollout_of
send_tcp_packets results gs = elim (lookup gs.tcp_handle gs.tcp_send_spans) [
  | none ↦ (gs, [])
  | some bufs ↦
      if is_empty bufs
      then (record gs { fds = clear_pollout_of gs.tcp_handle gs.fds }, [])
      else (let (left, wire) = flush_tcp results bufs in
          (record gs { tcp_send_spans = insert gs.tcp_handle left gs.tcp_send_spans }, wire))
]

-- `generate_unique_game_id`
unfoldable pub next_game : GameServer → GameServer
next_game gs = record gs { next_game_id = (gs.next_game_id + 1) % 2 ^ 32 }

-- `_game_instances.emplace`: an entry that is there stays.
unfoldable pub emplace_game : ℕ → Game → GameServer → GameServer
unfolding contains
emplace_game id game gs =
    if contains id gs.game_instances
    then gs
    else record gs { game_instances = insert id game gs.game_instances }

-- `handleCreate`, with the application that `init` makes, and the offset after it.
unfoldable pub handle_create : Game → ℕ → Bytes → ℕ → GameServer → GameServer × ℕ
unfolding send_tcp next_game emplace_game
handle_create game h d o gs =
    if ltb (length d) (o + 2) then (send_tcp h build_create_ko gs, o) else (
      send_tcp h (build_join_response gs.next_game_id gs.external_endpoint.0 gs.external_endpoint.1)
          (emplace_game gs.next_game_id game (next_game gs)),
      o + 2,
    )

-- `_handleOccupancyRequest`, or none where it throws. The occupancy is a constant so far.
unfoldable pub handle_occupancy_request : Bytes → ℕ → GameServer → Option (GameServer × ℕ)
unfolding send_tcp
handle_occupancy_request d o gs =
    if ltb (length d) (o + 1)
    then none
    else some (send_tcp gs.tcp_handle (build_occupancy 0) gs, o + 1)

-- The `switch`, with the offset at the command byte; the default case only logs.
unfoldable pub dispatch_tcp : Game → ℕ → Bytes → ℕ → GameServer → Option (GameServer × ℕ)
unfolding handle_create handle_occupancy_request
dispatch_tcp game cmd d o gs =
    if cmd == 21 || cmd == 22
    then some (gs, o + 1)
    else if cmd == 23
    then handle_occupancy_request d o gs
    else if cmd == 3
    then some (handle_create game gs.tcp_handle d o gs)
    else some (gs, o)

-- The loop of `_parseTcpPackets`, which an exception ends. A header takes four bytes at least, so the
-- length of the buffer is fuel enough; none is a read past the buffer or no more fuel.
unfoldable pub parse_tcp_buffer : ℕ → Game → Bytes → ℕ → GameServer → Option (GameServer × ℕ)
unfolding dispatch_tcp
parse_tcp_buffer zero game d o gs = if ltb o (length d) then none else some (gs, o)
parse_tcp_buffer (suc fuel) game d o gs = elim (ltb o (length d)) [
  | false ↦ some (gs, o)
  | true ↦ elim (parse_header d o) [
    | oob ↦ none
    | err e o' ↦ some (gs, o')
    | ok cmd o' ↦ elim (dispatch_tcp game cmd d o' gs) [
      | none ↦ some (gs, o')
      | some (gs', o'') ↦ parse_tcp_buffer fuel game d o'' gs'
    ]
  ]
]

-- `if (offset > 0 && offset <= buf.size()) buf.erase(…)`
unfoldable pub erase_tcp : Bytes → GameServer × ℕ → GameServer
erase_tcp d (gs, o) =
    let left = if ltb 0 o && leb o (length d) then drop o d else d in
    record gs { tcp_recv_spans = insert gs.tcp_handle left gs.tcp_recv_spans }

unfoldable pub parse_tcp_packets : Game → GameServer → Option GameServer
unfolding parse_tcp_buffer erase_tcp
parse_tcp_packets game gs = elim (lookup gs.tcp_handle gs.tcp_recv_spans) [
  | none ↦ some gs
  | some d ↦ elim (parse_tcp_buffer (length d) game d 0 gs) [
    | none ↦ none
    | some end ↦ some (erase_tcp d end)
  ]
]

unfoldable pub send_gs_registration : GameServer → GameServer
unfolding send_tcp
send_gs_registration gs =
    send_tcp gs.tcp_handle (build_gs_registration gs.base_endpoint.0 gs.base_endpoint.1) gs
