-- ===== src/Gateway/Net.antt =====
-- The sockets' side of the gateway: server/src/Gateway/Recv.cpp, Send.cpp, Helpers.cpp and
-- Implementation.cpp. What the network library returns (a submodule) is an argument of each
-- operation: the bytes that `recv` gave, the results of `send`, the socket that `accept` made.
use r_type_server.Prelude.{
  ℕ, zero, suc, ◌+◌, ◌-◌, ◌%◌, ◌^◌, Bool, true, false, List, [], ◌∷◌, ◌++◌, Option, none, some, ltb,
  ◌&&◌, ◌||◌, not, ◌==◌, length, take, drop, if◌then◌else◌,
}
use r_type_server.Prelude.Dict.{Dict, nat_eq, endpoint_eq, lookup, insert, erase, get, is_empty}
use r_type_server.Wire.{Bytes}
use r_type_server.Gateway.State.{Gateway, PollFd, Socket, Address, max_buffer_size}
use r_type_server.Gateway.Packets.{build_simple_response}
use r_type_server.Gateway.Helpers.{queue}
use r_type_server.Gateway.Parse.{Outcome, done, threw, undefined, out_of_fuel, parse_packets}

-- `_recvPackets`: none where `recv` returns 0 or less.
unfoldable pub recv_packets : ℕ → Option Bytes → Gateway → Outcome
unfolding get
recv_packets h received gw = elim received [
  | none ↦ threw gw
  | some bytes ↦
      let accum = get h [] gw.recv_spans ++ bytes in
      let gw' = record gw { recv_spans = insert h accum gw.recv_spans } in
      if ltb max_buffer_size (length accum) then threw gw' else done gw'
]

pub record SendBuf : Type 0 where
  pub bytes : Bytes
  pub offset : ℕ

unfoldable pub prepare_send_queue : List Bytes → List SendBuf
prepare_send_queue [] = []
prepare_send_queue (buf ∷ bufs) =
    let rest = prepare_send_queue bufs in
    if is_empty buf then rest else record { bytes = buf; offset = 0 } ∷ rest

-- One result for each call of `send`, none for a negative one. The second part is what the peer
-- receives. Where the results end, so does the time of this call.
unfoldable pub process_send_queue : List (Option ℕ) → List SendBuf → List SendBuf × Bytes
process_send_queue results [] = ([], [])
process_send_queue [] (b ∷ q) = (b ∷ q, [])
process_send_queue (none ∷ results) (b ∷ q) = (b ∷ q, [])
process_send_queue (some sent ∷ results) (b ∷ q) =
    let b' = record b { offset = b.offset + sent } in
    let wire = take sent (drop b.offset b.bytes) in
    let (q', wire') = process_send_queue results q in
    if b.offset + sent == length b.bytes then (q', wire ++ wire') else (b' ∷ q, wire)

unfoldable pub update_send_buffers : List SendBuf → List Bytes
update_send_buffers [] = []
update_send_buffers (b ∷ q) =
    let rest = update_send_buffers q in
    if ltb b.offset (length b.bytes) then drop b.offset b.bytes ∷ rest else rest

-- `_fds[i].events &= ~POLLOUT`
unfoldable pub clear_pollout : ℕ → List PollFd → List PollFd
clear_pollout i [] = []
clear_pollout zero (fd ∷ fds) = record fd { pollout = false } ∷ fds
clear_pollout (suc i) (fd ∷ fds) = fd ∷ clear_pollout i fds

-- The buffers of one peer through a send.
unfoldable pub flush : List (Option ℕ) → List Bytes → List Bytes × Bytes
unfolding prepare_send_queue process_send_queue update_send_buffers
flush results bufs =
    let (q, wire) = process_send_queue results (prepare_send_queue bufs) in
    (update_send_buffers q, wire)

-- `_sendPackets(i)` for the descriptor `fd` at i.
unfoldable pub send_packets : ℕ → PollFd → List (Option ℕ) → Gateway → Gateway × Bytes
unfolding flush clear_pollout
send_packets i fd results gw =
    if not fd.rev_out then (gw, []) else elim (lookup fd.handle gw.send_spans) [
      | none ↦ (gw, [])
      | some [] ↦ (record gw { fds = clear_pollout i gw.fds }, [])
      | some (buf ∷ bufs) ↦
          (let (left, wire) = flush results (buf ∷ bufs) in
            (record gw { send_spans = insert fd.handle left gw.send_spans }, wire))
    ]

-- `sendOccupancyRequests`: the loop over the keys of `_gs_registry`.
unfoldable pub keepalives : Dict Address ℕ → Gateway → Gateway
unfolding queue
keepalives [] gw = gw
keepalives ((key, _) ∷ rest) gw = elim (lookup key gw.gs_addr_to_handle) [
  | none ↦ keepalives rest gw
  | some h ↦ keepalives rest (queue h (build_simple_response 21) gw)
]

unfoldable pub send_occupancy_requests : Gateway → Gateway
unfolding keepalives
send_occupancy_requests gw = keepalives gw.gs_registry gw

-- The socket that `find_if` meets first.
unfoldable pub erase_socket : ℕ → Dict ℕ Socket → Dict ℕ Socket
erase_socket h [] = []
erase_socket h ((id, s) ∷ rest) = if s.handle == h then rest else (id, s) ∷ erase_socket h rest

-- The loop over `_gs_addr_to_handle`: the registry and the entries that stay.
unfoldable pub forget_gs : ℕ → Dict Address ℕ → Dict Address ℕ → Dict Address ℕ × Dict Address ℕ
forget_gs h [] registry = (registry, [])
forget_gs h ((key, h') ∷ rest) registry =
    let (registry', kept) = forget_gs h rest (if h' == h then erase key registry else registry) in
    (registry', if h' == h then kept else (key, h') ∷ kept)

unfoldable pub has_fd : ℕ → List PollFd → Bool
has_fd h [] = false
has_fd h (fd ∷ fds) = fd.handle == h || has_fd h fds

unfoldable pub erase_fd : ℕ → List PollFd → List PollFd
erase_fd h [] = []
erase_fd h (fd ∷ fds) = if fd.handle == h then fds else fd ∷ erase_fd h fds

unfoldable pub disconnect_by_handle : ℕ → Gateway → Gateway
unfolding erase_socket forget_gs has_fd erase_fd
disconnect_by_handle h gw =
    let (registry, kept) = forget_gs h gw.gs_addr_to_handle gw.gs_registry in
    record gw {
      sockets = erase_socket h gw.sockets;
      recv_spans = erase h gw.recv_spans;
      send_spans = erase h gw.send_spans;
      gs_registry = registry;
      gs_addr_to_handle = kept;
      fds = erase_fd h gw.fds;
      nfds = if has_fd h gw.fds then gw.nfds - 1 else gw.nfds;
    }

-- `_acceptClients`: none where `accept` throws, which is logged.
unfoldable pub accept_clients : Option Socket → Gateway → Gateway
accept_clients none gw = gw
accept_clients (some s) gw = record gw {
  fds = gw.fds ++ fd ∷ [];
  sockets = insert gw.next_id s gw.sockets;
  nfds = gw.nfds + 1;
  next_id = (gw.next_id + 1) % 2 ^ 64;
}
  where
    fd : PollFd
    fd = record {
      handle = s.handle;
      pollin = true;
      pollout = true;
      rev_error = false;
      rev_in = false;
      rev_out = false;
    }

-- Where the loop over the descriptors goes on: the state and the index before its `++i`.
pub data Turn : Type 0 where
  turn : Gateway → ℕ → Turn
  fault : Turn
  stuck : Turn

-- `--i` on an unsigned index.
abbrev pub back : ℕ → ℕ
back i = (i + 2 ^ 64 - 1) % 2 ^ 64

-- The `try` and `catch` of `_handleClients(i)`, for the handle at i. An exception of `_parsePackets`
-- costs this client its connection, whoever sent the packet.
unfoldable pub drop_on_throw : ℕ → ℕ → Outcome → Turn
unfolding disconnect_by_handle
drop_on_throw i h (done gw) = turn gw i
drop_on_throw i h (threw gw) = turn (disconnect_by_handle h gw) (back i)
drop_on_throw i h undefined = fault
drop_on_throw i h out_of_fuel = stuck

unfoldable pub recv_and_parse : ℕ → Option Bytes → Gateway → Outcome
recv_and_parse h received gw = elim (recv_packets h received gw) [
  | done gw' ↦ parse_packets gw'
  | threw gw' ↦ threw gw'
  | undefined ↦ undefined
  | out_of_fuel ↦ out_of_fuel
]

unfoldable pub handle_clients : ℕ → ℕ → Option Bytes → Gateway → Turn
unfolding recv_and_parse drop_on_throw
handle_clients i h received gw = drop_on_throw i h (recv_and_parse h received gw)

-- What the network does in one turn.
pub record Io : Type 0 where
  pub received : Option Bytes
  pub accepted : Option Socket
  pub sends : List (Option ℕ)

-- `_handleLoop(i)` for the descriptor `fd` at i. `_sendPackets` throws nothing.
unfoldable pub handle_loop : ℕ → PollFd → Io → Gateway → Turn
unfolding handle_clients accept_clients send_packets
handle_loop i fd io gw =
    if fd.rev_error
    then turn (disconnect_by_handle fd.handle gw) (back i)
    else if fd.rev_in
    then if fd.handle == gw.sock
      then turn (accept_clients io.accepted gw) i
      else handle_clients i fd.handle io.received gw
    else if fd.rev_out && not (fd.handle == gw.sock)
    then turn (send_packets i fd io.sends gw).0 i
    else turn gw i
