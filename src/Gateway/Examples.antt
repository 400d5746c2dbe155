-- ===== src/Gateway/Examples.antt =====
-- The gateway at work on a small network: two game servers, three games, and a few clients.
use r_type_server.Prelude.{
  ℕ, ◌≡◌, ◌≤◌, refl, true, false, [], ◌∷◌, ◌++◌, none, some, arith, ◌≢◌, leb, if◌then◌else◌,
}
use r_type_server.Prelude.Dict.{nat_eq, endpoint_eq, lookup, contains, insert, get}
use r_type_server.Wire.{ok, oob, be_bytes}
use r_type_server.Gateway.State.{Gateway, PollFd, Socket, Address, fresh, max_parse_errors}
use r_type_server.Gateway.Packets.{get_header, build_header}
use r_type_server.Gateway.Helpers.{send_to, find_least_occupied_gs}
use r_type_server.Gateway.Commands.{handle_join, handle_gs_registration}
use r_type_server.Gateway.Parse.{parse_packets, parse_packet, parse_buffer, parse_spans, threw}
use r_type_server.Gateway.Net.{
  recv_packets, flush, handle_loop, handle_clients, Turn, turn, accept_clients,
  send_occupancy_requests, Io,
}
use r_type_server.Gateway.Progress.{Ends, parse_buffer-Ends}
use r_type_server.Gateway.Header.{verdict, get_header-verdict}
use r_type_server.Gateway.Safety.{parse_packet-safe, handle_join-oob}
use r_type_server.Gateway.Partial.{one_more, parse_spans-partial}
use r_type_server.Gateway.Balance.{find_least_occupied_gs-least, load_of}
use r_type_server.Gateway.Outbox.{outbox}
use r_type_server.Gateway.Flush.{stream, flush-stream}
use r_type_server.Gateway.Joins.{parse_packet-join, parse_packet-create, join_answer, create_answer}
use r_type_server.Gateway.Server.{start_server, Reach, here, next, turned, polled, listener, Polled}
use r_type_server.Gateway.Consistent.{Inv}
use r_type_server.Gateway.Open.{Open}
use r_type_server.Gateway.Turns.{Concluded, handle_loop-Concluded}
use r_type_server.Gateway.Keepalive.{requests, send_occupancy_requests-outbox}
use r_type_server.Gateway.Reachable.{Reach-Inv}

-- 127.0.0.1 and 127.0.0.2, mapped to IPv6.
abbrev pub first : Address
first = (0 ∷ 0 ∷ 0 ∷ 0 ∷ 0 ∷ 0 ∷ 0 ∷ 0 ∷ 0 ∷ 0 ∷ 255 ∷ 255 ∷ 127 ∷ 0 ∷ 0 ∷ 1 ∷ [], 4242)

abbrev pub second : Address
second = (0 ∷ 0 ∷ 0 ∷ 0 ∷ 0 ∷ 0 ∷ 0 ∷ 0 ∷ 0 ∷ 0 ∷ 255 ∷ 255 ∷ 127 ∷ 0 ∷ 0 ∷ 2 ∷ [], 4243)

abbrev pub fd_of : ℕ → PollFd
fd_of h = record {
  handle = h;
  pollin = true;
  pollout = false;
  rev_error = false;
  rev_in = true;
  rev_out = true;
}

abbrev pub network : Gateway
network = record fresh {
  is_init = true;
  is_running = true;
  sock = 4;
  nfds = 4;
  fds = fd_of 4 ∷ fd_of 7 ∷ fd_of 8 ∷ fd_of 9 ∷ [];
  gs_registry = (first, 1) ∷ (second, 1) ∷ [];
  gs_addr_to_handle = (first, 7) ∷ (second, 8) ∷ [];
  occupancy_cache = (first, 3) ∷ (second, 1) ∷ [];
  game_to_gs = (5, first) ∷ [];
  recv_spans = (9, 0x42 ∷ []) ∷ [];
}

-- The server of `second` owes the client 9 the answer to its CREATE.
abbrev pub waiting_network : Gateway
waiting_network = record network { pending_creates = (8, (9, 1)) ∷ [] }

network-Inv : Inv network
unfolding contains lookup
network-Inv = record {
  agree = ((refl, (refl, tt)), λ k. ground arith);
  counted = refl;
  bounded = (omega arith, tt);
}

get_header-verdict_example :
    get_header (1 ∷ 0x42 ∷ 0x57 ∷ 2 ∷ 0 ∷ 3 ∷ []) 1 ≡ verdict 1 0x42 0x57 2 3
get_header-verdict_example =
    get_header-verdict (1 ∷ []) 0x42 0x57 2 0 3 [] (omega arith) (omega arith) (omega arith)

parse_buffer-Ends_example :
    Ends
      (0x42 ∷ 0x57 ∷ 1 ∷ 0 ∷ 2 ∷ 0x42 ∷ [])
      0
      (parse_buffer 6 9 network (0x42 ∷ 0x57 ∷ 1 ∷ 0 ∷ 2 ∷ 0x42 ∷ []) 0)
parse_buffer-Ends_example =
    parse_buffer-Ends 6 9 network (0x42 ∷ 0x57 ∷ 1 ∷ 0 ∷ 2 ∷ 0x42 ∷ []) 0 (omega arith)
      (omega arith)

parse_packet-safe_example :
    parse_packet 9 waiting_network (0x42 ∷ 0x57 ∷ 1 ∷ 0 ∷ 1 ∷ 0 ∷ []) 0 ≢ oob
unfolding lookup
parse_packet-safe_example =
    parse_packet-safe 9 waiting_network (0x42 ∷ 0x57 ∷ 1 ∷ 0 ∷ 1 ∷ 0 ∷ []) 0 (omega arith) refl

handle_join-oob_example :
    handle_join 8 waiting_network (0x42 ∷ 0x57 ∷ 1 ∷ 0 ∷ 1 ∷ 0 ∷ 0 ∷ 0 ∷ 5 ∷ 9 ∷ []) 4 ≡ oob
unfolding lookup
handle_join-oob_example =
    handle_join-oob 8 9 1 waiting_network (0x42 ∷ 0x57 ∷ 1 ∷ 0 ∷ 1 ∷ 0 ∷ 0 ∷ 0 ∷ 5 ∷ 9 ∷ []) 4 refl
      refl (omega arith) (omega arith)

parse_spans-partial_example :
    (gw' : Gateway) × (parse_spans ((9, build_header 1 0 ++ (0 ∷ 0 ∷ 0 ∷ [])) ∷ []) network
      ≡ (if leb max_parse_errors (one_more 9 network) then threw gw' else parse_spans [] gw'))
    × (get 9 0 gw'.parse_errors ≡ one_more 9 network)
    × (get 9 [] gw'.recv_spans ≡ (
        if leb max_parse_errors (one_more 9 network)
        then get 9 [] network.recv_spans
        else 1 ∷ 0 ∷ 0 ∷ 0 ∷ []))
parse_spans-partial_example = parse_spans-partial 1 9 network (0 ∷ 0 ∷ 0 ∷ []) [] (omega arith)

find_least_occupied_gs-least_example :
    (contains second network.gs_registry ≡ true) × (load_of second network ≤ load_of first network)
unfolding find_least_occupied_gs contains
find_least_occupied_gs-least_example = find_least_occupied_gs-least network second first refl refl

abbrev quiet : Io
quiet = record { received = none; accepted = none; sends = [] }

send_occupancy_requests-outbox_example :
    (outbox 7 (send_occupancy_requests network)
      ≡ outbox 7 network ++ requests 7 network.gs_addr_to_handle network.gs_registry)
    × ((send_occupancy_requests network).fds ≡ network.fds)
send_occupancy_requests-outbox_example = send_occupancy_requests-outbox 7 network

handle_loop-Concluded_example :
    Concluded (handle_loop 3 (fd_of 9) (record quiet { received = some (1 ∷ 2 ∷ []) }) network)
handle_loop-Concluded_example =
    handle_loop-Concluded 3 (fd_of 9) (record quiet { received = some (1 ∷ 2 ∷ []) }) network

flush-stream_example :
    (flush (some 2 ∷ some 1 ∷ none ∷ []) ((1 ∷ 2 ∷ []) ∷ [] ∷ (3 ∷ 4 ∷ []) ∷ [])).1
      ++ stream (flush (some 2 ∷ some 1 ∷ none ∷ []) ((1 ∷ 2 ∷ []) ∷ [] ∷ (3 ∷ 4 ∷ []) ∷ [])).0
    ≡ stream ((1 ∷ 2 ∷ []) ∷ [] ∷ (3 ∷ 4 ∷ []) ∷ [])
flush-stream_example =
    flush-stream (some 2 ∷ some 1 ∷ none ∷ []) ((1 ∷ 2 ∷ []) ∷ [] ∷ (3 ∷ 4 ∷ []) ∷ [])

parse_packet-join_example :
    parse_packet 9 network ((7 ∷ []) ++ (build_header 1 0 ++ (be_bytes 4 5 ++ (8 ∷ [])))) 1
    ≡ ok (send_to 9 (join_answer 5 network) network) 10
unfolding lookup
parse_packet-join_example = parse_packet-join (7 ∷ []) 9 0 5 network (8 ∷ []) (omega arith) refl

parse_packet-create_example :
    parse_packet 9 network ((7 ∷ []) ++ (build_header 3 0 ++ (1 ∷ []))) 1
    ≡ ok (create_answer 9 1 network) 7
parse_packet-create_example = parse_packet-create (7 ∷ []) 9 0 1 network []

-- The first turn of a new server: a client is accepted.
abbrev started_gateway : Gateway
started_gateway = record fresh {
  is_init = true;
  is_running = true;
  sock = 4;
  fds = listener 4 ∷ [];
}

abbrev first_client : Socket
first_client = record { handle = 9; endpoint = first }

abbrev with_client : Gateway
with_client = accept_clients (some first_client) (record started_gateway { fds = fd_of 4 ∷ [] })

accept_a_client : Reach started_gateway with_client
unfolding handle_loop
accept_a_client =
    next (next here (polled (fd_of 4 ∷ []) (Polled.fd (listener 4) false true true Polled.end))) (
      turned 0 (fd_of 4) (record quiet { accepted = some first_client }) with_client 0 (omega arith)
        refl refl)

-- The client at 9 tells that it is the server `first`.
abbrev registering : Io
registering = record quiet {
  received = some (build_header 20 0 ++ (first.0 ++ be_bytes 2 first.1));
}

abbrev after : Turn → Gateway
after (turn gw i) = gw
after _ = started_gateway

abbrev client_fd : PollFd
client_fd = record (fd_of 9) { pollout = true }

abbrev with_events : Gateway
with_events = record with_client { fds = fd_of 4 ∷ client_fd ∷ [] }

abbrev with_server : Gateway
with_server = after (handle_loop 1 client_fd registering with_events)

Reach-events : Reach started_gateway with_events
unfolding accept_clients
Reach-events = next accept_a_client (
    polled (fd_of 4 ∷ client_fd ∷ []) (
      Polled.fd (fd_of 4) false true true (
        Polled.fd (record client_fd { rev_error = false; rev_in = false; rev_out = false }) false
          true true Polled.end)))

register_a_server : handle_loop 1 client_fd registering with_events ≡ turn with_server 1
unfolding handle_loop handle_clients recv_packets build_header be_bytes parse_packets insert
    get_header handle_gs_registration
register_a_server = refl

Reach-Inv_example : Inv with_server × Open with_server
unfolding start_server accept_clients
Reach-Inv_example = Reach-Inv 4 started_gateway with_server refl (
    next Reach-events
      (turned 1 client_fd registering with_server 1 (omega arith) refl register_a_server))
