-- ===== src/GameServer/RunExamples.antt =====
-- A game server that a client joins, from its start on.
use r_type_server.Prelude.{ℕ, ◌≡◌, refl, true, false, [], ◌∷◌, List, some, arith}
use r_type_server.Prelude.Dict.{nat_eq, endpoint_eq, lookup}
use r_type_server.Gateway.State.{PollFd}
use r_type_server.Gateway.Server.{Polled, listener}
use r_type_server.Gateway.Examples.{first, second}
use r_type_server.GameServer.State.{GameServer, AuthChallenge}
use r_type_server.GameServer.Sessions.{Clock, mac_data}
use r_type_server.GameServer.Handshake.{join_packet, auth_packet}
use r_type_server.GameServer.Auth.{Has}
use r_type_server.GameServer.Loop.{datagram}
use r_type_server.GameServer.Link.{again, send_gs_registration, send_tcp}
use r_type_server.GameServer.Server.{
  World, Turn, turn, lost, fault, Started, started, failed, init_server, handle_loop,
}
use r_type_server.Prelude.Dict.{insert}
use r_type_server.Wire.{be_bytes}
use r_type_server.Gateway.Packets.{game_id_of}
use r_type_server.GameServer.Udp.{build_header}
use r_type_server.GameServer.Loop.{recv_packets}
use r_type_server.GameServer.Sessions.{
  client_handle, reset_numbers, associate, session, send_datagram,
}
use r_type_server.GameServer.Handlers.{
  is_challenged, handle_udp_join, challenge_client, handle_udp_auth_response, check_cookie,
  find_timestamp, authenticate,
}
use r_type_server.GameServer.Datagrams.{
  parse_packets, dispatch_datagram, cleanup_endpoints, expire_endpoint, is_expired, cleanup_handles,
  is_authenticated,
}
use r_type_server.GameServer.Run.{hears, fresh, Reach, here, next, polled, turned}
use r_type_server.GameServer.Origins.{attempts_of, Earned, Reach-Earned, Reach-Untried}
use r_type_server.GameServer.Examples.{padding_crypto, noon, soon, header_of, small_game, pad}

abbrev server_of : Started → GameServer
server_of (started gs) = gs
server_of (failed gs) = gs

abbrev after : Turn → GameServer
after (turn gs i) = gs
after (lost gs) = gs
after fault = fresh first second

abbrev new_server : GameServer
new_server = server_of (init_server (some 3) (some 4) (fresh first second))

started_new : init_server (some 3) (some 4) (fresh first second) ≡ started new_server
unfolding init_server
started_new = refl

abbrev readable : PollFd
readable = record (listener 3) { rev_in = true }

-- The registration waits for the gateway.
abbrev sending : PollFd
sending = record (listener 4) { pollout = true }

-- The same when a datagram waits to be sent, before the next poll.
abbrev answering : PollFd
answering = record readable { pollout = true }

-- The UDP socket has something to read.
abbrev heard : GameServer
heard = record new_server { fds = readable ∷ sending ∷ [] }

abbrev world_of : Clock → List ℕ → World
world_of clock packet = record {
  crypto = padding_crypto;
  clock = clock;
  ipv4_offset = 12;
  datagram = datagram packet first;
  received = again;
  sends = [];
  new_game = small_game;
}

abbrev joining : World
joining = world_of noon (join_packet (header_of 7) 9 1)

abbrev authenticating : World
authenticating = world_of soon (auth_packet (header_of 10) 9 (pad (mac_data first 9 1700000000)))

abbrev joined : GameServer
joined = after (handle_loop 0 readable joining heard)

abbrev welcomed : GameServer
welcomed = after (handle_loop 0 answering authenticating joined)

first_poll : Reach new_server [] heard
unfolding init_server send_gs_registration send_tcp
first_poll = next here (
    polled (readable ∷ sending ∷ [])
      (Polled.fd (listener 3) false true false (Polled.fd sending false false false Polled.end)))

first_turn : handle_loop 0 readable joining heard ≡ turn joined 0
unfolding handle_loop init_server send_gs_registration send_tcp recv_packets parse_packets insert
    build_header be_bytes dispatch_datagram handle_udp_join game_id_of cleanup_endpoints
    challenge_client client_handle reset_numbers associate expire_endpoint is_expired
    cleanup_handles
first_turn = refl

abbrev waiting_entry : AuthChallenge
waiting_entry = record { timestamp = 10000000000; attempts = 0 }

-- The same socket has the answer, and what there is after it.
second_turn :
    (handle_loop 0 answering authenticating joined ≡ turn welcomed 0)
    × Has first welcomed
    × (lookup first welcomed.ep_auth_states ≡ some waiting_entry)
unfolding handle_loop init_server send_gs_registration send_tcp recv_packets parse_packets insert
    build_header be_bytes dispatch_datagram handle_udp_join game_id_of cleanup_endpoints
    challenge_client client_handle reset_numbers associate expire_endpoint is_expired
    cleanup_handles session handle_udp_auth_response check_cookie find_timestamp authenticate
    send_datagram is_authenticated lookup mac_data is_challenged
second_turn = (refl, refl, refl)

two_turns : Reach new_server (authenticating ∷ joining ∷ []) welcomed
unfolding handle_loop init_server send_gs_registration send_tcp recv_packets parse_packets insert
    build_header be_bytes dispatch_datagram handle_udp_join game_id_of cleanup_endpoints
    challenge_client client_handle reset_numbers associate expire_endpoint is_expired
    cleanup_handles hears
two_turns =
    next (next first_poll (turned 0 readable joining joined 0 (omega arith) refl first_turn))
      (turned 0 answering authenticating welcomed 0 (omega arith) refl second_turn.0)

Reach-Earned_example : Earned (authenticating ∷ joining ∷ []) first
Reach-Earned_example =
    Reach-Earned 3 4 first second new_server welcomed (authenticating ∷ joining ∷ []) first
      started_new two_turns second_turn.1

Reach-Untried_example :
    (welcomed.client_ids ≡ [])
    × (welcomed.auth_states ≡ [])
    × (attempts_of (lookup first welcomed.ep_auth_states) ≡ 0)
Reach-Untried_example =
    Reach-Untried 3 4 first second new_server welcomed (authenticating ∷ joining ∷ []) first
      started_new two_turns
