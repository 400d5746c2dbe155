-- ===== src/GameServer/Examples.antt =====
-- The game server at work: a client that joins, and the packets around it.
use r_type_server.Prelude.{
  if◌then◌else◌, ◌==◌, ◌%◌, ◌^◌, ◌+◌, ◌↔◌, ℕ, zero, suc, ◌+◌, ◌*◌, ◌/◌, ◌%◌, ◌^◌, ◌≡◌, inl, refl,
  true, [], ◌∷◌, ◌++◌, none, some, arith, length, take, length-take, length-append,
}
use r_type_server.Prelude.Dict.{nat_eq, endpoint_eq, lookup, get, contains}
use r_type_server.Wire.{Bytes}
use r_type_server.Gateway.Packets.{build_create_msg}
use r_type_server.Gateway.Examples.{first, second, fd_of}
use r_type_server.GameServer.State.{GameServer, Game, LatencyMetrics, challenged, authenticated}
use r_type_server.GameServer.Packets.{build_join_response}
use r_type_server.GameServer.Udp.{
  Header, build_header, Numbers, build_challenge_with_cookie, fragments_from, build_snapshot,
}
use r_type_server.GameServer.Snapshots.{Carry, fragments_from-Carry, IsCut, build_snapshot-IsCut}
use r_type_server.GameServer.Sessions.{
  undefined, Crypto, Clock, served, client_handle, shared_secret,
}
use r_type_server.GameServer.Handlers.{note_received}
use r_type_server.GameServer.Datagrams.{
  parse_datagram, is_authenticated, cleanup_expired_auth_challenges,
}
use r_type_server.GameServer.Link.{parse_tcp_buffer, again}
use r_type_server.GameServer.Loop.{recv_error}
use r_type_server.GameServer.Server.{World, handle_loop, fault}
use r_type_server.GameServer.Auth.{Has}
use r_type_server.GameServer.Gate.{parse_datagram-gated}
use r_type_server.GameServer.Handshake.{Works, join_packet, auth_packet}
use r_type_server.GameServer.Joined.{handshake}
use r_type_server.GameServer.Kept.{Ends}
use r_type_server.GameServer.Expiry.{
  SomeOld, cleanup_expired_auth_challenges-undefined, note_received-header,
}
use r_type_server.GameServer.Games.{Within, parse_tcp_buffer-Within, parse_tcp_buffer-create}
use r_type_server.GameServer.Faults.{handle_loop-fault}

-- A MAC and a key derivation of 32 bytes that depend on what they are given.
abbrev nothing_more : Bytes
nothing_more =
    0 ∷ 0 ∷ 0 ∷ 0 ∷ 0 ∷ 0 ∷ 0 ∷ 0 ∷ 0 ∷ 0 ∷ 0 ∷ 0 ∷ 0 ∷ 0 ∷ 0 ∷ 0 ∷ 0 ∷ 0 ∷ 0 ∷ 0 ∷ 0 ∷ 0 ∷ 0 ∷ 0
    ∷ 0 ∷ 0 ∷ 0 ∷ 0 ∷ 0 ∷ 0 ∷ 0 ∷ 0 ∷ []

abbrev pub pad : Bytes → Bytes
pad x = take 32 (x ++ nothing_more)

length-pad : (x : Bytes) → length (pad x) ≡ 32
length-pad x = omega (arith, length-take 32 (x ++ nothing_more), length-append x nothing_more)

abbrev pub padding_crypto : Crypto
padding_crypto = record {
  hmac = λ key x. some (pad x);
  derive_key = λ key x. some (pad (key ++ x));
  env_secret = [];
}

abbrev padding_works : Works padding_crypto
padding_works = record {
  mac = pad;
  key = λ x. pad (shared_secret padding_crypto ++ x);
  hmac = λ x. refl;
  length-mac = length-pad;
  derive_key = λ x. refl;
}

abbrev pub small_game : Game
small_game = record {
  slot_events = some [];
  input_events = some [];
  snapshot = none;
  snapshot_sequence = none;
}

abbrev server : GameServer
server = record {
  fds = fd_of 3 ∷ fd_of 4 ∷ [];
  nfds = 2;
  sock = 3;
  sockets = [];
  tcp_handle = 4;
  is_running = true;
  next_id = 0;
  base_endpoint = first;
  external_endpoint = second;
  send_spans = [];
  recv_packets = [];
  tcp_recv_spans = [];
  tcp_send_spans = [];
  parse_errors = [];
  client_ids = [];
  endpoint_to_handle = (first, 3) ∷ [];
  endpoint_to_client = [];
  client_endpoints = [];
  client_sequence_nums = [];
  last_received_seq = [];
  sack_bits = [];
  client_states = [];
  auth_states = [];
  latency_metrics = [];
  ep_sequence_nums = [];
  ep_last_received_seq = [];
  ep_sack_bits = [];
  ep_client_states = [];
  ep_auth_states = [];
  client_to_game = [];
  next_game_id = 2;
  game_instances = (1, small_game) ∷ [];
}

-- The same with one client that was challenged, and one that is long authenticated.
abbrev busy_server : GameServer
busy_server = record server {
  ep_client_states =
      (first, record { auth_state = challenged; session_key = [] })
      ∷ (second, record { auth_state = authenticated; session_key = [] })
      ∷ [];
  ep_auth_states =
      (first, record { timestamp = 9000000000; attempts = 0 })
      ∷ (second, record { timestamp = 1000000000; attempts = 0 })
      ∷ [];
}

abbrev pub header_of : ℕ → Header
header_of cmd = record {
  flags = 1;
  seq = 0x01020304;
  ack_base = 0x05060708;
  ack_bits = 0;
  channel = 0;
  size = 27;
  client_id = 77;
  cmd = cmd;
}

abbrev pub noon : Clock
noon = record { steady = 10000000000; seconds = 1700000000 }

abbrev pub soon : Clock
soon = record { steady = 13000000000; seconds = 1700000003 }

handshake_example :
    (gs1 : GameServer) × (cookie : Bytes) × (gs2 : GameServer) × (parse_datagram padding_crypto noon
        first
        (join_packet (header_of 7) 9 1)
        server
      ≡ served gs1)
    × (get first [] gs1.send_spans
        ≡ get first [] server.send_spans
          ++ build_challenge_with_cookie 77 1700000000 cookie
              (record { seq = 0; ack_base = 0; ack_bits = 0 })
            ∷ [])
    × (parse_datagram padding_crypto soon first (auth_packet (header_of 10) 9 cookie) gs1
        ≡ served gs2)
    × Has first gs2
unfolding client_handle get lookup
handshake_example =
    handshake padding_crypto padding_works noon soon first (header_of 7) (header_of 10) 9 1 server
      refl refl refl (omega arith) refl (omega arith) (omega arith) (omega arith)

parse_datagram-gated_example :
    parse_datagram padding_crypto noon first (build_header (header_of 1) ++ (1 ∷ [])) busy_server
    ≡ served busy_server
unfolding is_authenticated lookup
parse_datagram-gated_example =
    parse_datagram-gated padding_crypto noon first (header_of 1) (1 ∷ []) busy_server (inl refl)
      refl

cleanup_expired_auth_challenges-undefined_example :
    ((cleanup_expired_auth_challenges noon busy_server ≡ undefined)
      ↔ SomeOld noon busy_server.ep_auth_states)
    × Ends
        (λ gs'. gs'.ep_client_states ≡ busy_server.ep_client_states)
        (cleanup_expired_auth_challenges noon busy_server)
unfolding lookup contains
cleanup_expired_auth_challenges-undefined_example =
    cleanup_expired_auth_challenges-undefined noon busy_server (refl, (refl, tt))

note_received-header_example :
    get first 0
      (note_received first 0
        (build_header (header_of 1) ++ (1 ∷ []))
        busy_server).ep_last_received_seq
    ≡ 0x01020304 % 2 ^ 24 * 256 + 0x05060708 / 2 ^ 24
note_received-header_example =
    note_received-header first (header_of 1) (1 ∷ []) busy_server (omega arith) (omega arith)

abbrev start : Numbers
start = record { seq = 5; ack_base = 0; ack_bits = 0 }

fragments_from-Carry_example : Carry (2 ∷ 3 ∷ []) (fragments_from 3 77 (1 ∷ 2 ∷ 3 ∷ []) start 1 0)
fragments_from-Carry_example =
    fragments_from-Carry 3 77 (1 ∷ 2 ∷ 3 ∷ []) start 1 0 (omega arith) (omega arith)

abbrev ones : ℕ → Bytes
ones zero = []
ones (suc n) = 1 ∷ ones n

build_snapshot-IsCut_example : IsCut (ones 1200) (build_snapshot 77 3 (ones 1200) start)
build_snapshot-IsCut_example = build_snapshot-IsCut 77 3 (ones 1200) start (omega arith)

abbrev two_samples : LatencyMetrics
two_samples = record { min_rtt = 10; max_rtt = some 30; avg_rtt = 20; samples = 2; last_ping = 1 }

parse_tcp_buffer-Within_example :
    Within
      (0x42 ∷ 0x57 ∷ 1 ∷ 0 ∷ 9 ∷ [])
      0
      (parse_tcp_buffer 5 small_game (0x42 ∷ 0x57 ∷ 1 ∷ 0 ∷ 9 ∷ []) 0 server)
parse_tcp_buffer-Within_example =
    parse_tcp_buffer-Within 5 small_game (0x42 ∷ 0x57 ∷ 1 ∷ 0 ∷ 9 ∷ []) 0 server (omega arith)
      (omega arith)

parse_tcp_buffer-create_example :
    (gs' : GameServer) × (parse_tcp_buffer 6 small_game (build_create_msg 1) 0 server
      ≡ some (gs', 6))
    × ((j : ℕ)
        → lookup j gs'.game_instances
          ≡ (if 2 == j then some small_game else lookup j server.game_instances))
    × (gs'.next_game_id ≡ (2 + 1) % 2 ^ 32)
    × (get 4 [] gs'.tcp_send_spans
        ≡ get 4 [] server.tcp_send_spans ++ build_join_response 2 second.0 second.1 ∷ [])
unfolding lookup
parse_tcp_buffer-create_example = parse_tcp_buffer-create 4 small_game 1 server refl

abbrev broken_world : World
broken_world = record {
  crypto = padding_crypto;
  clock = noon;
  ipv4_offset = 12;
  datagram = recv_error;
  received = again;
  sends = [];
  new_game = small_game;
}

handle_loop-fault_example : handle_loop 0 (fd_of 3) broken_world server ≡ fault
handle_loop-fault_example =
    handle_loop-fault (fd_of 3) broken_world server refl refl refl refl (omega arith)
