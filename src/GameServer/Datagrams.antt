-- ===== src/GameServer/Datagrams.antt =====
-- `_parsePackets` and `_cleanupExpiredAuthChallenges` of server/src/GameServer/ParsePackets.cpp.
use r_type_server.Prelude.{
  ℕ, ◌+◌, ◌-◌, ◌*◌, ◌%◌, ◌^◌, Bool, true, false, not, ◌&&◌, ◌||◌, List, [], ◌∷◌, Option, none, some,
  ltb, leb, ◌==◌, length, drop, get_or, if◌then◌else◌,
}
use r_type_server.Prelude.Dict.{Dict, nat_eq, endpoint_eq, lookup, insert, erase, get, is_empty}
use r_type_server.Wire.{Bytes}
use r_type_server.Gateway.State.{Address}
use r_type_server.Gateway.Packets.{game_id_of}
use r_type_server.Gateway.Helpers.{set_pollout}
use r_type_server.GameServer.State.{
  GameServer, ClientState, nothing, challenged, authenticated, AuthChallenge, LatencyMetrics,
  no_metrics, max_parse_errors, max_auth_attempts, auth_timeout, nanoseconds,
}
use r_type_server.GameServer.Udp.{
  ping, conn_flag, uu_channel, header_for, header_size, gspcol_magic, udp_version, Numbers,
}
use r_type_server.GameServer.Sessions.{
  Crypto, Clock, Handled, served, thrown, undefined, push_packet, session,
}
use r_type_server.GameServer.Handlers.{
  handle_udp_join, handle_udp_auth_response, handle_udp_input, handle_udp_ping, handle_udp_pong,
  handle_udp_resync,
}

unfoldable pub is_authenticated : Option ClientState → Bool
is_authenticated none = false
is_authenticated (some state) = elim state.auth_state [
  | nothing ↦ false
  | challenged ↦ false
  | authenticated ↦ true
]

-- The `switch` on the command, with the offset after the header.
unfoldable pub dispatch_datagram : Crypto → Clock → Address → Bytes → ℕ → ℕ → GameServer → Handled
unfolding is_authenticated session
dispatch_datagram crypto clock endpoint d cmd client_id gs =
    let known = is_authenticated (lookup endpoint gs.ep_client_states) in
    if cmd == 7
    then handle_udp_join crypto clock endpoint d header_size client_id gs
    else if cmd == 10
    then handle_udp_auth_response crypto clock endpoint d header_size client_id gs
    else if cmd == 1
    then if known then handle_udp_input endpoint d header_size client_id gs else served gs
    else if cmd == 4
    then handle_udp_ping clock endpoint client_id gs
    else if cmd == 5
    then handle_udp_pong clock endpoint client_id gs
    else if cmd == 12
    then if known then handle_udp_resync endpoint client_id gs else served gs
    else served gs

-- The body of the `try`: a packet that is not of the protocol is passed over.
unfoldable pub parse_datagram : Crypto → Clock → Address → Bytes → GameServer → Handled
parse_datagram crypto clock endpoint d gs =
    if ltb (length d) header_size
    then served gs
    else if not ((get_or d 0 0 * 256 + get_or d 1 0) % 2 ^ 16 == gspcol_magic)
    then served gs
    else if not (get_or d 2 0 == udp_version)
    then served gs
    else dispatch_datagram crypto clock endpoint d (get_or d 20 0) (game_id_of (drop 16 d)) gs

-- The `catch`: an exception counts for the handle that the endpoint had at the start of the round.
unfoldable pub catch_error : ℕ → GameServer → Handled
unfolding get
catch_error h gs =
    if h == 0
    then served gs
    else (let n = (get h 0 gs.parse_errors + 1) % 256 in
        let counted = record gs { parse_errors = insert h n gs.parse_errors } in
        if leb max_parse_errors n then thrown counted else served counted)

unfoldable pub try_datagram : Crypto → Clock → Address → ℕ → Bytes → GameServer → Handled
unfolding parse_datagram catch_error
try_datagram crypto clock endpoint h d gs =
    if is_empty d then served gs else elim (parse_datagram crypto clock endpoint d gs) [
      | served gs' ↦ served gs'
      | thrown gs' ↦ catch_error h gs'
      | undefined ↦ undefined
    ]

unfoldable pub parse_all : Crypto → Clock → Address → ℕ → List Bytes → GameServer → Handled
unfolding try_datagram
parse_all crypto clock endpoint h [] gs = served gs
parse_all crypto clock endpoint h (d ∷ ds) gs = elim (try_datagram crypto clock endpoint h d gs) [
  | served gs' ↦ parse_all crypto clock endpoint h ds gs'
  | thrown gs' ↦ thrown gs'
  | undefined ↦ undefined
]

-- The loop over `_recv_packets`, which no handler touches; what is parsed is cleared.
unfoldable pub parse_endpoints : Crypto → Clock → Dict Address (List Bytes) → GameServer → Handled
unfolding parse_all get
parse_endpoints crypto clock [] gs = served gs
parse_endpoints crypto clock ((endpoint, ds) ∷ rest) gs =
    elim (parse_all crypto clock endpoint (get endpoint 0 gs.endpoint_to_handle) ds gs) [
      | served gs' ↦
          parse_endpoints crypto clock rest
            (record gs' { recv_packets = insert endpoint [] gs'.recv_packets })
      | thrown gs' ↦ thrown gs'
      | undefined ↦ undefined
    ]

-- The PING to the endpoints of one handle: all get the same packet.
unfoldable pub ping_endpoints : ℕ → Bytes → Dict Address ℕ → GameServer → GameServer
unfolding push_packet set_pollout
ping_endpoints h packet [] gs = gs
ping_endpoints h packet ((endpoint, h') ∷ rest) gs =
    let pinged = push_packet endpoint packet gs in
    ping_endpoints h packet rest
      (if h' == h then record pinged { fds = set_pollout gs.sock pinged.fds } else gs)

-- By the handle, so the endpoint of `numbers` is not looked at unless the handle is 0.
unfoldable pub ping_client : Clock → ℕ → ℕ → GameServer → GameServer
unfolding ping_endpoints get
ping_client clock client_id h gs =
    let n : Numbers = record {
      seq = get h 0 gs.client_sequence_nums;
      ack_base = get h 0 gs.last_received_seq;
      ack_bits = get h 0 gs.sack_bits;
    } in
    let packet = header_for ping conn_flag uu_channel n header_size client_id in
    let numbered = record gs {
      client_sequence_nums = insert h ((n.seq + 1) % 2 ^ 32) gs.client_sequence_nums;
    } in
    let sent = ping_endpoints h packet gs.endpoint_to_handle numbered in
    let metrics : LatencyMetrics = record (get h no_metrics gs.latency_metrics) {
      last_ping = clock.steady;
    } in
    record sent { latency_metrics = insert h metrics sent.latency_metrics }

-- A client is pinged a second after the last time.
unfoldable pub ping_clients : Clock → Dict ℕ ℕ → GameServer → GameServer
unfolding ping_client is_authenticated get
ping_clients clock [] gs = gs
ping_clients clock ((client_id, h) ∷ rest) gs =
    let last = (get h no_metrics gs.latency_metrics).last_ping in
    let due = last == 0 || ltb nanoseconds (clock.steady - last) in
    ping_clients clock rest (
      if is_authenticated (lookup h gs.client_states) && due
      then ping_client clock client_id h gs
      else gs)

unfoldable pub is_expired : Clock → AuthChallenge → Bool
is_expired clock entry =
    leb max_auth_attempts entry.attempts
    || ltb (auth_timeout * nanoseconds) (clock.steady - entry.timestamp)

unfoldable pub expire_handle : Clock → ℕ → AuthChallenge → GameServer → GameServer
expire_handle clock h entry gs =
    if is_expired clock entry
    then record gs {
      auth_states = erase h gs.auth_states;
      client_states = erase h gs.client_states;
    }
    else gs

-- The entry is erased by `it->first`, and then `it->first` is read of what was erased, which is undefined.
unfoldable pub expire_endpoint : Clock → AuthChallenge → GameServer → Handled
unfolding is_expired
expire_endpoint clock entry gs = if is_expired clock entry then undefined else served gs

-- The two loops of `_cleanupExpiredAuthChallenges`.
unfoldable pub cleanup_handles : Clock → Dict ℕ AuthChallenge → GameServer → GameServer
cleanup_handles clock [] gs = gs
cleanup_handles clock ((h, entry) ∷ rest) gs =
    cleanup_handles clock rest (expire_handle clock h entry gs)

unfoldable pub cleanup_endpoints : Clock → Dict Address AuthChallenge → GameServer → Handled
unfolding expire_endpoint
cleanup_endpoints clock [] gs = served gs
cleanup_endpoints clock ((endpoint, entry) ∷ rest) gs = elim (expire_endpoint clock entry gs) [
  | served gs' ↦ cleanup_endpoints clock rest gs'
  | thrown gs' ↦ thrown gs'
  | undefined ↦ undefined
]

unfoldable pub cleanup_expired_auth_challenges : Clock → GameServer → Handled
unfolding cleanup_endpoints
cleanup_expired_auth_challenges clock gs =
    cleanup_endpoints clock gs.ep_auth_states (cleanup_handles clock gs.auth_states gs)

unfoldable pub parse_packets : Crypto → Clock → GameServer → Handled
unfolding parse_endpoints ping_clients cleanup_expired_auth_challenges
parse_packets crypto clock gs =
    let pinged = ping_clients clock gs.client_ids gs in
    elim (parse_endpoints crypto clock pinged.recv_packets pinged) [
      | served gs' ↦ cleanup_expired_auth_challenges clock gs'
      | thrown gs' ↦ thrown gs'
      | undefined ↦ undefined
    ]
