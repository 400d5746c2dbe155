-- ===== src/GameServer/Handlers.antt =====
-- The handlers of server/src/GameServer/UDPHandlers.cpp. `d` is the packet and `o` the offset after its
-- header; the offset is the caller's own and is not read again.
use r_type_server.Prelude.{
  ℕ, zero, suc, ◌+◌, ◌-◌, ◌*◌, ◌/◌, ◌%◌, ◌^◌, Bool, true, false, not, ◌&&◌, [], ◌∷◌, ◌++◌, Option,
  none, some, ltb, leb, ◌==◌, length, take, drop, get_or, min, max, if◌then◌else◌,
}
use r_type_server.Prelude.Dict.{nat_eq, endpoint_eq, list_beq, lookup, insert, get}
use r_type_server.Wire.{Bytes, be_bytes}
use r_type_server.Gateway.State.{Address}
use r_type_server.Gateway.Packets.{game_id_of}
use r_type_server.GameServer.State.{
  GameServer, ClientState, nothing, challenged, authenticated, AuthChallenge, LatencyMetrics,
  no_metrics, PlayerAction, move_up, move_down, stop, Game, auth_timeout,
}
use r_type_server.GameServer.Udp.{
  build_challenge_with_cookie, build_pong_response, build_auth_ok_packet,
}
use r_type_server.GameServer.Sessions.{
  Crypto, Clock, Handled, served, thrown, undefined, shared_secret, client_handle, associate,
  send_datagram, send_snapshot, reset_numbers, session, set_session, set_challenge, mac_data,
  cookie_of, assign_game,
}

-- The rest of `handleUDPJoin` after the cookie is made.
unfoldable pub challenge_client : Clock → Address → ℕ → ℕ → Bytes → GameServer → GameServer
unfolding set_session set_challenge send_datagram assign_game
challenge_client clock endpoint h client_id mac gs =
    let state : ClientState = record { auth_state = challenged; session_key = [] } in
    let entry : AuthChallenge = record { timestamp = clock.steady; attempts = 0 } in
    let waiting = set_challenge endpoint h entry (set_session endpoint h state gs) in
    assign_game client_id (
      send_datagram endpoint h (build_challenge_with_cookie client_id clock.seconds (cookie_of mac))
        waiting)

-- `handleUDPJoin` after its checks.
unfoldable pub accept_join : Crypto → Clock → Address → ℕ → ℕ → GameServer → Handled
accept_join crypto clock endpoint client_id nonce gs =
    let h = client_handle client_id gs in
    let noted = record gs {
      endpoint_to_client = insert endpoint client_id gs.endpoint_to_client;
    } in
    let reset = reset_numbers endpoint h (associate endpoint client_id noted) in
    elim (crypto.hmac (shared_secret crypto) (mac_data endpoint nonce clock.seconds)) [
      | none ↦ thrown reset
      | some mac ↦ served (challenge_client clock endpoint h client_id mac reset)
    ]

unfoldable pub handle_udp_join : Crypto → Clock → Address → Bytes → ℕ → ℕ → GameServer → Handled
unfolding accept_join
handle_udp_join crypto clock endpoint d o client_id gs =
    if ltb (length d) (o + 6)
    then served gs
    else if not (game_id_of (drop o d) == client_id)
    then served gs
    else accept_join crypto clock endpoint client_id (get_or d (o + 4) 0) gs

-- The loop over the last seconds, of which `left` are left: the MAC throws, no time fits, or one does.
unfoldable pub find_timestamp : Crypto → Address → ℕ → Bytes → ℕ → ℕ → ℕ → Option (Option ℕ)
find_timestamp crypto endpoint nonce cookie now zero dt = some none
find_timestamp crypto endpoint nonce cookie now (suc left) dt =
    let ts = (now + 2 ^ 64 - dt) % 2 ^ 64 in
    elim (crypto.hmac (shared_secret crypto) (mac_data endpoint nonce ts)) [
      | none ↦ none
      | some mac ↦ elim (leb 32 (length mac) && list_beq (take 32 mac) cookie) [
        | true ↦ some (some ts)
        | false ↦ find_timestamp crypto endpoint nonce cookie now left (dt + 1)
      ]
    ]

-- `_recordAuthAttempt`; `attempts` is a uint8_t.
unfoldable pub record_auth_attempt : Clock → ℕ → GameServer → GameServer
record_auth_attempt clock h gs = elim (lookup h gs.auth_states) [
  | none ↦ gs
  | some entry ↦
      let entry' : AuthChallenge = record {
        timestamp = clock.steady;
        attempts = (entry.attempts + 1) % 256;
      } in
      record gs { auth_states = insert h entry' gs.auth_states }
]

-- A client whose cookie is right.
unfoldable pub authenticate : Crypto → Address → ℕ → ℕ → ℕ → GameServer → Handled
unfolding set_session send_datagram
authenticate crypto endpoint h client_id ts gs =
    elim (crypto.derive_key (shared_secret crypto) (be_bytes 8 ts)) [
      | none ↦ thrown gs
      | some derived ↦
          let key = take 32 derived in
          let state : ClientState = record { auth_state = authenticated; session_key = key } in
          served (
            send_datagram endpoint h (build_auth_ok_packet client_id key)
              (set_session endpoint h state gs))
    ]

unfoldable pub is_challenged : Option ClientState → Bool
is_challenged none = false
is_challenged (some state) = elim state.auth_state [
  | nothing ↦ false
  | challenged ↦ true
  | authenticated ↦ false
]

unfoldable pub check_cookie : Crypto → Clock → Address → ℕ → ℕ → ℕ → Bytes → GameServer → Handled
unfolding find_timestamp record_auth_attempt authenticate
check_cookie crypto clock endpoint h client_id nonce cookie gs =
    elim (find_timestamp crypto endpoint nonce cookie clock.seconds (auth_timeout + 1) 0) [
      | none ↦ thrown gs
      | some none ↦ served (if h == 0 then gs else record_auth_attempt clock h gs)
      | some (some ts) ↦ authenticate crypto endpoint h client_id ts gs
    ]

unfoldable pub handle_udp_auth_response :
    Crypto → Clock → Address → Bytes → ℕ → ℕ → GameServer → Handled
unfolding session client_handle associate
handle_udp_auth_response crypto clock endpoint d o client_id gs =
    if ltb (length d) (o + 33)
    then served gs
    else (let h = client_handle client_id gs in
        let known = associate endpoint client_id gs in
        if is_challenged (session endpoint h known)
        then check_cookie crypto clock endpoint h client_id (get_or d o 0)
            (take 32 (drop (o + 1) d)) known
        else served known)

unfoldable pub action_of : ℕ → PlayerAction
action_of input_type =
    if input_type == 1 then move_up else if input_type == 2 then move_down else stop

-- The event of an input, for a game that has the queue.
unfoldable pub send_input : ℕ → ℕ → Game → PlayerAction → GameServer → GameServer
send_input client_id game_id game action gs = elim game.input_events [
  | none ↦ gs
  | some events ↦ record gs {
    game_instances =
        insert game_id (record game { input_events = some (events ++ (client_id, action) ∷ []) })
          gs.game_instances;
  }
]

-- The four bytes from the sixth on are taken for the sequence number.
unfoldable pub note_received : Address → ℕ → Bytes → GameServer → GameServer
unfolding get game_id_of
note_received endpoint h d gs =
    let new_last = game_id_of (drop 5 d) in
    if h == 0
    then record gs {
      ep_last_received_seq = insert endpoint new_last gs.ep_last_received_seq;
      ep_sack_bits =
          insert endpoint ((get endpoint 0 gs.ep_sack_bits * 2 + 1) % 256) gs.ep_sack_bits;
    }
    else record gs {
      last_received_seq = insert h new_last gs.last_received_seq;
      sack_bits = insert h ((get h 0 gs.sack_bits * 2 + 1) % 256) gs.sack_bits;
    }

-- The inputs after the first only go to the log.
unfoldable pub handle_udp_input : Address → Bytes → ℕ → ℕ → GameServer → Handled
unfolding action_of send_input note_received client_handle associate
handle_udp_input endpoint d o client_id gs = elim (lookup client_id gs.client_to_game) [
  | none ↦ served gs
  | some game_id ↦ elim (lookup game_id gs.game_instances) [
    | none ↦ thrown gs
    | some game ↦
        if ltb (length d) (o + 1)
        then served gs
        else (let h = client_handle client_id gs in
            let sent = send_input client_id game_id game (action_of (get_or d o 0)) gs in
            let known = associate endpoint client_id sent in
            if ltb (length d) 9 then undefined else served (note_received endpoint h d known))
  ]
]

unfoldable pub handle_udp_ping : Clock → Address → ℕ → GameServer → Handled
unfolding client_handle associate send_datagram get
handle_udp_ping clock endpoint client_id gs =
    let h = client_handle client_id gs in
    let known = associate endpoint client_id gs in
    let metrics : LatencyMetrics = record (get h no_metrics known.latency_metrics) {
      last_ping = clock.steady;
    } in
    served (
      send_datagram endpoint h (build_pong_response client_id)
        (record known { latency_metrics = insert h metrics known.latency_metrics }))

abbrev pub max_of : Option ℕ → ℕ → ℕ
max_of none rtt = rtt
max_of (some m) rtt = max m rtt

-- The new averages; `samples` is a uint32_t, and the sum fits its 64 bits.
unfoldable pub add_sample : ℕ → LatencyMetrics → LatencyMetrics
add_sample rtt m = record m {
  min_rtt = min m.min_rtt rtt;
  max_rtt = some (max_of m.max_rtt rtt);
  avg_rtt = (m.avg_rtt * m.samples + rtt) / ((m.samples + 1) % 2 ^ 32);
  samples = (m.samples + 1) % 2 ^ 32;
}

-- The division by `samples + 1` is by zero after 2^32 - 1 samples.
unfoldable pub handle_udp_pong : Clock → Address → ℕ → GameServer → Handled
unfolding client_handle associate add_sample get
handle_udp_pong clock endpoint client_id gs =
    let h = client_handle client_id gs in
    let known = associate endpoint client_id gs in
    let metrics = get h no_metrics known.latency_metrics in
    if metrics.last_ping == 0
    then served known
    else if (metrics.samples + 1) % 2 ^ 32 == 0
    then undefined
    else (let rtt = (clock.steady - metrics.last_ping) / 1000 in
        served (record known {
          latency_metrics = insert h (add_sample rtt metrics) known.latency_metrics;
        }))

-- The state that is sent is a constant of four bytes so far.
unfoldable pub handle_udp_resync : Address → ℕ → GameServer → Handled
unfolding client_handle associate send_snapshot
handle_udp_resync endpoint client_id gs =
    let h = client_handle client_id gs in
    send_snapshot endpoint h client_id 1 (1 ∷ 2 ∷ 3 ∷ 4 ∷ []) (associate endpoint client_id gs)
