-- ===== src/GameServer/Gate.antt =====
-- No datagram gives a session but an AUTH with the right cookie, and the gates on INPUT and RESYNC.
use r_type_server.Prelude.{
  ℕ, ◌+◌, ◌*◌, ◌%◌, ◌^◌, ◌≡◌, ◌⊎◌, inl, inr, ◌∙◌, Bool, true, false, not, [], ◌∷◌, ◌++◌, Option,
  none, some, arith, ltb, ◌==◌, length, drop, get_or,
}
use r_type_server.Prelude.Dict.{nat_eq, endpoint_eq, lookup, insert}
use r_type_server.Wire.{Bytes, be_bytes}
use r_type_server.Gateway.State.{Address}
use r_type_server.Gateway.Packets.{game_id_of}
use r_type_server.GameServer.State.{GameServer, ClientState, challenged, Game, PlayerAction}
use r_type_server.GameServer.Udp.{
  build_pong_response, build_challenge_with_cookie, header_size, Header, build_header, gspcol_magic,
  udp_version,
}
use r_type_server.GameServer.Sessions.{
  Crypto, Clock, Handled, served, thrown, undefined, shared_secret, client_handle, associate,
  send_snapshot, reset_numbers, set_session, mac_data, cookie_of,
}
use r_type_server.GameServer.Handlers.{
  challenge_client, accept_join, handle_udp_join, send_input, note_received, handle_udp_input,
  handle_udp_ping, handle_udp_pong, handle_udp_resync,
}
use r_type_server.GameServer.Datagrams.{is_authenticated, dispatch_datagram, parse_datagram}
use r_type_server.GameServer.Auth.{
  Has, Grants, RightCookie, next_number-sessions, send_datagram-sessions, reset_numbers-sessions,
  set_challenge-sessions, set_session-Has, assign_game-sessions, associate-sessions,
}
use r_type_server.GameServer.Grants.{
  Keeps, Keeps-Grants, from-Grants, if-Grants, handle_udp_auth_response-Grants,
}

abbrev pub new_state : ClientState
new_state = record { auth_state = challenged; session_key = [] }

pub challenge_client-sessions :
    (clock : Clock) (endpoint : Address) (h client_id : ℕ) (mac : Bytes) (gs : GameServer)
    → (challenge_client clock endpoint h client_id mac gs).ep_client_states
      ≡ (set_session endpoint h new_state gs).ep_client_states
unfolding challenge_client
challenge_client-sessions clock endpoint h client_id mac gs =
    assign_game-sessions client_id _
    ∙ send_datagram-sessions endpoint h _
        (build_challenge_with_cookie client_id clock.seconds (cookie_of mac))
    ∙ set_challenge-sessions endpoint h _ _

challenge_client-Grants :
    (clock : Clock) (endpoint j : Address) (h client_id : ℕ) (mac : Bytes) (P : Type 0)
    (gs : GameServer)
    → Grants j P gs (served (challenge_client clock endpoint h client_id mac gs))
challenge_client-Grants clock endpoint j h client_id mac P gs = λ has.
    elim (set_session-Has endpoint h gs j new_state
      (rw (challenge_client-sessions clock endpoint h client_id mac gs) at has)) [
        | inl before ↦ inl before
        | inr own ↦ absurd (not_yet own.1)
      ]
  where
    not_yet : is_authenticated (some new_state) ≡ true → ⊥
    not_yet e = unfold is_authenticated in cc

accept_join-Grants :
    (crypto : Crypto) (clock : Clock) (endpoint j : Address) (client_id nonce : ℕ) (P : Type 0)
    (gs : GameServer)
    → Grants j P gs (accept_join crypto clock endpoint client_id nonce gs)
unfolding accept_join
accept_join-Grants crypto clock endpoint j client_id nonce P gs =
    from-Grants j P gs reset _
      (reset_numbers-sessions endpoint h (associate endpoint client_id noted)
        ∙ associate-sessions endpoint client_id noted)
      (with_mac (crypto.hmac (shared_secret crypto) (mac_data endpoint nonce clock.seconds)))
  where
    h : ℕ
    h = client_handle client_id gs

    noted : GameServer
    noted = record gs { endpoint_to_client = insert endpoint client_id gs.endpoint_to_client }

    reset : GameServer
    reset = reset_numbers endpoint h (associate endpoint client_id noted)

    with_mac :
        (r : Option Bytes)
        → Grants j P reset (elim r [
          | none ↦ thrown reset
          | some mac ↦ served (challenge_client clock endpoint h client_id mac reset)
        ])
    with_mac none = λ has. inl has
    with_mac (some mac) = challenge_client-Grants clock endpoint j h client_id mac P reset

handle_udp_join-Grants :
    (crypto : Crypto) (clock : Clock) (endpoint j : Address) (d : Bytes) (o client_id : ℕ)
    (P : Type 0) (gs : GameServer)
    → Grants j P gs (handle_udp_join crypto clock endpoint d o client_id gs)
unfolding handle_udp_join
handle_udp_join-Grants crypto clock endpoint j d o client_id P gs =
    if-Grants j P gs (ltb (length d) (o + 6)) _ _ (λ has. inl has)
      (if-Grants j P gs (not (game_id_of (drop o d) == client_id)) _ _ (λ has. inl has)
        (accept_join-Grants crypto clock endpoint j client_id (get_or d (o + 4) 0) P gs))

send_snapshot-Keeps :
    (endpoint : Address) (h client_id sequence : ℕ) (state : Bytes) (gs : GameServer)
    → Keeps gs (send_snapshot endpoint h client_id sequence state gs)
unfolding send_snapshot
send_snapshot-Keeps endpoint h client_id sequence state gs =
    ground (arith, next_number-sessions endpoint h gs, send_datagram-sessions endpoint h gs)

note_received-sessions :
    (endpoint : Address) (h : ℕ) (d : Bytes) (gs : GameServer)
    → (note_received endpoint h d gs).ep_client_states ≡ gs.ep_client_states
unfolding note_received
note_received-sessions endpoint h d gs = ground arith

send_input-sessions :
    (client_id game_id : ℕ) (game : Game) (action : PlayerAction) (gs : GameServer)
    → (send_input client_id game_id game action gs).ep_client_states ≡ gs.ep_client_states
unfolding send_input
send_input-sessions client_id game_id game action gs = ground arith

handle_udp_input-Keeps :
    (endpoint : Address) (d : Bytes) (o client_id : ℕ) (gs : GameServer)
    → Keeps gs (handle_udp_input endpoint d o client_id gs)
unfolding handle_udp_input
handle_udp_input-Keeps endpoint d o client_id gs = ground (
  arith,
  note_received-sessions endpoint (client_handle client_id gs) d,
  associate-sessions endpoint client_id,
  send_input-sessions client_id,
)

handle_udp_resync-Keeps :
    (endpoint : Address) (client_id : ℕ) (gs : GameServer)
    → Keeps gs (handle_udp_resync endpoint client_id gs)
unfolding handle_udp_resync
handle_udp_resync-Keeps endpoint client_id gs = from_associated _ (
    send_snapshot-Keeps endpoint (client_handle client_id gs) client_id 1 (1 ∷ 2 ∷ 3 ∷ 4 ∷ [])
      (associate endpoint client_id gs))
  where
    from_associated : (r : Handled) → Keeps (associate endpoint client_id gs) r → Keeps gs r
    from_associated (served gs') e = e ∙ associate-sessions endpoint client_id gs
    from_associated (thrown gs') e = e ∙ associate-sessions endpoint client_id gs
    from_associated undefined e = tt

handle_udp_ping-Keeps :
    (clock : Clock) (endpoint : Address) (client_id : ℕ) (gs : GameServer)
    → Keeps gs (handle_udp_ping clock endpoint client_id gs)
unfolding handle_udp_ping
handle_udp_ping-Keeps clock endpoint client_id gs =
    send_datagram-sessions endpoint (client_handle client_id gs) _ (build_pong_response client_id)
    ∙ associate-sessions endpoint client_id gs

handle_udp_pong-Keeps :
    (clock : Clock) (endpoint : Address) (client_id : ℕ) (gs : GameServer)
    → Keeps gs (handle_udp_pong clock endpoint client_id gs)
unfolding handle_udp_pong
handle_udp_pong-Keeps clock endpoint client_id gs =
    ground (arith, associate-sessions endpoint client_id gs)

dispatch_datagram-Grants :
    (crypto : Crypto) (clock : Clock) (endpoint j : Address) (d : Bytes) (cmd client_id : ℕ)
    (gs : GameServer)
    → Grants j
        ((j ≡ endpoint) × RightCookie crypto clock endpoint d header_size)
        gs
        (dispatch_datagram crypto clock endpoint d cmd client_id gs)
unfolding dispatch_datagram
dispatch_datagram-Grants crypto clock endpoint j d cmd client_id gs =
    if-Grants j P gs (cmd == 7) _ _
      (handle_udp_join-Grants crypto clock endpoint j d header_size client_id P gs)
      (if-Grants j P gs (cmd == 10) _ _
        (handle_udp_auth_response-Grants crypto clock endpoint j client_id d header_size gs)
        (if-Grants j P gs (cmd == 1) _ _
          (if-Grants j P gs known _ _
            (Keeps-Grants j P gs _ (handle_udp_input-Keeps endpoint d header_size client_id gs))
            unchanged)
          (if-Grants j P gs (cmd == 4) _ _
            (Keeps-Grants j P gs _ (handle_udp_ping-Keeps clock endpoint client_id gs))
            (if-Grants j P gs (cmd == 5) _ _
              (Keeps-Grants j P gs _ (handle_udp_pong-Keeps clock endpoint client_id gs))
              (if-Grants j P gs (cmd == 12) _ _
                (if-Grants j P gs known _ _
                  (Keeps-Grants j P gs _ (handle_udp_resync-Keeps endpoint client_id gs)) unchanged)
                unchanged)))))
  where
    P : Type 0
    P = (j ≡ endpoint) × RightCookie crypto clock endpoint d header_size

    known : Bool
    known = is_authenticated (lookup endpoint gs.ep_client_states)

    unchanged : Grants j P gs (served gs)
    unchanged = λ has. inl has

pub parse_datagram-Grants :
    (crypto : Crypto) (clock : Clock) (endpoint j : Address) (d : Bytes) (gs : GameServer)
    → Grants j
        ((j ≡ endpoint) × RightCookie crypto clock endpoint d header_size)
        gs
        (parse_datagram crypto clock endpoint d gs)
unfolding parse_datagram
parse_datagram-Grants crypto clock endpoint j d gs =
    if-Grants j _ gs (ltb (length d) header_size) _ _ unchanged (
      if-Grants j _ gs (not ((get_or d 0 0 * 256 + get_or d 1 0) % 2 ^ 16 == gspcol_magic)) _ _
        unchanged
        (if-Grants j _ gs (not (get_or d 2 0 == udp_version)) _ _ unchanged (
          dispatch_datagram-Grants crypto clock endpoint j d (get_or d 20 0)
            (game_id_of (drop 16 d)) gs)))
  where
    unchanged :
        Grants j ((j ≡ endpoint) × RightCookie crypto clock endpoint d header_size) gs (served gs)
    unchanged = λ has. inl has

-- After any datagram, also one that makes a handler throw, an endpoint has a session only if it had one
-- before, or if the datagram came from it and carried the MAC of its address, its nonce and one of the last
-- six seconds.
pub parse_datagram-session :
    (crypto : Crypto) (clock : Clock) (endpoint j : Address) (d : Bytes) (gs gs' : GameServer)
    → (parse_datagram crypto clock endpoint d gs ≡ served gs')
      ⊎ (parse_datagram crypto clock endpoint d gs ≡ thrown gs')
    → Has j gs'
    → Has j gs ⊎ ((j ≡ endpoint) × RightCookie crypto clock endpoint d header_size)
parse_datagram-session crypto clock endpoint j d gs gs' ends has = elim ends [
  | inl e ↦ (rw e at (parse_datagram-Grants crypto clock endpoint j d gs)) has
  | inr e ↦ (rw e at (parse_datagram-Grants crypto clock endpoint j d gs)) has
]

-- An INPUT or a RESYNC of an endpoint without a session changes nothing.
pub parse_datagram-gated :
    (crypto : Crypto) (clock : Clock) (endpoint : Address) (h : Header) (rest : Bytes)
    (gs : GameServer)
    → (h.cmd ≡ 1) ⊎ (h.cmd ≡ 12)
    → is_authenticated (lookup endpoint gs.ep_client_states) ≡ false
    → parse_datagram crypto clock endpoint (build_header h ++ rest) gs ≡ served gs
unfolding parse_datagram build_header be_bytes dispatch_datagram
parse_datagram-gated crypto clock endpoint h rest gs cmd none_yet = ground (arith, cmd, none_yet)
