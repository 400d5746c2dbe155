-- ===== src/GameServer/Attempts.antt =====
-- Without handles no attempt is counted: a datagram, command by command.
use r_type_server.Prelude.{
  ℕ, ◌+◌, ◌≡◌, refl, ◌∙◌, Bool, [], Option, none, some, arith, ◌==◌, if◌then◌else◌, length, take,
  drop, get_or, ltb, not, ◌*◌, ◌%◌, ◌^◌,
}
use r_type_server.Prelude.Dict.{nat_eq, endpoint_eq, lookup, insert}
use r_type_server.Wire.{Bytes}
use r_type_server.Gateway.State.{Address}
use r_type_server.Gateway.Packets.{game_id_of}
use r_type_server.GameServer.State.{auth_timeout, GameServer, AuthChallenge}
use r_type_server.GameServer.Udp.{
  header_size, gspcol_magic, udp_version, Numbers, build_challenge_with_cookie,
}
use r_type_server.GameServer.Sessions.{
  Crypto, Clock, Handled, served, thrown, client_handle, associate, send_datagram, reset_numbers,
  set_session, set_challenge, assign_game, push_packet, next_number, shared_secret, mac_data,
  cookie_of, session,
}
use r_type_server.GameServer.Handlers.{
  challenge_client, accept_join, handle_udp_join, record_auth_attempt, authenticate, find_timestamp,
  check_cookie, is_challenged, handle_udp_auth_response,
}
use r_type_server.GameServer.Datagrams.{is_authenticated, dispatch_datagram, parse_datagram}
use r_type_server.GameServer.Gate.{new_state}
use r_type_server.GameServer.Kept.{Ends, if-Ends}
use r_type_server.GameServer.Untried.{
  Untried, keys, Untried-keys, Untried-Ends, no_handle, associate-keys, assign_game-keys,
  send_datagram-keys, reset_numbers-keys, set_session-keys, set_challenge-Untried,
  handle_udp_ping-keys, handle_udp_pong-keys, handle_udp_resync-keys, handle_udp_input-keys,
}

module _ (crypto : Crypto) (clock : Clock) (endpoint : Address) (client_id : ℕ) where
  challenge_client-Untried :
      (h : ℕ) (mac : Bytes) (gs : GameServer)
      → h ≡ 0
      → Untried gs
      → Untried (challenge_client clock endpoint h client_id mac gs)
  unfolding challenge_client
  challenge_client-Untried h mac gs no_h u =
      Untried-keys waiting (assign_game client_id sent)
        (assign_game-keys client_id sent ∙ send_datagram-keys endpoint h waiting challenge)
        (set_challenge-Untried endpoint h set entry no_h refl
          (Untried-keys gs set (set_session-keys endpoint h gs new_state) u))
    where
      entry : AuthChallenge
      entry = record { timestamp = clock.steady; attempts = 0 }

      challenge : Numbers → Bytes
      challenge = build_challenge_with_cookie client_id clock.seconds (cookie_of mac)

      set : GameServer
      set = set_session endpoint h new_state gs

      waiting : GameServer
      waiting = set_challenge endpoint h entry set

      sent : GameServer
      sent = send_datagram endpoint h challenge waiting

  accept_join-Untried :
      (nonce : ℕ) (gs : GameServer)
      → Untried gs
      → Ends Untried (accept_join crypto clock endpoint client_id nonce gs)
  unfolding accept_join
  accept_join-Untried nonce gs u =
      with_mac (crypto.hmac (shared_secret crypto) (mac_data endpoint nonce clock.seconds))
    where
      h : ℕ
      h = client_handle client_id gs

      noted : GameServer
      noted = record gs { endpoint_to_client = insert endpoint client_id gs.endpoint_to_client }

      reset : GameServer
      reset = reset_numbers endpoint h (associate endpoint client_id noted)

      ur : Untried reset
      ur =
          Untried-keys noted reset
            (reset_numbers-keys endpoint h (associate endpoint client_id noted)
              ∙ associate-keys endpoint client_id noted)
            u

      with_mac :
          (r : Option Bytes)
          → Ends Untried (elim r as (λ _. Handled) [
            | none ↦ thrown reset
            | some mac ↦ served (challenge_client clock endpoint h client_id mac reset)
          ])
      with_mac none = ur
      with_mac (some mac) = challenge_client-Untried h mac reset (no_handle client_id gs u.0) ur

  authenticate-keys :
      (h ts : ℕ) (gs : GameServer)
      → Ends (λ g. keys g ≡ keys gs) (authenticate crypto endpoint h client_id ts gs)
  unfolding authenticate set_session send_datagram push_packet next_number
  authenticate-keys h ts gs = ground arith

  record_auth_attempt-keys :
      (h : ℕ) (gs : GameServer)
      → gs.auth_states ≡ []
      → keys (record_auth_attempt clock h gs) ≡ keys gs
  unfolding record_auth_attempt lookup
  record_auth_attempt-keys h gs none_there = rw none_there

  check_cookie-keys :
      (h nonce : ℕ) (cookie : Bytes) (gs : GameServer)
      → gs.auth_states ≡ []
      → Ends
          (λ g. keys g ≡ keys gs)
          (check_cookie crypto clock endpoint h client_id nonce cookie gs)
  unfolding check_cookie
  check_cookie-keys h nonce cookie gs none_there =
      found (find_timestamp crypto endpoint nonce cookie clock.seconds (auth_timeout + 1) 0)
    where
      found :
          (r : Option (Option ℕ))
          → Ends
              (λ g. keys g ≡ keys gs)
              (elim r as (λ _. Handled) [
                | none ↦ thrown gs
                | some none ↦ served (if h == 0 then gs else record_auth_attempt clock h gs)
                | some (some ts) ↦ authenticate crypto endpoint h client_id ts gs
              ])
      found none = refl
      found (some none) = ground (arith, record_auth_attempt-keys h gs none_there)
      found (some (some ts)) = authenticate-keys h ts gs

  handle_udp_join-Untried :
      (d : Bytes) (o : ℕ) (gs : GameServer)
      → Untried gs
      → Ends Untried (handle_udp_join crypto clock endpoint d o client_id gs)
  unfolding handle_udp_join
  handle_udp_join-Untried d o gs u = if-Ends Untried (ltb (length d) (o + 6)) _ _ u (
      if-Ends Untried (not (game_id_of (drop o d) == client_id)) _ _ u
        (accept_join-Untried (get_or d (o + 4) 0) gs u))

  handle_udp_auth_response-Untried :
      (d : Bytes) (o : ℕ) (gs : GameServer)
      → Untried gs
      → Ends Untried (handle_udp_auth_response crypto clock endpoint d o client_id gs)
  unfolding handle_udp_auth_response
  handle_udp_auth_response-Untried d o gs u = if-Ends Untried (ltb (length d) (o + 33)) _ _ u (
      if-Ends Untried (is_challenged (session endpoint (client_handle client_id gs) known)) _ _
        (Untried-Ends known _
          (check_cookie-keys (client_handle client_id gs) (get_or d o 0) (take 32 (drop (o + 1) d))
            known uk.1)
          uk)
        uk)
    where
      known : GameServer
      known = associate endpoint client_id gs

      uk : Untried known
      uk = Untried-keys gs known (associate-keys endpoint client_id gs) u

  dispatch_datagram-Untried :
      (d : Bytes) (cmd : ℕ) (gs : GameServer)
      → Untried gs
      → Ends Untried (dispatch_datagram crypto clock endpoint d cmd client_id gs)
  unfolding dispatch_datagram
  dispatch_datagram-Untried d cmd gs u =
      if-Ends Untried (cmd == 7) _ _ (handle_udp_join-Untried d header_size gs u) (
        if-Ends Untried (cmd == 10) _ _ (handle_udp_auth_response-Untried d header_size gs u) (
          if-Ends Untried (cmd == 1) _ _
            (if-Ends Untried known _ _
              (Untried-Ends gs _ (handle_udp_input-keys endpoint client_id gs d header_size) u) u)
            (if-Ends Untried (cmd == 4) _ _
              (Untried-Ends gs _ (handle_udp_ping-keys endpoint client_id gs clock) u)
              (if-Ends Untried (cmd == 5) _ _
                (Untried-Ends gs _ (handle_udp_pong-keys endpoint client_id gs clock) u)
                (if-Ends Untried (cmd == 12) _ _
                  (if-Ends Untried known _ _
                    (Untried-Ends gs _ (handle_udp_resync-keys endpoint client_id gs) u) u)
                  u)))))
    where
      known : Bool
      known = is_authenticated (lookup endpoint gs.ep_client_states)

pub parse_datagram-Untried :
    (crypto : Crypto) (clock : Clock) (endpoint : Address) (d : Bytes) (gs : GameServer)
    → Untried gs
    → Ends Untried (parse_datagram crypto clock endpoint d gs)
unfolding parse_datagram
parse_datagram-Untried crypto clock endpoint d gs u =
    if-Ends Untried (ltb (length d) header_size) _ _ u (
      if-Ends Untried (not ((get_or d 0 0 * 256 + get_or d 1 0) % 2 ^ 16 == gspcol_magic)) _ _ u (
        if-Ends Untried (not (get_or d 2 0 == udp_version)) _ _ u (
          dispatch_datagram-Untried crypto clock endpoint (game_id_of (drop 16 d)) d (get_or d 20 0)
            gs u)))
