-- ===== src/GameServer/Kept.antt =====
-- No handler touches the packets that came in, nor gives a client a handle.
use r_type_server.Prelude.{
  ℕ, ◌+◌, ◌≡◌, refl, ◌∙◌, Bool, true, false, [], ◌∷◌, Option, none, some, arith, ◌==◌,
  if◌then◌else◌, take, drop, get_or,
}
use r_type_server.Prelude.Dict.{nat_eq, endpoint_eq}
use r_type_server.Wire.{Bytes}
use r_type_server.Gateway.State.{Address}
use r_type_server.Gateway.Packets.{game_id_of}
use r_type_server.GameServer.State.{auth_timeout, GameServer}
use r_type_server.GameServer.Udp.{header_size, Numbers}
use r_type_server.GameServer.Sessions.{
  Crypto, Clock, Handled, served, thrown, undefined, client_handle, associate, send_datagram,
  send_snapshot, reset_numbers, set_session, set_challenge, assign_game, push_packet, next_number,
}
use r_type_server.GameServer.Handlers.{
  challenge_client, accept_join, handle_udp_join, send_input, note_received, handle_udp_input,
  handle_udp_ping, handle_udp_pong, handle_udp_resync, record_auth_attempt, authenticate,
  find_timestamp, check_cookie, handle_udp_auth_response,
}
use r_type_server.GameServer.Datagrams.{dispatch_datagram, parse_datagram}

-- What holds of the state after a handler, however it ends.
abbrev pub Ends : (GameServer → Type 0) → Handled → Type 0
Ends P (served gs') = P gs'
Ends P (thrown gs') = P gs'
Ends P undefined = Unit {0}

abbrev pub Kept : GameServer → GameServer → Type 0
Kept gs gs' = (gs'.recv_packets ≡ gs.recv_packets) × (gs'.client_ids ≡ gs.client_ids)

pub trans-Kept : (a b c : GameServer) → Kept a b → Kept b c → Kept a c
trans-Kept a b c k l = (l.0 ∙ k.0, l.1 ∙ k.1)

pub Ends-map :
    {P Q : GameServer → Type 0} (r : Handled) → ((g : GameServer) → P g → Q g) → Ends P r → Ends Q r
Ends-map (served g) f p = f g p
Ends-map (thrown g) f p = f g p
Ends-map undefined f p = tt

pub if-Ends :
    (P : GameServer → Type 0) (b : Bool) (r r' : Handled)
    → Ends P r
    → Ends P r'
    → Ends P (if b then r else r')
if-Ends P true r r' p p' = p
if-Ends P false r r' p p' = p'

module _ (endpoint : Address) (h : ℕ) (gs : GameServer) where
  pub send_datagram-Kept : (build : Numbers → Bytes) → Kept gs (send_datagram endpoint h build gs)
  unfolding send_datagram push_packet next_number
  send_datagram-Kept build = ground arith

  pub send_snapshot-Kept :
      (client_id sequence : ℕ) (state : Bytes)
      → Ends (Kept gs) (send_snapshot endpoint h client_id sequence state gs)
  unfolding send_snapshot send_datagram push_packet next_number
  send_snapshot-Kept client_id sequence state = ground arith

associate-Kept :
    (endpoint : Address) (client_id : ℕ) (gs : GameServer)
    → Kept gs (associate endpoint client_id gs)
unfolding associate
associate-Kept endpoint client_id gs = ground arith

module _ (endpoint : Address) (client_id : ℕ) (gs : GameServer) where
  abbrev known : GameServer
  known = associate endpoint client_id gs

  handle_udp_ping-Kept :
      (clock : Clock) → Ends (Kept gs) (handle_udp_ping clock endpoint client_id gs)
  unfolding handle_udp_ping associate send_datagram push_packet next_number
  handle_udp_ping-Kept clock = ground arith

  handle_udp_pong-Kept :
      (clock : Clock) → Ends (Kept gs) (handle_udp_pong clock endpoint client_id gs)
  unfolding handle_udp_pong
  handle_udp_pong-Kept clock = ground (arith, associate-Kept endpoint client_id gs)

  handle_udp_resync-Kept : Ends (Kept gs) (handle_udp_resync endpoint client_id gs)
  unfolding handle_udp_resync
  handle_udp_resync-Kept =
      Ends-map _ (λ g. trans-Kept gs known g (associate-Kept endpoint client_id gs))
        (send_snapshot-Kept endpoint (client_handle client_id gs) known client_id 1
          (1 ∷ 2 ∷ 3 ∷ 4 ∷ []))

  handle_udp_input-Kept :
      (d : Bytes) (o : ℕ) → Ends (Kept gs) (handle_udp_input endpoint d o client_id gs)
  unfolding handle_udp_input associate send_input note_received
  handle_udp_input-Kept d o = ground arith

module _ (crypto : Crypto) (clock : Clock) (endpoint : Address) (client_id : ℕ) where
  accept_join-Kept :
      (nonce : ℕ) (gs : GameServer)
      → Ends (Kept gs) (accept_join crypto clock endpoint client_id nonce gs)
  unfolding accept_join challenge_client associate reset_numbers set_session set_challenge
      assign_game send_datagram push_packet next_number
  accept_join-Kept nonce gs = ground arith

  authenticate-Kept :
      (h ts : ℕ) (gs : GameServer) → Ends (Kept gs) (authenticate crypto endpoint h client_id ts gs)
  unfolding authenticate set_session send_datagram push_packet next_number
  authenticate-Kept h ts gs = ground arith

  check_cookie-Kept :
      (h nonce : ℕ) (cookie : Bytes) (gs : GameServer)
      → Ends (Kept gs) (check_cookie crypto clock endpoint h client_id nonce cookie gs)
  unfolding check_cookie record_auth_attempt
  check_cookie-Kept h nonce cookie gs =
      found (find_timestamp crypto endpoint nonce cookie clock.seconds (auth_timeout + 1) 0)
    where
      found :
          (r : Option (Option ℕ))
          → Ends (Kept gs) (elim r [
            | none ↦ thrown gs
            | some none ↦ served (if h == 0 then gs else record_auth_attempt clock h gs)
            | some (some ts) ↦ authenticate crypto endpoint h client_id ts gs
          ])
      found none = (refl, refl)
      found (some none) = ground arith
      found (some (some ts)) = authenticate-Kept h ts gs

  dispatch_datagram-Kept :
      (d : Bytes) (cmd : ℕ) (gs : GameServer)
      → Ends (Kept gs) (dispatch_datagram crypto clock endpoint d cmd client_id gs)
  unfolding dispatch_datagram handle_udp_join handle_udp_auth_response
  dispatch_datagram-Kept d cmd gs = ground (
    arith,
    accept_join-Kept (get_or d (header_size + 4) 0) gs,
    check_cookie-Kept (client_handle client_id gs) (get_or d header_size 0)
        (take 32 (drop (header_size + 1) d)) (associate endpoint client_id gs),
    associate-Kept endpoint client_id gs,
    handle_udp_ping-Kept endpoint client_id gs clock,
    handle_udp_pong-Kept endpoint client_id gs clock,
    handle_udp_resync-Kept endpoint client_id gs,
    handle_udp_input-Kept endpoint client_id gs d header_size,
  )

pub parse_datagram-Kept :
    (crypto : Crypto) (clock : Clock) (endpoint : Address) (d : Bytes) (gs : GameServer)
    → Ends (Kept gs) (parse_datagram crypto clock endpoint d gs)
unfolding parse_datagram
parse_datagram-Kept crypto clock endpoint d gs = ground (
  arith,
  dispatch_datagram-Kept crypto clock endpoint (game_id_of (drop 16 d)) d (get_or d 20 0) gs,
)
