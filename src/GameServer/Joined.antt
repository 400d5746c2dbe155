-- ===== src/GameServer/Joined.antt =====
-- A client that joins and answers its challenge in time gets a session.
use r_type_server.Prelude.{
  ℕ, ◌+◌, ◌-◌, ◌%◌, ◌^◌, ◌≤◌, ◌<◌, ◌≡◌, refl, ap, ◌∙◌, true, [], ◌∷◌, ◌++◌, arith,
}
use r_type_server.Prelude.Dict.{nat_eq, endpoint_eq, lookup, insert, get, beq_refl, get-insert}
use r_type_server.Wire.{Bytes}
use r_type_server.Gateway.State.{Address}
use r_type_server.GameServer.State.{GameServer}
use r_type_server.GameServer.Udp.{Header, build_challenge_with_cookie}
use r_type_server.GameServer.Sessions.{
  Crypto, Clock, served, client_handle, associate, send_datagram, reset_numbers, set_session,
  set_challenge, mac_data, cookie_of, assign_game, numbers,
}
use r_type_server.GameServer.Handlers.{is_challenged, challenge_client, accept_join}
use r_type_server.GameServer.Datagrams.{parse_datagram}
use r_type_server.GameServer.Auth.{Has, set_session-lookup}
use r_type_server.GameServer.Sessions.{push_packet, next_number}
use r_type_server.GameServer.Handshake.{
  Works, take_all, join_packet, auth_packet, parse_datagram-join, auth-Has,
}
use r_type_server.GameServer.Gate.{new_state, challenge_client-sessions}

-- Adding a packet and a game to what a JOIN has set up.
assign_game-keeps :
    (client_id : ℕ) (gs : GameServer)
    → ((assign_game client_id gs).client_ids ≡ gs.client_ids)
      × ((assign_game client_id gs).send_spans ≡ gs.send_spans)
unfolding assign_game
assign_game-keeps client_id gs = (ground arith, ground arith)

associate-keeps :
    (endpoint : Address) (client_id : ℕ) (gs : GameServer)
    → ((associate endpoint client_id gs).client_ids ≡ gs.client_ids)
      × ((associate endpoint client_id gs).send_spans ≡ gs.send_spans)
unfolding associate
associate-keeps endpoint client_id gs = (ground arith, ground arith)

reset-numbers :
    (endpoint : Address) (gs : GameServer)
    → numbers endpoint 0 (reset_numbers endpoint 0 gs)
      ≡ record { seq = 0; ack_base = 0; ack_bits = 0 }
unfolding numbers reset_numbers
reset-numbers endpoint gs =
    rw
      (
        get-insert endpoint endpoint 0 0 gs.ep_sequence_nums,
        get-insert endpoint endpoint 0 0 gs.ep_last_received_seq,
        get-insert endpoint endpoint 0 0 gs.ep_sack_bits,
        beq_refl endpoint,
      )
      refl

-- After a JOIN of a client without a handle.
module _ (crypto : Crypto) (w : Works crypto) (clock : Clock) (endpoint : Address)
    (client_id nonce : ℕ) (gs : GameServer) where
  reset : GameServer
  reset = reset_numbers endpoint 0 (
      associate endpoint client_id
        (record gs { endpoint_to_client = insert endpoint client_id gs.endpoint_to_client }))

  joined : GameServer
  joined =
      challenge_client clock endpoint 0 client_id (w.mac (mac_data endpoint nonce clock.seconds))
        reset

  accept_join-joined :
      client_handle client_id gs ≡ 0
      → accept_join crypto clock endpoint client_id nonce gs ≡ served joined
  unfolding accept_join joined reset
  accept_join-joined no_handle =
      rw (accept_join, w.hmac (mac_data endpoint nonce clock.seconds), no_handle) refl

  joined-client_ids : joined.client_ids ≡ gs.client_ids
  unfolding joined challenge_client send_datagram push_packet next_number set_challenge set_session
      reset reset_numbers
  joined-client_ids =
      (assign_game-keeps client_id _).0
      ∙ (associate-keeps endpoint client_id
          (record gs { endpoint_to_client = insert endpoint client_id gs.endpoint_to_client })).0

  joined-handle : client_handle client_id joined ≡ client_handle client_id gs
  unfolding client_handle
  joined-handle = ap (λ m. get client_id 0 m) joined-client_ids

  joined-waits : is_challenged (lookup endpoint joined.ep_client_states) ≡ true
  unfolding joined is_challenged
  joined-waits =
      rw
        (
          challenge_client-sessions clock endpoint 0 client_id
              (w.mac (mac_data endpoint nonce clock.seconds)) reset,
          set_session-lookup endpoint 0 reset endpoint new_state,
          beq_refl endpoint,
        )
        refl

  -- The numbers begin anew, and nothing was sent in between.
  reset-start :
      (numbers endpoint 0 reset ≡ record { seq = 0; ack_base = 0; ack_bits = 0 })
      × (reset.send_spans ≡ gs.send_spans)
  unfolding reset reset_numbers
  reset-start = (
    reset-numbers endpoint _,
    (associate-keeps endpoint client_id
        (record gs { endpoint_to_client = insert endpoint client_id gs.endpoint_to_client })).1,
  )

  cookie_of-mac :
      cookie_of (w.mac (mac_data endpoint nonce clock.seconds))
      ≡ w.mac (mac_data endpoint nonce clock.seconds)
  unfolding cookie_of
  cookie_of-mac = rw (w.length-mac (mac_data endpoint nonce clock.seconds)) (
      take_all 32 (w.mac (mac_data endpoint nonce clock.seconds))
        (w.length-mac (mac_data endpoint nonce clock.seconds)))

  joined-outbox :
      get endpoint [] joined.send_spans
      ≡ get endpoint [] gs.send_spans
        ++ build_challenge_with_cookie client_id clock.seconds
            (w.mac (mac_data endpoint nonce clock.seconds))
            (record { seq = 0; ack_base = 0; ack_bits = 0 })
          ∷ []
  unfolding joined challenge_client send_datagram push_packet next_number set_challenge set_session
  joined-outbox =
      rw
        (
          (assign_game-keeps client_id _).1,
          get-insert endpoint endpoint [] _ reset.send_spans,
          beq_refl endpoint,
          cookie_of-mac,
          reset-start.0,
          reset-start.1,
        )
        refl

-- Where OpenSSL works as documented, a client without a handle that joins is sent a challenge with a
-- cookie, numbered from 0, and if it sends the cookie back with its nonce within five seconds, it gets a
-- session.
pub handshake :
    (crypto : Crypto) (w : Works crypto) (clock clock' : Clock) (endpoint : Address) (h h' : Header)
    (nonce version : ℕ) (gs : GameServer)
    → h.cmd ≡ 7
    → h'.cmd ≡ 10
    → h'.client_id ≡ h.client_id
    → h.client_id < 2 ^ 32
    → client_handle h.client_id gs ≡ 0
    → clock'.seconds < 2 ^ 64
    → clock.seconds ≤ clock'.seconds
    → clock'.seconds ≤ clock.seconds + 5
    → (gs1 : GameServer) × (cookie : Bytes) × (gs2 : GameServer) × (parse_datagram crypto clock
          endpoint
          (join_packet h nonce version)
          gs
        ≡ served gs1)
      × (get endpoint [] gs1.send_spans
          ≡ get endpoint [] gs.send_spans
            ++ build_challenge_with_cookie h.client_id clock.seconds cookie
                (record { seq = 0; ack_base = 0; ack_bits = 0 })
              ∷ [])
      × (parse_datagram crypto clock' endpoint (auth_packet h' nonce cookie) gs1 ≡ served gs2)
      × Has endpoint gs2
handshake crypto w clock clock' endpoint h h' nonce version gs join auth same id no_handle range
      from to =
    (
      gs1,
      cookie,
      answered.0,
      parse_datagram-join crypto clock endpoint h nonce version gs join id
          ∙ accept_join-joined crypto w clock endpoint h.client_id nonce gs no_handle,
      joined-outbox crypto w clock endpoint h.client_id nonce gs,
      answered.1,
      answered.2,
    )
  where
    gs1 : GameServer
    gs1 = joined crypto w clock endpoint h.client_id nonce gs

    cookie : Bytes
    cookie = w.mac (mac_data endpoint nonce clock.seconds)

    ago : ℕ
    ago = clock'.seconds - clock.seconds

    then : (clock'.seconds + 2 ^ 64 - ago) % 2 ^ 64 ≡ clock.seconds
    then = omega arith

    answered :
        (gs2 : GameServer) × (parse_datagram crypto clock' endpoint
            (auth_packet h' nonce cookie)
            gs1
          ≡ served gs2)
        × Has endpoint gs2
    answered = rw (then) at (
        auth-Has crypto w clock' endpoint h' nonce ago gs1 auth (rw (same) id) (omega arith)
          (rw (same) (joined-handle crypto w clock endpoint h.client_id nonce gs ∙ no_handle))
          (joined-waits crypto w clock endpoint h.client_id nonce gs))
