-- ===== src/GameServer/Handshake.antt =====
-- A client that answers its challenge in time gets a session.
use r_type_server.Prelude.{
  ℕ, zero, suc, ◌+◌, ◌-◌, ◌%◌, ◌^◌, ◌≤◌, ◌<◌, ◌≡◌, inl, inr, refl, ap, Bool, true, false, ◌&&◌, [],
  ◌∷◌, ◌++◌, some, arith, ltb, leb, length, take, drop, get_or, if◌then◌else◌, Bool-cases,
}
use r_type_server.Prelude.Dict.{nat_eq, endpoint_eq, lookup, list_beq, list_beq_iff, beq_refl}
use r_type_server.Wire.{Bytes, be_bytes}
use r_type_server.Gateway.State.{Address}
use r_type_server.Gateway.Packets.{game_id_of}
use r_type_server.GameServer.State.{GameServer, ClientState, authenticated, auth_timeout}
use r_type_server.GameServer.Udp.{Header, build_header, header_size, build_auth_ok_packet}
use r_type_server.GameServer.Sessions.{
  Crypto, Clock, served, shared_secret, client_handle, associate, send_datagram, set_session,
  mac_data, session,
}
use r_type_server.GameServer.Handlers.{
  find_timestamp, authenticate, check_cookie, is_challenged, handle_udp_auth_response, accept_join,
  handle_udp_join,
}
use r_type_server.GameServer.Datagrams.{is_authenticated, dispatch_datagram, parse_datagram}
use r_type_server.GameServer.Auth.{
  Has, set_session-lookup, send_datagram-sessions, associate-sessions,
}

-- OpenSSL as documented: with a key, HMAC-SHA256 gives 32 bytes, and HKDF gives a key.
pub record Works (crypto : Crypto) : Type 0 where
  pub mac : Bytes → Bytes
  pub key : Bytes → Bytes
  pub hmac : (x : Bytes) → crypto.hmac (shared_secret crypto) x ≡ some (mac x)
  pub length-mac : (x : Bytes) → length (mac x) ≡ 32
  pub derive_key : (x : Bytes) → crypto.derive_key (shared_secret crypto) x ≡ some (key x)

pub take_all : (n : ℕ) (xs : Bytes) → length xs ≡ n → take n xs ≡ xs
take_all zero [] e = refl
take_all zero (x ∷ xs) e = absurd (omega (arith, e))
take_all (suc n) [] e = refl
take_all (suc n) (x ∷ xs) e = ap (λ r. x ∷ r) (take_all n xs (omega (arith, e)))

module _ (crypto : Crypto) (w : Works crypto) (endpoint : Address) (nonce : ℕ) (cookie : Bytes)
    (now : ℕ) where
  mac_at : ℕ → Bytes
  mac_at ago = w.mac (mac_data endpoint nonce ((now + 2 ^ 64 - ago) % 2 ^ 64))

  fits : ℕ → Bool
  fits ago = leb 32 (length (mac_at ago)) && list_beq (take 32 (mac_at ago)) cookie

  fits-mac : (ago : ℕ) → mac_at ago ≡ cookie → fits ago ≡ true
  unfolding fits mac_at
  fits-mac ago e = ground (
    arith,
    w.length-mac (mac_data endpoint nonce ((now + 2 ^ 64 - ago) % 2 ^ 64)),
    take_all 32 (mac_at ago)
        (w.length-mac (mac_data endpoint nonce ((now + 2 ^ 64 - ago) % 2 ^ 64))),
    list_beq_iff (take 32 (mac_at ago)) cookie,
    e,
  )

  find_timestamp-step :
      (left dt : ℕ)
      → find_timestamp crypto endpoint nonce cookie now (suc left) dt ≡ (
          if fits dt
          then some (some ((now + 2 ^ 64 - dt) % 2 ^ 64))
          else find_timestamp crypto endpoint nonce cookie now left (dt + 1))
  unfolding find_timestamp fits mac_at
  find_timestamp-step left dt =
      ground (arith, w.hmac (mac_data endpoint nonce ((now + 2 ^ 64 - dt) % 2 ^ 64)))

  -- Some second is found if one fits.
  find_timestamp-finds :
      (left dt ago : ℕ)
      → dt ≤ ago
      → ago < dt + left
      → mac_at ago ≡ cookie
      → (ts : ℕ) × (find_timestamp crypto endpoint nonce cookie now left dt ≡ some (some ts))
  find_timestamp-finds zero dt ago from to e = absurd (omega arith)
  find_timestamp-finds (suc left) dt ago from to e = elim (Bool-cases (fits dt)) [
    | inl t ↦ ((now + 2 ^ 64 - dt) % 2 ^ 64, ground (arith, t, find_timestamp-step left dt))
    | inr f ↦
        skip f (
          find_timestamp-finds left (dt + 1) ago (ground (arith, f, fits-mac dt, e)) (omega arith)
            e)
  ]
    where
      skip :
          fits dt ≡ false
          → (ts : ℕ) × (find_timestamp crypto endpoint nonce cookie now left (dt + 1)
              ≡ some (some ts))
          → (ts : ℕ) × (find_timestamp crypto endpoint nonce cookie now (suc left) dt
              ≡ some (some ts))
      skip f (ts, found) = (ts, ground (arith, f, found, find_timestamp-step left dt))

-- The packets of a client: JOIN with its id, a nonce and a version, and AUTH with the nonce and a cookie.
abbrev pub join_packet : Header → ℕ → ℕ → Bytes
join_packet h nonce version = build_header h ++ (be_bytes 4 h.client_id ++ (nonce ∷ version ∷ []))

abbrev pub auth_packet : Header → ℕ → Bytes → Bytes
auth_packet h nonce cookie = build_header h ++ (nonce ∷ cookie)

pub parse_datagram-join :
    (crypto : Crypto) (clock : Clock) (endpoint : Address) (h : Header) (nonce version : ℕ)
    (gs : GameServer)
    → h.cmd ≡ 7
    → h.client_id < 2 ^ 32
    → parse_datagram crypto clock endpoint (join_packet h nonce version) gs
      ≡ accept_join crypto clock endpoint h.client_id nonce gs
unfolding parse_datagram build_header be_bytes dispatch_datagram handle_udp_join game_id_of
parse_datagram-join crypto clock endpoint h nonce version gs cmd id = ground (arith, cmd)

auth_at_start :
    (crypto : Crypto) (clock : Clock) (endpoint : Address) (h : Header) (nonce : ℕ) (cookie : Bytes)
    (gs : GameServer)
    → h.cmd ≡ 10
    → h.client_id < 2 ^ 32
    → parse_datagram crypto clock endpoint (auth_packet h nonce cookie) gs
      ≡ handle_udp_auth_response crypto clock endpoint
          (auth_packet h nonce cookie)
          header_size
          h.client_id
          gs
unfolding parse_datagram build_header be_bytes dispatch_datagram game_id_of
auth_at_start crypto clock endpoint h nonce cookie gs cmd id = ground (arith, cmd)

auth_response-check :
    (crypto : Crypto) (clock : Clock) (endpoint : Address) (d : Bytes) (o client_id nonce : ℕ)
    (cookie : Bytes) (gs : GameServer)
    → ltb (length d) (o + 33) ≡ false
    → get_or d o 0 ≡ nonce
    → take 32 (drop (o + 1) d) ≡ cookie
    → client_handle client_id gs ≡ 0
    → is_challenged (lookup endpoint gs.ep_client_states) ≡ true
    → handle_udp_auth_response crypto clock endpoint d o client_id gs
      ≡ check_cookie crypto clock endpoint 0 client_id nonce cookie
          (associate endpoint client_id gs)
unfolding handle_udp_auth_response session
auth_response-check crypto clock endpoint d o client_id nonce cookie gs long n c no_handle waits =
    rw (long, no_handle, associate-sessions endpoint client_id gs, waits, n, c) refl

length-auth_packet :
    (h : Header) (nonce : ℕ) (cookie : Bytes)
    → length cookie ≡ 32
    → ltb (length (auth_packet h nonce cookie)) 54 ≡ false
unfolding build_header be_bytes
length-auth_packet h nonce cookie n = ground (arith, n)

nonce-auth_packet :
    (h : Header) (nonce : ℕ) (cookie : Bytes) → get_or (auth_packet h nonce cookie) 21 0 ≡ nonce
unfolding build_header be_bytes
nonce-auth_packet h nonce cookie = refl

cookie-auth_packet :
    (h : Header) (nonce : ℕ) (cookie : Bytes)
    → length cookie ≡ 32
    → take 32 (drop 22 (auth_packet h nonce cookie)) ≡ cookie
unfolding build_header be_bytes
cookie-auth_packet h nonce cookie n = take_all 32 cookie n

-- What is left to do for a client whose endpoint was challenged.
authenticate-Has :
    (crypto : Crypto) (w : Works crypto) (endpoint : Address) (client_id ts : ℕ) (gs : GameServer)
    → (gs' : GameServer) × (authenticate crypto endpoint 0 client_id ts gs ≡ served gs')
      × Has endpoint gs'
unfolding authenticate is_authenticated
authenticate-Has crypto w endpoint client_id ts gs = (
  send_datagram endpoint 0 (build_auth_ok_packet client_id key) known,
  rw (authenticate, w.derive_key (be_bytes 8 ts)) refl,
  rw (send_datagram-sessions endpoint 0 known (build_auth_ok_packet client_id key))
      (rw (set_session-lookup endpoint 0 gs endpoint state, beq_refl endpoint) refl),
)
  where
    key : Bytes
    key = take 32 (w.key (be_bytes 8 ts))

    state : ClientState
    state = record { auth_state = authenticated; session_key = key }

    known : GameServer
    known = set_session endpoint 0 state gs

check_cookie-Has :
    (crypto : Crypto) (w : Works crypto) (clock : Clock) (endpoint : Address) (client_id nonce : ℕ)
    (cookie : Bytes) (gs : GameServer)
    → (ts : ℕ) × (find_timestamp crypto endpoint nonce cookie clock.seconds 6 0 ≡ some (some ts))
    → (gs' : GameServer) × (check_cookie crypto clock endpoint 0 client_id nonce cookie gs
        ≡ served gs')
      × Has endpoint gs'
unfolding check_cookie
check_cookie-Has crypto w clock endpoint client_id nonce cookie gs (ts, found) =
    rw (found) (authenticate-Has crypto w endpoint client_id ts gs)

-- An AUTH with the cookie of one of the last six seconds, of an endpoint that is challenged.
pub auth-Has :
    (crypto : Crypto) (w : Works crypto) (clock : Clock) (endpoint : Address) (h : Header)
    (nonce ago : ℕ) (gs : GameServer)
    → h.cmd ≡ 10
    → h.client_id < 2 ^ 32
    → ago ≤ auth_timeout
    → client_handle h.client_id gs ≡ 0
    → is_challenged (lookup endpoint gs.ep_client_states) ≡ true
    → (gs' : GameServer) × (parse_datagram crypto clock endpoint
          (auth_packet h nonce
            (w.mac (mac_data endpoint nonce ((clock.seconds + 2 ^ 64 - ago) % 2 ^ 64))))
          gs
        ≡ served gs')
      × Has endpoint gs'
auth-Has crypto w clock endpoint h nonce ago gs cmd id in_time no_handle waits =
    rw
      (
        auth_at_start crypto clock endpoint h nonce cookie gs cmd id,
        auth_response-check crypto clock endpoint (auth_packet h nonce cookie) 21 h.client_id nonce
            cookie gs (length-auth_packet h nonce cookie n) (nonce-auth_packet h nonce cookie)
            (cookie-auth_packet h nonce cookie n) no_handle waits,
      )
      (check_cookie-Has crypto w clock endpoint h.client_id nonce cookie
        (associate endpoint h.client_id gs)
        (find_timestamp-finds crypto w endpoint nonce cookie clock.seconds 6 0 ago (omega arith)
          (omega arith) (unfold mac_at in refl)))
  where
    cookie : Bytes
    cookie = w.mac (mac_data endpoint nonce ((clock.seconds + 2 ^ 64 - ago) % 2 ^ 64))

    n : length cookie ≡ 32
    n = w.length-mac _
