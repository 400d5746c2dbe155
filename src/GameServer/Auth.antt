-- ===== src/GameServer/Auth.antt =====
-- Who gets a session: the cookies of server/src/GameServer/UDPHandlers.cpp.
use r_type_server.Prelude.{
  ℕ, zero, suc, ◌+◌, ◌-◌, ◌%◌, ◌^◌, ◌≤◌, ◌<◌, ◌≡◌, ◌⊎◌, inl, inr, refl, true, false, ◌&&◌, Option,
  none, some, arith, leb, ◌==◌, length, take, drop, get_or, if◌then◌else◌, Bool-cases,
}
use r_type_server.Prelude.Dict.{
  nat_eq, endpoint_eq, endpoint_beq, endpoint_beq_iff, list_beq, list_beq_iff, lookup,
  lookup-insert,
}
use r_type_server.Wire.{Bytes, be_bytes}
use r_type_server.Gateway.State.{Address}
use r_type_server.GameServer.State.{
  GameServer, ClientState, authenticated, AuthChallenge, auth_timeout,
}
use r_type_server.GameServer.Udp.{Numbers, build_auth_ok_packet}
use r_type_server.GameServer.Sessions.{
  Crypto, Clock, Handled, served, thrown, undefined, shared_secret, associate, send_datagram,
  push_packet, next_number, reset_numbers, set_session, set_challenge, mac_data, assign_game,
}
use r_type_server.GameServer.Handlers.{find_timestamp, authenticate}
use r_type_server.GameServer.Datagrams.{is_authenticated}

-- A cookie is right for an endpoint, a nonce and the clock if it is the MAC of them at one of the last
-- seconds, from `dt` ago on, `left` of them.
pub record IsMac (crypto : Crypto) (endpoint : Address) (nonce : ℕ) (cookie : Bytes)
    (now dt left ts : ℕ) : Type 0 where
  pub ago : ℕ
  pub mac : Bytes
  pub from : dt ≤ ago
  pub to : ago < dt + left
  pub at : ts ≡ (now + 2 ^ 64 - ago) % 2 ^ 64
  pub computed : crypto.hmac (shared_secret crypto) (mac_data endpoint nonce ts) ≡ some mac
  pub long : 32 ≤ length mac
  pub equal : take 32 mac ≡ cookie

module _ (crypto : Crypto) (endpoint : Address) (nonce : ℕ) (cookie : Bytes) (now : ℕ) where
  later :
      {dt left ts : ℕ}
      → IsMac crypto endpoint nonce cookie now (dt + 1) left ts
      → IsMac crypto endpoint nonce cookie now dt (suc left) ts
  later m = record {
    ago = m.ago;
    mac = m.mac;
    from = omega (arith, m.from);
    to = omega (arith, m.to);
    at = m.at;
    computed = m.computed;
    long = m.long;
    equal = m.equal;
  }

  pub find_timestamp-IsMac :
      (left dt ts : ℕ)
      → find_timestamp crypto endpoint nonce cookie now left dt ≡ some (some ts)
      → IsMac crypto endpoint nonce cookie now dt left ts
  unfolding find_timestamp
  find_timestamp-IsMac zero dt ts e = absurd (ground (arith, e))
  find_timestamp-IsMac (suc left) dt ts e =
      with_mac _ refl e (find_timestamp-IsMac left (dt + 1) ts)
    where
      this : ℕ
      this = (now + 2 ^ 64 - dt) % 2 ^ 64

      found :
          (mac : Bytes)
          → crypto.hmac (shared_secret crypto) (mac_data endpoint nonce this) ≡ some mac
          → (leb 32 (length mac) && list_beq (take 32 mac) cookie) ≡ true
          → ts ≡ this
          → IsMac crypto endpoint nonce cookie now dt (suc left) ts
      found mac c t same = record {
        ago = dt;
        mac = mac;
        from = omega arith;
        to = omega arith;
        at = same;
        computed = rw same c;
        long = ground (arith, t);
        equal = ground (arith, t, list_beq_iff (take 32 mac) cookie);
      }

      with_mac :
          (r : Option Bytes)
          → crypto.hmac (shared_secret crypto) (mac_data endpoint nonce this) ≡ r
          → elim r [
            | none ↦ none
            | some mac ↦ elim (leb 32 (length mac) && list_beq (take 32 mac) cookie) [
              | true ↦ some (some this)
              | false ↦ find_timestamp crypto endpoint nonce cookie now left (dt + 1)
            ]
          ]
            ≡ some (some ts)
          → (find_timestamp crypto endpoint nonce cookie now left (dt + 1) ≡ some (some ts)
              → IsMac crypto endpoint nonce cookie now (dt + 1) left ts)
          → IsMac crypto endpoint nonce cookie now dt (suc left) ts
      with_mac none c e ih = absurd (ground (arith, e))
      with_mac (some mac) c e ih =
          elim (Bool-cases (leb 32 (length mac) && list_beq (take 32 mac) cookie)) [
            | inl t ↦ found mac c t (ground (arith, e, t))
            | inr f ↦ later (ih (ground (arith, e, f)))
          ]

-- Whether the endpoint has a session.
abbrev pub Has : Address → GameServer → Type 0
Has j gs = is_authenticated (lookup j gs.ep_client_states) ≡ true

-- No session but those there were, and with `P` one of the endpoint `j`.
abbrev pub Grants : Address → Type 0 → GameServer → Handled → Type 0
Grants j P gs (served gs') = Has j gs' → Has j gs ⊎ P
Grants j P gs (thrown gs') = Has j gs' → Has j gs ⊎ P
Grants j P gs undefined = Unit {0}

-- What an AUTH of an endpoint must carry.
abbrev pub RightCookie : Crypto → Clock → Address → Bytes → ℕ → Type 0
RightCookie crypto clock endpoint d o =
    (ts : ℕ) × IsMac crypto endpoint (get_or d o 0) (take 32 (drop (o + 1) d)) clock.seconds 0
      (auth_timeout + 1) ts

module _ (endpoint : Address) (h : ℕ) (gs : GameServer) where
  pub next_number-sessions : (next_number endpoint h gs).ep_client_states ≡ gs.ep_client_states
  unfolding next_number
  next_number-sessions = ground arith

  pub send_datagram-sessions :
      (build : Numbers → Bytes)
      → (send_datagram endpoint h build gs).ep_client_states ≡ gs.ep_client_states
  unfolding send_datagram push_packet
  send_datagram-sessions build = next_number-sessions

  pub reset_numbers-sessions : (reset_numbers endpoint h gs).ep_client_states ≡ gs.ep_client_states
  unfolding reset_numbers
  reset_numbers-sessions = ground arith

  pub set_challenge-sessions :
      (entry : AuthChallenge)
      → (set_challenge endpoint h entry gs).ep_client_states ≡ gs.ep_client_states
  unfolding set_challenge
  set_challenge-sessions entry = ground arith

  pub set_session-lookup :
      (j : Address) (state : ClientState)
      → lookup j (set_session endpoint h state gs).ep_client_states
        ≡ (if h == 0 && endpoint_beq endpoint j then some state else lookup j gs.ep_client_states)
  unfolding set_session
  set_session-lookup j state = ground (arith, lookup-insert endpoint j state gs.ep_client_states)

  pub set_session-Has :
      (j : Address) (state : ClientState)
      → Has j (set_session endpoint h state gs)
      → Has j gs ⊎ ((j ≡ endpoint) × (is_authenticated (some state) ≡ true))
  set_session-Has j state has = elim (Bool-cases (h == 0 && endpoint_beq endpoint j)) [
    | inl own ↦ inr (
      ground (arith, own, endpoint_beq_iff endpoint j),
      ground (arith, has, own, set_session-lookup j state),
    )
    | inr other ↦ inl (ground (arith, has, other, set_session-lookup j state))
  ]

pub assign_game-sessions :
    (client_id : ℕ) (gs : GameServer)
    → (assign_game client_id gs).ep_client_states ≡ gs.ep_client_states
unfolding assign_game
assign_game-sessions client_id gs = ground arith

pub associate-sessions :
    (endpoint : Address) (client_id : ℕ) (gs : GameServer)
    → (associate endpoint client_id gs).ep_client_states ≡ gs.ep_client_states
unfolding associate
associate-sessions endpoint client_id gs = ground arith

-- With the endpoint's state set to authenticated, and a packet sent.
pub authenticate-Grants :
    (crypto : Crypto) (endpoint j : Address) (h client_id ts : ℕ) (gs : GameServer)
    → Grants j (j ≡ endpoint) gs (authenticate crypto endpoint h client_id ts gs)
unfolding authenticate
authenticate-Grants crypto endpoint j h client_id ts gs =
    derived (crypto.derive_key (shared_secret crypto) (be_bytes 8 ts))
  where
    derived :
        (r : Option Bytes)
        → Grants j (j ≡ endpoint) gs (elim r [
          | none ↦ thrown gs
          | some derived ↦ served (
              send_datagram endpoint h (build_auth_ok_packet client_id (take 32 derived)) (
                set_session endpoint h
                  (record { auth_state = authenticated; session_key = take 32 derived })
                  gs))
        ])
    derived none = λ has. inl has
    derived (some key) = λ has.
        elim (set_session-Has endpoint h gs j
          (record { auth_state = authenticated; session_key = take 32 key })
          (rw
            (send_datagram-sessions endpoint h
              (set_session endpoint h
                (record { auth_state = authenticated; session_key = take 32 key }) gs)
              (build_auth_ok_packet client_id (take 32 key)))
            at has)) [ inl before ↦ inl before | inr own ↦ inr own.0 ]
