-- ===== src/GameServer/Grants.antt =====
-- No datagram gives a session but an AUTH with the right cookie.
use r_type_server.Prelude.{
  ℕ, ◌+◌, ◌≡◌, inl, inr, refl, Bool, true, false, Option, none, some, arith, ltb, ◌==◌, length,
  take, drop, get_or, if◌then◌else◌,
}
use r_type_server.Prelude.Dict.{nat_eq, endpoint_eq}
use r_type_server.Wire.{Bytes}
use r_type_server.Gateway.State.{Address}
use r_type_server.GameServer.State.{GameServer, auth_timeout}
use r_type_server.GameServer.Sessions.{
  Crypto, Clock, Handled, served, thrown, undefined, client_handle, associate, session,
}
use r_type_server.GameServer.Handlers.{
  find_timestamp, authenticate, check_cookie, record_auth_attempt, is_challenged,
  handle_udp_auth_response,
}
use r_type_server.GameServer.Auth.{
  IsMac, find_timestamp-IsMac, Grants, RightCookie, associate-sessions, authenticate-Grants,
}

-- The sessions are as they were.
abbrev pub Keeps : GameServer → Handled → Type 0
Keeps gs (served gs') = gs'.ep_client_states ≡ gs.ep_client_states
Keeps gs (thrown gs') = gs'.ep_client_states ≡ gs.ep_client_states
Keeps gs undefined = Unit {0}

module _ (j : Address) (P : Type 0) (gs : GameServer) where
  pub Keeps-Grants : (r : Handled) → Keeps gs r → Grants j P gs r
  Keeps-Grants (served gs') e = λ has. inl (rw e at has)
  Keeps-Grants (thrown gs') e = λ has. inl (rw e at has)
  Keeps-Grants undefined e = tt

  map-Grants : (Q : Type 0) (r : Handled) → (P → Q) → Grants j P gs r → Grants j Q gs r
  map-Grants Q (served gs') f g =
      λ has. elim (g has) [ inl before ↦ inl before | inr p ↦ inr (f p) ]
  map-Grants Q (thrown gs') f g =
      λ has. elim (g has) [ inl before ↦ inl before | inr p ↦ inr (f p) ]
  map-Grants Q undefined f g = tt

  -- From a state with the same sessions.
  pub from-Grants :
      (known : GameServer) (r : Handled)
      → known.ep_client_states ≡ gs.ep_client_states
      → Grants j P known r
      → Grants j P gs r
  from-Grants known (served gs') e g =
      λ has. elim (g has) [ inl before ↦ inl (rw e at before) | inr p ↦ inr p ]
  from-Grants known (thrown gs') e g =
      λ has. elim (g has) [ inl before ↦ inl (rw e at before) | inr p ↦ inr p ]
  from-Grants known undefined e g = tt

  pub if-Grants :
      (b : Bool) (r r' : Handled)
      → Grants j P gs r
      → Grants j P gs r'
      → Grants j P gs (if b then r else r')
  if-Grants true r r' g g' = g
  if-Grants false r r' g g' = g'

record_auth_attempt-sessions :
    (clock : Clock) (h : ℕ) (gs : GameServer)
    → (record_auth_attempt clock h gs).ep_client_states ≡ gs.ep_client_states
unfolding record_auth_attempt
record_auth_attempt-sessions clock h gs = ground arith

module _ (crypto : Crypto) (clock : Clock) (endpoint j : Address) (client_id : ℕ) where
  check_cookie-Grants :
      (h nonce : ℕ) (cookie : Bytes) (gs : GameServer)
      → Grants j
          ((j ≡ endpoint)
            × ((ts : ℕ) × IsMac crypto endpoint nonce cookie clock.seconds 0 (auth_timeout + 1) ts))
          gs
          (check_cookie crypto clock endpoint h client_id nonce cookie gs)
  unfolding check_cookie
  check_cookie-Grants h nonce cookie gs =
      found (find_timestamp crypto endpoint nonce cookie clock.seconds (auth_timeout + 1) 0)
        (find_timestamp-IsMac crypto endpoint nonce cookie clock.seconds (auth_timeout + 1) 0)
    where
      Right : Type 0
      Right = (ts : ℕ) × IsMac crypto endpoint nonce cookie clock.seconds 0 (auth_timeout + 1) ts

      found :
          (r : Option (Option ℕ))
          → ((ts : ℕ)
              → r ≡ some (some ts)
              → IsMac crypto endpoint nonce cookie clock.seconds 0 (auth_timeout + 1) ts)
          → Grants j ((j ≡ endpoint) × Right) gs (elim r [
            | none ↦ thrown gs
            | some none ↦ served (if h == 0 then gs else record_auth_attempt clock h gs)
            | some (some ts) ↦ authenticate crypto endpoint h client_id ts gs
          ])
      found none right = λ has. inl has
      found (some none) right =
          Keeps-Grants j ((j ≡ endpoint) × Right) gs
            (served (if h == 0 then gs else record_auth_attempt clock h gs))
            (ground (arith, record_auth_attempt-sessions clock h gs))
      found (some (some ts)) right =
          map-Grants j (j ≡ endpoint) gs ((j ≡ endpoint) × Right)
            (authenticate crypto endpoint h client_id ts gs) (λ own. (own, (ts, right ts refl)))
            (authenticate-Grants crypto endpoint j h client_id ts gs)

  pub handle_udp_auth_response-Grants :
      (d : Bytes) (o : ℕ) (gs : GameServer)
      → Grants j
          ((j ≡ endpoint) × RightCookie crypto clock endpoint d o)
          gs
          (handle_udp_auth_response crypto clock endpoint d o client_id gs)
  unfolding handle_udp_auth_response
  handle_udp_auth_response-Grants d o gs =
      if-Grants j _ gs (ltb (length d) (o + 33)) _ _ (λ has. inl has)
        (from-Grants j _ gs (associate endpoint client_id gs) _
          (associate-sessions endpoint client_id gs)
          (if-Grants j _ (associate endpoint client_id gs)
            (is_challenged
              (session endpoint (client_handle client_id gs) (associate endpoint client_id gs)))
            _ _
            (check_cookie-Grants (client_handle client_id gs) (get_or d o 0)
              (take 32 (drop (o + 1) d)) (associate endpoint client_id gs))
            (λ has. inl has)))
