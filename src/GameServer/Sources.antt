-- ===== src/GameServer/Sources.antt =====
-- The invariant of the sessions through the packets of a round.
use mathlib.Core.Path.{subst}
use r_type_server.Prelude.{sym, ℕ, ◌≡◌, inl, inr, List, [], ◌∷◌, All, Bool-cases}
use r_type_server.Prelude.Dict.{Dict, nat_eq, endpoint_eq, insert, get, is_empty}
use r_type_server.Wire.{Bytes}
use r_type_server.Gateway.State.{Address}
use r_type_server.GameServer.State.{GameServer}
use r_type_server.GameServer.Udp.{header_size}
use r_type_server.GameServer.Sessions.{Crypto, Clock, served, thrown}
use r_type_server.GameServer.Auth.{RightCookie}
use r_type_server.GameServer.Gate.{parse_datagram-Grants}
use r_type_server.GameServer.Kept.{Ends, Ends-map, parse_datagram-Kept}
use r_type_server.GameServer.Frames.{ping_clients-Frame, catch_error-Frame}
use r_type_server.GameServer.Attempts.{parse_datagram-Untried}
use r_type_server.GameServer.Known.{
  Packets, Packets-insert, Known, Known-Frame, Known-Ends, Known-then, cleanup_handles-Known,
  cleanup_endpoints-Known,
}
use r_type_server.GameServer.Datagrams.{
  parse_datagram, try_datagram, parse_all, parse_endpoints, parse_packets, catch_error,
  ping_clients, cleanup_handles, cleanup_expired_auth_challenges,
}

module _ (Came : Address → Bytes → Type 0) (Granted : Address → Type 0) (crypto : Crypto)
    (clock : Clock)
    (give : (endpoint : Address) (d : Bytes)
      → Came endpoint d
      → RightCookie crypto clock endpoint d header_size
      → Granted endpoint) where
  abbrev Good : GameServer → Type 0
  Good = Known Came Granted

  parse_datagram-Known :
      (endpoint : Address) (d : Bytes) (gs : GameServer)
      → Came endpoint d
      → Good gs
      → Ends Good (parse_datagram crypto clock endpoint d gs)
  parse_datagram-Known endpoint d gs came k =
      Known-Ends Came Granted
        (λ j. (j ≡ endpoint) × RightCookie crypto clock endpoint d header_size) gs
        (parse_datagram crypto clock endpoint d gs) (parse_datagram-Kept crypto clock endpoint d gs)
        (parse_datagram-Untried crypto clock endpoint d gs k.untried)
        (λ j. parse_datagram-Grants crypto clock endpoint j d gs)
        (λ j q. subst Granted (sym q.0) (give endpoint d came q.1)) k

  try_datagram-Known :
      (endpoint : Address) (h : ℕ) (d : Bytes) (gs : GameServer)
      → Came endpoint d
      → Good gs
      → Ends Good (try_datagram crypto clock endpoint h d gs)
  unfolding try_datagram
  try_datagram-Known endpoint h d gs came k = elim (Bool-cases (is_empty d)) [
    | inl nothing ↦ rw nothing k
    | inr some_bytes ↦ rw some_bytes (
        Known-then Came Granted (parse_datagram crypto clock endpoint d gs) (λ g. served g)
          (λ g. catch_error h g) (parse_datagram-Known endpoint d gs came k) (λ g kg. kg)
          (λ g kg.
            Ends-map (catch_error h g) (λ g' e. Known-Frame Came Granted g g' e kg)
              (catch_error-Frame h g)))
  ]

  parse_all-Known :
      (endpoint : Address) (h : ℕ) (ds : List Bytes) (gs : GameServer)
      → All (Came endpoint) ds
      → Good gs
      → Ends Good (parse_all crypto clock endpoint h ds gs)
  unfolding parse_all
  parse_all-Known endpoint h [] gs came k = k
  parse_all-Known endpoint h (d ∷ ds) gs came k =
      Known-then Came Granted (try_datagram crypto clock endpoint h d gs)
        (λ g. parse_all crypto clock endpoint h ds g) (λ g. thrown g)
        (try_datagram-Known endpoint h d gs came.0 k)
        (λ g kg. parse_all-Known endpoint h ds g came.1 kg) (λ g kg. kg)

  parse_endpoints-Known :
      (m : Dict Address (List Bytes)) (gs : GameServer)
      → Packets Came m
      → Good gs
      → Ends Good (parse_endpoints crypto clock m gs)
  unfolding parse_endpoints
  parse_endpoints-Known [] gs came k = k
  parse_endpoints-Known ((endpoint, ds) ∷ m) gs came k =
      Known-then Came Granted
        (parse_all crypto clock endpoint (get endpoint 0 gs.endpoint_to_handle) ds gs)
        (λ g.
          parse_endpoints crypto clock m
            (record g { recv_packets = insert endpoint [] g.recv_packets }))
        (λ g. thrown g)
        (parse_all-Known endpoint (get endpoint 0 gs.endpoint_to_handle) ds gs came.0 k)
        (λ g kg.
          parse_endpoints-Known m (record g { recv_packets = insert endpoint [] g.recv_packets })
            came.1
            (record {
              packets = Packets-insert Came endpoint [] g.recv_packets tt kg.packets;
              sessions = kg.sessions;
              untried = kg.untried;
            }))
        (λ g kg. kg)

  pub parse_packets-Known : (gs : GameServer) → Good gs → Ends Good (parse_packets crypto clock gs)
  unfolding parse_packets cleanup_expired_auth_challenges
  parse_packets-Known gs k =
      let pinged = ping_clients clock gs.client_ids gs in
      let kp : Good pinged =
        Known-Frame Came Granted gs pinged (ping_clients-Frame clock gs.client_ids gs) k in
      Known-then Came Granted (parse_endpoints crypto clock pinged.recv_packets pinged)
        (λ g. cleanup_expired_auth_challenges clock g) (λ g. thrown g)
        (parse_endpoints-Known pinged.recv_packets pinged kp.packets kp)
        (λ g kg.
          cleanup_endpoints-Known Came Granted clock g.ep_auth_states
            (cleanup_handles clock g.auth_states g)
            (cleanup_handles-Known Came Granted clock g.auth_states g kg))
        (λ g kg. kg)
