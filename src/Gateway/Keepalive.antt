-- ===== src/Gateway/Keepalive.antt =====
-- What the keepalives of `sendOccupancyRequests` leave (server/src/Gateway/Send.cpp).
use r_type_server.Prelude.{
  ℕ, ◌≡◌, refl, sym, ◌∙◌, ap, Bool, true, false, List, [], ◌∷◌, ◌++◌, Option, none, some, arith,
  ◌==◌, if◌then◌else◌,
}
use mathlib.Core.List.{append_assoc, append-nil}
use r_type_server.Prelude.Dict.{Dict, nat_eq, endpoint_eq, get, lookup, lookup-insert}
use r_type_server.Wire.{Bytes}
use r_type_server.Gateway.State.{Gateway, Address}
use r_type_server.Gateway.Packets.{build_simple_response}
use r_type_server.Gateway.Helpers.{queue}
use r_type_server.Gateway.Net.{keepalives, send_occupancy_requests}
use r_type_server.Gateway.Outbox.{outbox}

-- One request for each registered address whose connection is the handle's.
unfoldable pub requests : ℕ → Dict Address ℕ → Dict Address ℕ → List Bytes
unfolding lookup
requests j conns [] = []
requests j conns ((key, load) ∷ registry) =
    let rest = requests j conns registry in
    elim (lookup key conns) [
      | none ↦ rest
      | some h ↦ if h == j then build_simple_response 21 ∷ rest else rest
    ]

outbox-queue :
    (h j : ℕ) (msg : Bytes) (gw : Gateway)
    → outbox j (queue h msg gw) ≡ (if h == j then outbox j gw ++ msg ∷ [] else outbox j gw)
unfolding outbox queue
outbox-queue h j msg gw =
    ground (arith, lookup-insert h j (get h [] gw.send_spans ++ msg ∷ []) gw.send_spans)

keepalives-outbox :
    (j : ℕ) (registry : Dict Address ℕ) (gw : Gateway)
    → outbox j (keepalives registry gw) ≡ outbox j gw ++ requests j gw.gs_addr_to_handle registry
unfolding keepalives requests queue
keepalives-outbox j [] gw = sym (append-nil (outbox j gw))
keepalives-outbox j ((key, load) ∷ registry) gw =
    at_key (keepalives-outbox j registry) (lookup key gw.gs_addr_to_handle)
  where
    rest : List Bytes
    rest = requests j gw.gs_addr_to_handle registry

    at_connection :
        (b : Bool) {queued : List Bytes}
        → queued ≡ (if b then outbox j gw ++ build_simple_response 21 ∷ [] else outbox j gw)
        → queued ++ rest ≡ outbox j gw ++ (if b then build_simple_response 21 ∷ rest else rest)
    at_connection true e = rw (e) (append_assoc (outbox j gw) (build_simple_response 21 ∷ []) rest)
    at_connection false e = ap (λ q. q ++ rest) e

    at_key :
        ((gw' : Gateway)
          → outbox j (keepalives registry gw')
            ≡ outbox j gw' ++ requests j gw'.gs_addr_to_handle registry)
        → (found : Option ℕ)
        → outbox j (elim found [
          | none ↦ keepalives registry gw
          | some h ↦ keepalives registry (queue h (build_simple_response 21) gw)
        ])
          ≡ outbox j gw ++ elim found [
            | none ↦ rest
            | some h ↦ if h == j then build_simple_response 21 ∷ rest else rest
          ]
    at_key ih none = ih gw
    at_key ih (some h) =
        ih (queue h (build_simple_response 21) gw)
        ∙ at_connection (h == j) (outbox-queue h j (build_simple_response 21) gw)

keepalives-fds : (registry : Dict Address ℕ) (gw : Gateway) → (keepalives registry gw).fds ≡ gw.fds
unfolding keepalives queue
keepalives-fds [] gw = refl
keepalives-fds ((key, load) ∷ registry) gw =
    at_key (lookup key gw.gs_addr_to_handle) (keepalives-fds registry)
  where
    at_key :
        (found : Option ℕ)
        → ((gw' : Gateway) → (keepalives registry gw').fds ≡ gw'.fds)
        → (elim found as (λ _. Gateway) [
          | none ↦ keepalives registry gw
          | some h ↦ keepalives registry (queue h (build_simple_response 21) gw)
        ]).fds
          ≡ gw.fds
    at_key none ih = ih gw
    at_key (some h) ih = ih (queue h (build_simple_response 21) gw)

-- The requests of the gateway to its servers go to the end of each queue, one for each registered address
-- that has a connection, and to that connection; no descriptor is changed, so none waits for a chance to
-- write on their account.
pub send_occupancy_requests-outbox :
    (j : ℕ) (gw : Gateway)
    → (outbox j (send_occupancy_requests gw)
        ≡ outbox j gw ++ requests j gw.gs_addr_to_handle gw.gs_registry)
      × ((send_occupancy_requests gw).fds ≡ gw.fds)
unfolding send_occupancy_requests
send_occupancy_requests-outbox j gw =
    (keepalives-outbox j gw.gs_registry gw, keepalives-fds gw.gs_registry gw)
