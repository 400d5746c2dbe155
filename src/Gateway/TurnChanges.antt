-- ===== src/Gateway/TurnChanges.antt =====
-- What a disconnection and a send do to the gateway's directory (server/src/Gateway/Helpers.cpp, Send.cpp).
use r_type_server.Prelude.{ℕ, ◌≡◌, refl, List, [], ◌∷◌, Option, none, arith, if◌then◌else◌}
use r_type_server.Prelude.Dict.{
  Dict, nat_eq, endpoint_eq, endpoint_beq_iff, contains, lookup, erase, Unique,
}
use r_type_server.Gateway.State.{Gateway, PollFd, Address}
use r_type_server.Gateway.Net.{forget_gs, disconnect_by_handle, send_packets}
use r_type_server.Gateway.Directory.{left, connected_by}
use r_type_server.Gateway.Changes.{Changed}

pub lookup-forget_gs :
    (h : ℕ) (k : Address) (m registry : Dict Address ℕ)
    → Unique m
    → lookup k (forget_gs h m registry).1
      ≡ (if connected_by h (lookup k m) then none else lookup k m)
unfolding forget_gs lookup contains
lookup-forget_gs h k [] registry u = refl
lookup-forget_gs h k ((key, h') ∷ m) registry u = ground (
  arith,
  lookup-forget_gs h k m registry u.1,
  lookup-forget_gs h k m (erase key registry) u.1,
  endpoint_beq_iff key k,
)

pub disconnect_by_handle-Changed :
    (h : ℕ) (gw : Gateway) → Unique gw.gs_addr_to_handle → Changed h gw (disconnect_by_handle h gw)
unfolding disconnect_by_handle
disconnect_by_handle-Changed h gw u =
    left (λ k. lookup-forget_gs h k gw.gs_addr_to_handle gw.gs_registry u) (λ k. refl) (λ id. refl)

-- Sending touches none of the tables.
pub send_packets-tables :
    (i : ℕ) (fd : PollFd) (results : List (Option ℕ)) (gw : Gateway)
    → ((send_packets i fd results gw).0.gs_addr_to_handle ≡ gw.gs_addr_to_handle)
      × ((send_packets i fd results gw).0.gs_registry ≡ gw.gs_registry)
      × ((send_packets i fd results gw).0.occupancy_cache ≡ gw.occupancy_cache)
      × ((send_packets i fd results gw).0.game_to_gs ≡ gw.game_to_gs)
unfolding send_packets
send_packets-tables i fd results gw = ground arith
