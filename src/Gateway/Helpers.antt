-- ===== src/Gateway/Helpers.antt =====
-- The helpers of server/src/Gateway/ParsePackets.cpp.
use r_type_server.Prelude.{
  ℕ, ◌-◌, ◌^◌, true, List, [], ◌∷◌, ◌++◌, Option, none, some, ltb, ◌==◌, if◌then◌else◌,
}
use r_type_server.Prelude.Dict.{Dict, nat_eq, endpoint_eq, insert, get}
use r_type_server.Wire.{Bytes}
use r_type_server.Gateway.State.{Gateway, PollFd, Address}
use r_type_server.Gateway.Packets.{build_simple_response}

-- The loop stops at the first descriptor with the handle.
unfoldable pub set_pollout : ℕ → List PollFd → List PollFd
set_pollout h [] = []
set_pollout h (fd ∷ fds) =
    if fd.handle == h then record fd { pollout = true } ∷ fds else fd ∷ set_pollout h fds

unfoldable pub set_pollout_for_handle : ℕ → Gateway → Gateway
unfolding set_pollout
set_pollout_for_handle h gw = record gw { fds = set_pollout h gw.fds }

-- `_send_spans[h].push_back(msg)`
unfoldable pub queue : ℕ → Bytes → Gateway → Gateway
unfolding get
queue h msg gw = record gw {
  send_spans = insert h (get h [] gw.send_spans ++ msg ∷ []) gw.send_spans;
}

-- The two calls with which the handlers send a message.
unfoldable pub send_to : ℕ → Bytes → Gateway → Gateway
unfolding queue set_pollout_for_handle
send_to h msg gw = set_pollout_for_handle h (queue h msg gw)

unfoldable pub send_error_response : ℕ → ℕ → Gateway → Gateway
unfolding send_to build_simple_response
send_error_response h error_cmd gw = send_to h (build_simple_response error_cmd) gw

-- The loop of `findLeastOccupiedGS`: the registry left, `min_occupancy` and `min_gs`.
unfoldable pub least_loop : Dict Address ℕ → Dict Address ℕ → ℕ → Option Address → Option Address
unfolding get
least_loop cache [] min_occupancy min_gs = min_gs
least_loop cache ((key, _) ∷ rest) min_occupancy min_gs =
    let occ = get key 0 cache in
    least_loop cache rest (if ltb occ min_occupancy then occ else min_occupancy)
      (if ltb occ min_occupancy then some key else min_gs)

-- From `SIZE_MAX`.
unfoldable pub find_least_occupied_gs : Gateway → Option Address
unfolding least_loop
find_least_occupied_gs gw = least_loop gw.occupancy_cache gw.gs_registry (2 ^ 64 - 1) none

unfoldable pub get_gs_handle : Address → Gateway → ℕ
unfolding get
get_gs_handle key gw = get key 0 gw.gs_addr_to_handle

unfoldable pub key_by_handle : ℕ → Dict Address ℕ → Option Address
key_by_handle h [] = none
key_by_handle h ((key, h') ∷ rest) = if h' == h then some key else key_by_handle h rest

unfoldable pub find_gs_key_by_handle : ℕ → Gateway → Option Address
unfolding key_by_handle
find_gs_key_by_handle h gw = key_by_handle h gw.gs_addr_to_handle
