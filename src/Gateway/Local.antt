-- ===== src/Gateway/Local.antt =====
-- The gateway's parser and handlers depend on the bytes from the offset on.
use r_type_server.Prelude.{ℕ, Option, none, some}
use r_type_server.Prelude.{if◌then◌else◌}
use r_type_server.Prelude.Dict.{nat_eq, endpoint_beq, is_empty, lookup, erase}
use r_type_server.Wire.{Reader, ◌>>=◌, not_owner, pure, throw}
use r_type_server.Wire.Local.{IsLocal, local_rules, pure-IsLocal, throw-IsLocal, if-IsLocal}
use r_type_server.Gateway.State.{Gateway, Address}
use r_type_server.Gateway.Packets.{
  get_header, extract_game_id, parse_gs_key, parse_occupancy, parse_gids, build_join_msg_for_client,
}
use r_type_server.Gateway.Helpers.{find_gs_key_by_handle}
use r_type_server.Gateway.Commands.{
  require_gs, finish_create, handle_ok_ko, join_branches, handle_join, handle_create,
  handle_gs_registration, handle_occupancy, handle_gid, end_game, handle_game_end,
}
use r_type_server.Gateway.Parse.{dispatch, parse_packet}

pub get_header-IsLocal : IsLocal get_header
unfolding get_header
get_header-IsLocal = search local_rules depth 9

extract_game_id-IsLocal : (i : ℕ) → IsLocal (extract_game_id i)
unfolding extract_game_id
extract_game_id-IsLocal i = search local_rules

parse_gs_key-IsLocal : (i : ℕ) → IsLocal (parse_gs_key i)
unfolding parse_gs_key
parse_gs_key-IsLocal i = search local_rules

parse_occupancy-IsLocal : (i : ℕ) → IsLocal (parse_occupancy i)
unfolding parse_occupancy
parse_occupancy-IsLocal i = search local_rules

parse_gids-IsLocal : (i n : ℕ) → IsLocal (parse_gids i n)
unfolding parse_gids
parse_gids-IsLocal i n = search local_rules

join_msg-IsLocal : (i : ℕ) → IsLocal (build_join_msg_for_client i)
unfolding build_join_msg_for_client
join_msg-IsLocal i = search local_rules

Option-IsLocal :
    {A B : Type 0} (m : Reader B) (f : A → Reader B) (o : Option A)
    → IsLocal m
    → ((a : A) → IsLocal (f a))
    → IsLocal (elim o [ none ↦ m | some a ↦ f a ])
Option-IsLocal m f none km kf = km
Option-IsLocal m f (some a) km kf = kf a

require_gs-IsLocal : (h : ℕ) (gw : Gateway) → IsLocal (require_gs h gw)
unfolding require_gs
require_gs-IsLocal h gw =
    Option-IsLocal _ (λ key. pure key) (find_gs_key_by_handle h gw) (search local_rules)
      (λ key. pure-IsLocal key)

ruleset packet_rules = (
  local_rules, extract_game_id-IsLocal, parse_gs_key-IsLocal, parse_occupancy-IsLocal,
  parse_gids-IsLocal, join_msg-IsLocal, require_gs-IsLocal,
)

end_game-IsLocal : (key : Address) (id : ℕ) (gw : Gateway) → IsLocal (end_game key id gw)
unfolding end_game
end_game-IsLocal key id gw =
    Option-IsLocal _
      (λ owner.
        if endpoint_beq owner key
        then pure (record gw { game_to_gs = erase id gw.game_to_gs })
        else throw not_owner)
      (lookup id gw.game_to_gs) (pure-IsLocal gw)
      (λ owner. if-IsLocal (endpoint_beq owner key) _ _ (pure-IsLocal _) (throw-IsLocal not_owner))

join_branches-IsLocal : (h id : ℕ) (gw : Gateway) → IsLocal (join_branches h id gw)
unfolding join_branches
join_branches-IsLocal h id gw = if-IsLocal (is_empty gw.gs_registry) _ _ (pure-IsLocal _) (
    Option-IsLocal _
      (λ pending. do
        join_msg ← build_join_msg_for_client 1
        pure (finish_create h pending.0 join_msg gw))
      (lookup h gw.pending_creates) (pure-IsLocal _) (λ pending. search packet_rules))

handle_ok_ko-IsLocal : (gw : Gateway) → IsLocal (handle_ok_ko gw)
unfolding handle_ok_ko
handle_ok_ko-IsLocal gw = search (packet_rules) depth 9

handle_join-IsLocal : (h : ℕ) (gw : Gateway) → IsLocal (handle_join h gw)
unfolding handle_join
handle_join-IsLocal h gw = search (packet_rules, join_branches-IsLocal) depth 9

handle_create-IsLocal : (h : ℕ) (gw : Gateway) → IsLocal (handle_create h gw)
unfolding handle_create
handle_create-IsLocal h gw = search (packet_rules) depth 9

handle_gs_registration-IsLocal : (h : ℕ) (gw : Gateway) → IsLocal (handle_gs_registration h gw)
unfolding handle_gs_registration
handle_gs_registration-IsLocal h gw = search (packet_rules) depth 9

handle_occupancy-IsLocal : (h : ℕ) (gw : Gateway) → IsLocal (handle_occupancy h gw)
unfolding handle_occupancy
handle_occupancy-IsLocal h gw = search (packet_rules) depth 9

handle_gid-IsLocal : (h : ℕ) (gw : Gateway) → IsLocal (handle_gid h gw)
unfolding handle_gid
handle_gid-IsLocal h gw = search (packet_rules) depth 9

handle_game_end-IsLocal : (h : ℕ) (gw : Gateway) → IsLocal (handle_game_end h gw)
unfolding handle_game_end
handle_game_end-IsLocal h gw = search (packet_rules, end_game-IsLocal) depth 9

dispatch-IsLocal : (pkt h : ℕ) (gw : Gateway) → IsLocal (dispatch pkt h gw)
unfolding dispatch
dispatch-IsLocal pkt h gw =
    search
      (
        if-IsLocal, throw-IsLocal, handle_ok_ko-IsLocal, handle_join-IsLocal, handle_create-IsLocal,
        handle_gs_registration-IsLocal, handle_occupancy-IsLocal, handle_gid-IsLocal,
        handle_game_end-IsLocal,
      )
      depth 14

-- A packet is read alike wherever it stands in the buffer.
pub parse_packet-IsLocal : (h : ℕ) (gw : Gateway) → IsLocal (parse_packet h gw)
unfolding parse_packet
parse_packet-IsLocal h gw = search (local_rules, get_header-IsLocal, dispatch-IsLocal)
