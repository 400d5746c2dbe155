-- ===== src/Gateway/PacketChanges.antt =====
-- Every packet of a peer is one of the changes that the peer may make.
use r_type_server.Prelude.{ℕ, ◌+◌, ◌*◌, refl}
use r_type_server.Prelude.Dict.{nat_eq, endpoint_eq, lookup, insert, is_empty}
use r_type_server.Wire.{◌>>=◌, pure, need, advance, incomplete_packet, byte_at}
use r_type_server.Gateway.State.{Gateway}
use r_type_server.Gateway.Helpers.{send_to}
use r_type_server.Gateway.Packets.{
  get_header, extract_game_id, parse_gs_key, parse_occupancy, parse_gids, build_join_msg_for_client,
  build_simple_response,
}
use r_type_server.Gateway.Commands.{
  handle_ok_ko, join_branches, handle_join, handle_create, create_branches, route_join,
  handle_gs_registration, handle_occupancy, handle_gid, handle_game_end, register_gs,
  register_games, end_game, finish_create,
}
use r_type_server.Gateway.Parse.{dispatch, parse_packet}
use r_type_server.Gateway.Ensures.{
  Ensures, pure-Ensures, throw-Ensures, if-Ensures, Option-Ensures, >>=-Ensures, returned-Ensures,
}
use r_type_server.Gateway.Frame.{Agree}
use r_type_server.Gateway.Directory.{nothing}
use r_type_server.Gateway.Changes.{
  Changed, occupancy-Changed, register_games-Changed, end_game-Ensures, require_gs-Ensures,
  create_branches-Changed, route_join-Changed, send_to-Changed, finish_create-Changed,
  register_gs-Changed,
}

module _ (h : ℕ) (gw : Gateway) (a : Agree gw) where
  handle_occupancy-Changed : Ensures (Changed h gw) (handle_occupancy h gw)
  unfolding handle_occupancy
  handle_occupancy-Changed = >>=-Ensures (Changed h gw) (need 2 incomplete_packet) _ λ _.
      >>=-Ensures (Changed h gw) (parse_occupancy 1) _ λ occ. require_gs-Ensures h gw a _ λ key e.
        >>=-Ensures (Changed h gw) (advance 2) _ λ _.
          pure-Ensures (Changed h gw)
            (record gw { occupancy_cache = insert key occ gw.occupancy_cache })
            (occupancy-Changed h gw a key occ e)

  handle_gid-Changed : Ensures (Changed h gw) (handle_gid h gw)
  unfolding handle_gid
  handle_gid-Changed = >>=-Ensures (Changed h gw) (need 6 incomplete_packet) _ λ _.
      >>=-Ensures (Changed h gw) (byte_at 1) _ λ len.
        >>=-Ensures (Changed h gw) (need (2 + len * 4) incomplete_packet) _ λ _.
          require_gs-Ensures h gw a _ λ key e.
            >>=-Ensures (Changed h gw) (parse_gids 2 (len * 4)) _ λ gids.
              >>=-Ensures (Changed h gw) (advance (2 + len * 4)) _ λ _.
                pure-Ensures (Changed h gw)
                  (record gw { game_to_gs = register_games key gids gw.game_to_gs })
                  (register_games-Changed h gw a key gids e)

  handle_game_end-Changed : Ensures (Changed h gw) (handle_game_end h gw)
  unfolding handle_game_end
  handle_game_end-Changed = >>=-Ensures (Changed h gw) (need 5 incomplete_packet) _ λ _.
      >>=-Ensures (Changed h gw) (extract_game_id 1) _ λ id. require_gs-Ensures h gw a _ λ key e.
        returned-Ensures (Changed h gw) (end_game key id gw) 5 (end_game-Ensures h gw a key id e)

  join_branches-Changed : (id : ℕ) → Ensures (Changed h gw) (join_branches h id gw)
  unfolding join_branches
  join_branches-Changed id =
      if-Ensures (Changed h gw) (is_empty gw.gs_registry) _ _
        (pure-Ensures (Changed h gw) (send_to h (build_simple_response 2) gw)
          (send_to-Changed h gw a h (build_simple_response 2)))
        (Option-Ensures (Changed h gw) (lookup h gw.pending_creates) _
          (λ pending. do
            join_msg ← build_join_msg_for_client 1
            pure (finish_create h pending.0 join_msg gw))
          (pure-Ensures (Changed h gw) (route_join h id gw) (route_join-Changed h gw a h id))
          (λ pending. >>=-Ensures (Changed h gw) (build_join_msg_for_client 1) _ λ msg.
            pure-Ensures (Changed h gw) (finish_create h pending.0 msg gw)
              (finish_create-Changed h gw a pending.0 msg)))

  handle_join-Changed : Ensures (Changed h gw) (handle_join h gw)
  unfolding handle_join
  handle_join-Changed = >>=-Ensures (Changed h gw) (need 5 incomplete_packet) _ λ _.
      >>=-Ensures (Changed h gw) (extract_game_id 1) _
        λ id. returned-Ensures (Changed h gw) (join_branches h id gw) 5 (join_branches-Changed id)

  handle_create-Changed : Ensures (Changed h gw) (handle_create h gw)
  unfolding handle_create
  handle_create-Changed = >>=-Ensures (Changed h gw) (need 2 incomplete_packet) _ λ _.
      >>=-Ensures (Changed h gw) (byte_at 1) _ λ g. >>=-Ensures (Changed h gw) (advance 2) _ λ _.
        pure-Ensures (Changed h gw) (create_branches h g gw) (create_branches-Changed h gw a h g)

  handle_gs_registration-Changed : Ensures (Changed h gw) (handle_gs_registration h gw)
  unfolding handle_gs_registration
  handle_gs_registration-Changed = >>=-Ensures (Changed h gw) (need 19 incomplete_packet) _ λ _.
      >>=-Ensures (Changed h gw) (parse_gs_key 1) _ λ key.
        >>=-Ensures (Changed h gw) (advance 19) _
          λ _. pure-Ensures (Changed h gw) (register_gs h key gw) (register_gs-Changed h gw a key)

  handle_ok_ko-Changed : Ensures (Changed h gw) (handle_ok_ko gw)
  unfolding handle_ok_ko
  handle_ok_ko-Changed = >>=-Ensures (Changed h gw) (need 1 incomplete_packet) _ λ _.
      >>=-Ensures (Changed h gw) (advance 1) _
        λ _. pure-Ensures (Changed h gw) gw (nothing (λ k. refl) (λ k. refl) (λ id. refl))

  dispatch-Changed : (pkt : ℕ) → Ensures (Changed h gw) (dispatch pkt h gw)
  unfolding dispatch
  dispatch-Changed pkt =
      search
        (
          if-Ensures, throw-Ensures, handle_ok_ko-Changed, handle_join-Changed,
          handle_create-Changed, handle_gs_registration-Changed, handle_occupancy-Changed,
          handle_gid-Changed, handle_game_end-Changed,
        )
        depth 14

  -- A packet that is handled is one change that the peer at its connection may make of the directory.
  pub parse_packet-Changed : Ensures (Changed h gw) (parse_packet h gw)
  unfolding parse_packet
  parse_packet-Changed = >>=-Ensures (Changed h gw) get_header _ λ pkt. dispatch-Changed pkt
