-- ===== src/Gateway/Commands.antt =====
-- The command handlers of server/src/Gateway/Commands. Each is called with the offset at the
-- command byte. All of them throw before they change anything, so `err` carries no state.
use r_type_server.Prelude.{
  ℕ, ◌+◌, ◌*◌, List, [], ◌∷◌, Option, none, some, ◌==◌, drop, if◌then◌else◌,
}
use r_type_server.Prelude.Dict.{
  Dict, nat_eq, endpoint_eq, endpoint_beq, is_empty, lookup, insert, erase, contains,
}
use r_type_server.Wire.{
  Bytes, Reader, incomplete_packet, unregistered, not_owner, ◌>>=◌, ◌>>◌, pure, throw, need,
  advance, byte_at,
}
use r_type_server.Gateway.State.{Gateway, Address}
use r_type_server.Gateway.Packets.{
  game_id_of, extract_game_id, parse_gs_key, parse_occupancy, parse_gids, build_create_msg,
  build_join_msg_for_client, build_join_msg_for_gs, build_simple_response,
}
use r_type_server.Gateway.Helpers.{
  send_to, find_least_occupied_gs, get_gs_handle, find_gs_key_by_handle,
}

-- `findGSKeyByHandle`, or an exception.
unfoldable pub require_gs : ℕ → Gateway → Reader Address
require_gs h gw = elim (find_gs_key_by_handle h gw) [
  | none ↦ throw unregistered
  | some key ↦ pure key
]

-- handleOK and handleKO
unfoldable pub handle_ok_ko : Gateway → Reader Gateway
handle_ok_ko gw = do need 1 incomplete_packet; advance 1; pure gw

-- The branch of `handleJoin` for a game server that answers a CREATE.
unfoldable pub note_game : ℕ → Option Address → Gateway → Gateway
note_game game_id none gw = gw
note_game game_id (some key) gw = record gw { game_to_gs = insert game_id key gw.game_to_gs }

unfoldable pub finish_create : ℕ → ℕ → Bytes → Gateway → Gateway
unfolding send_to game_id_of note_game
finish_create h client join_msg gw =
    let game_id = game_id_of (drop 5 join_msg) in
    let noted = note_game game_id (find_gs_key_by_handle h gw) gw in
    let sent = send_to client join_msg noted in
    record sent { pending_creates = erase h sent.pending_creates }

-- The branches of `handleJoin` for a client.
unfoldable pub route_join : ℕ → ℕ → Gateway → Gateway
unfolding send_to
route_join h id gw = elim (lookup id gw.game_to_gs) [
  | none ↦ send_to h (build_simple_response 2) gw
  | some (ip, port) ↦ send_to h (build_join_msg_for_gs ip port id) gw
]

unfoldable pub join_branches : ℕ → ℕ → Gateway → Reader Gateway
unfolding finish_create route_join
join_branches h id gw =
    if is_empty gw.gs_registry
    then pure (send_to h (build_simple_response 2) gw)
    else elim (lookup h gw.pending_creates) [
      | none ↦ pure (route_join h id gw)
      | some (client, _) ↦ (do
        join_msg ← build_join_msg_for_client 1
        pure (finish_create h client join_msg gw))
    ]

unfoldable pub handle_join : ℕ → Gateway → Reader Gateway
unfolding join_branches extract_game_id
handle_join h gw = do
  need 5 incomplete_packet
  id ← extract_game_id 1
  gw' ← join_branches h id gw
  advance 5
  pure gw'

-- CREATE goes to the game server with the least games; the answer is awaited under its handle.
unfoldable pub forward_create : ℕ → ℕ → ℕ → Gateway → Gateway
unfolding send_to
forward_create h gametype gs_handle gw =
    if gs_handle == 0
    then send_to h (build_simple_response 4) gw
    else (let sent = send_to gs_handle (build_create_msg gametype) gw in
        record sent { pending_creates = insert gs_handle (h, gametype) sent.pending_creates })

unfoldable pub create_branches : ℕ → ℕ → Gateway → Gateway
unfolding forward_create get_gs_handle
create_branches h gametype gw =
    if is_empty gw.gs_registry
    then send_to h (build_simple_response 4) gw
    else elim (find_least_occupied_gs gw) [
      | none ↦ send_to h (build_simple_response 4) gw
      | some key ↦ forward_create h gametype (get_gs_handle key gw) gw
    ]

unfoldable pub handle_create : ℕ → Gateway → Reader Gateway
unfolding create_branches
handle_create h gw = do
  need 2 incomplete_packet
  gametype ← byte_at 1
  advance 2
  pure (create_branches h gametype gw)

unfoldable pub register_gs : ℕ → Address → Gateway → Gateway
unfolding send_to contains
register_gs h key gw =
    let already_registered = contains key gw.gs_registry in
    send_to h (build_simple_response (if already_registered then 22 else 21)) (record gw {
      gs_registry = insert key 1 gw.gs_registry;
      gs_addr_to_handle =
          if already_registered then gw.gs_addr_to_handle else insert key h gw.gs_addr_to_handle;
    })

unfoldable pub handle_gs_registration : ℕ → Gateway → Reader Gateway
unfolding register_gs parse_gs_key
handle_gs_registration h gw = do
  need 19 incomplete_packet
  key ← parse_gs_key 1
  advance 19
  pure (register_gs h key gw)

unfoldable pub handle_occupancy : ℕ → Gateway → Reader Gateway
unfolding require_gs parse_occupancy
handle_occupancy h gw = do
  need 2 incomplete_packet
  occ ← parse_occupancy 1
  key ← require_gs h gw
  advance 2
  pure (record gw { occupancy_cache = insert key occ gw.occupancy_cache })

-- `for (uint32_t gid : gids) _game_to_gs[gid] = *gs_key`
unfoldable pub register_games : Address → List ℕ → Dict ℕ Address → Dict ℕ Address
register_games key [] games = games
register_games key (id ∷ ids) games = register_games key ids (insert id key games)

unfoldable pub handle_gid : ℕ → Gateway → Reader Gateway
unfolding require_gs parse_gids register_games
handle_gid h gw = do
  need 6 incomplete_packet
  len ← byte_at 1
  need (2 + len * 4) incomplete_packet
  key ← require_gs h gw
  gids ← parse_gids 2 (len * 4)
  advance (2 + len * 4)
  pure (record gw { game_to_gs = register_games key gids gw.game_to_gs })

-- A game is forgotten only at the word of the server that hosts it.
unfoldable pub end_game : Address → ℕ → Gateway → Reader Gateway
end_game key game_id gw = elim (lookup game_id gw.game_to_gs) [
  | none ↦ pure gw
  | some owner ↦
      if endpoint_beq owner key
      then pure (record gw { game_to_gs = erase game_id gw.game_to_gs })
      else throw not_owner
]

unfoldable pub handle_game_end : ℕ → Gateway → Reader Gateway
unfolding require_gs end_game extract_game_id
handle_game_end h gw = do
  need 5 incomplete_packet
  game_id ← extract_game_id 1
  key ← require_gs h gw
  gw' ← end_game key game_id gw
  advance 5
  pure gw'
