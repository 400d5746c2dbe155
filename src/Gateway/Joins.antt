-- ===== src/Gateway/Joins.antt =====
-- What the gateway does with a client's JOIN and CREATE.
use r_type_server.Prelude.{
  ℕ, ◌+◌, ◌^◌, ◌<◌, ◌≡◌, [], ◌∷◌, ◌++◌, none, some, arith, length, if◌then◌else◌, ◌==◌, refl, true,
  ◌-◌,
}
use r_type_server.Prelude.Dict.{Dict, nat_eq, endpoint_eq, lookup, insert, is_empty}
use r_type_server.Wire.{Bytes, ok, be_bytes}
use r_type_server.Gateway.State.{Gateway, Address}
use r_type_server.Gateway.Packets.{
  build_header, build_simple_response, build_create_msg, build_join_msg_for_gs, game_id_of,
}
use r_type_server.Gateway.Helpers.{send_to, least_loop, find_least_occupied_gs, get_gs_handle}
use r_type_server.Gateway.Commands.{handle_join, join_branches, handle_create, create_branches}
use r_type_server.Gateway.Parse.{dispatch, parse_packet}
use r_type_server.Gateway.Packet.{parse_packet-dispatch}

-- An id that was written big-endian is read back.
pub game_id_of-be_bytes :
    (id : ℕ) (rest : Bytes) → id < 2 ^ 32 → game_id_of (be_bytes 4 id ++ rest) ≡ id
unfolding game_id_of be_bytes
game_id_of-be_bytes id rest h = omega arith

-- What a client that asks for a game is told.
abbrev pub join_answer : ℕ → Gateway → Bytes
join_answer id gw =
    if is_empty gw.gs_registry then build_simple_response 2 else elim (lookup id gw.game_to_gs) [
      | none ↦ build_simple_response 2
      | some (ip, port) ↦ build_header 1 0 ++ (1 ∷ (be_bytes 4 id ++ (ip ++ be_bytes 2 port)))
    ]

join_branches-answer :
    (h id : ℕ) (gw : Gateway) (d : Bytes) (o : ℕ)
    → lookup h gw.pending_creates ≡ none
    → join_branches h id gw d o ≡ ok (send_to h (join_answer id gw) gw) o
unfolding join_branches build_join_msg_for_gs
join_branches-answer h id gw d o e = ground arith

join_at_start :
    (h flags id : ℕ) (gw : Gateway) (rest : Bytes)
    → id < 2 ^ 32
    → lookup h gw.pending_creates ≡ none
    → dispatch 1 h gw (build_header 1 flags ++ (be_bytes 4 id ++ rest)) 4
      ≡ ok (send_to h (join_answer id gw) gw) 9
unfolding dispatch build_header handle_join be_bytes
join_at_start h flags id gw rest lt e = ground (
  arith,
  join_branches-answer h id gw (build_header 1 flags ++ (be_bytes 4 id ++ rest)) 4 e,
  game_id_of-be_bytes id [] lt,
)

-- A JOIN, anywhere in a stream, from a handle of which `_pending_creates` has no entry: it takes nine bytes,
-- and the sender is queued JOIN_KO, where no server is registered or no server has the game, or else 28
-- bytes: a header with the command byte of JOIN, this byte once more, the id of the game, and the 18 bytes of
-- the address of the game's server. Nothing else changes.
pub parse_packet-join :
    (pre : Bytes) (h flags id : ℕ) (gw : Gateway) (rest : Bytes)
    → id < 2 ^ 32
    → lookup h gw.pending_creates ≡ none
    → parse_packet h gw (pre ++ (build_header 1 flags ++ (be_bytes 4 id ++ rest))) (length pre)
      ≡ ok (send_to h (join_answer id gw) gw) (length pre + 9)
parse_packet-join pre h flags id gw rest lt e =
    parse_packet-dispatch pre h 1 flags gw (be_bytes 4 id ++ rest)
      (join_at_start h flags id gw rest lt e)

-- What a CREATE changes: CREATE_KO where no server is registered, or where the least occupied one is
-- without a connection; otherwise the request goes to that server, whose answer is awaited.
abbrev pub create_answer : ℕ → ℕ → Gateway → Gateway
create_answer h gametype gw = elim (find_least_occupied_gs gw) [
  | none ↦ send_to h (build_simple_response 4) gw
  | some key ↦
      if get_gs_handle key gw == 0
      then send_to h (build_simple_response 4) gw
      else (let sent = send_to (get_gs_handle key gw) (build_create_msg gametype) gw in
          record sent {
            pending_creates = insert (get_gs_handle key gw) (h, gametype) sent.pending_creates;
          })
]

least-empty :
    (cache m : Dict Address ℕ) → is_empty m ≡ true → least_loop cache m (2 ^ 64 - 1) none ≡ none
unfolding least_loop
least-empty cache [] e = refl
least-empty cache (x ∷ m) e = cc

create_branches-answer :
    (h gametype : ℕ) (gw : Gateway) → create_branches h gametype gw ≡ create_answer h gametype gw
unfolding create_branches find_least_occupied_gs
create_branches-answer h gametype gw = ground (arith, least-empty gw.occupancy_cache gw.gs_registry)

create_at_start :
    (h flags gametype : ℕ) (gw : Gateway) (rest : Bytes)
    → dispatch 3 h gw (build_header 3 flags ++ (gametype ∷ rest)) 4
      ≡ ok (create_answer h gametype gw) 6
unfolding dispatch build_header handle_create
create_at_start h flags gametype gw rest = ground (arith, create_branches-answer h gametype gw)

-- A CREATE, anywhere in a stream, takes six bytes, and is answered or sent on as `create_answer` says.
pub parse_packet-create :
    (pre : Bytes) (h flags gametype : ℕ) (gw : Gateway) (rest : Bytes)
    → parse_packet h gw (pre ++ (build_header 3 flags ++ (gametype ∷ rest))) (length pre)
      ≡ ok (create_answer h gametype gw) (length pre + 6)
parse_packet-create pre h flags gametype gw rest =
    parse_packet-dispatch pre h 3 flags gw (gametype ∷ rest)
      (create_at_start h flags gametype gw rest)
