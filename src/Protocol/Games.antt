-- ===== src/Protocol/Games.antt =====
-- A game server tells the gateway which games it hosts, and which have ended.
use mathlib.Core.List.{append_assoc}
use r_type_server.Prelude.{
  ℕ, ◌+◌, ◌*◌, ◌^◌, ◌<◌, ◌≡◌, refl, List, [], ◌∷◌, ◌++◌, none, some, arith, length, length-append,
  All, take-append_of_length, if◌then◌else◌,
}
use r_type_server.Prelude.Dict.{endpoint_eq, nat_eq, lookup, erase, endpoint_beq}
use r_type_server.Wire.{Bytes, Read, ok, err, not_owner, be_bytes}
use r_type_server.Wire.Local.{shift}
use r_type_server.Wire.RoundTrip.{length-be_bytes}
use r_type_server.Gateway.State.{Gateway, Address}
use r_type_server.Gateway.Packets.{build_header, gids_of, parse_gids}
use r_type_server.Gateway.Helpers.{find_gs_key_by_handle}
use r_type_server.Gateway.Commands.{register_games, handle_gid, handle_game_end}
use r_type_server.Gateway.Parse.{dispatch, parse_packet}
use r_type_server.Gateway.Joins.{game_id_of-be_bytes}
use r_type_server.Gateway.Tables.{member, lookup-register_games}
use r_type_server.Gateway.Packet.{parse_packet-dispatch}
use r_type_server.GameServer.Packets
use r_type_server.Protocol.Registration.{header-eq}

abbrev pub IsId : ℕ → Type 0
IsId id = id < 2 ^ 32

length-ids_bytes : (ids : List ℕ) → length (Packets.ids_bytes ids) ≡ 4 * length ids
unfolding Packets.ids_bytes
length-ids_bytes [] = refl
length-ids_bytes (id ∷ ids) = omega (
  arith,
  length-append (be_bytes 4 id) (Packets.ids_bytes ids),
  length-be_bytes 4 id,
  length-ids_bytes ids,
)

gids_of-ids_bytes : (ids : List ℕ) → All IsId ids → gids_of (Packets.ids_bytes ids) ≡ ids
unfolding Packets.ids_bytes gids_of be_bytes
gids_of-ids_bytes [] h = refl
gids_of-ids_bytes (id ∷ ids) h = ground (arith, gids_of-ids_bytes ids h.1)

gid_at_start :
    (h : ℕ) (gw : Gateway) (key : Address) (ids : List ℕ) (rest : Bytes)
    → find_gs_key_by_handle h gw ≡ some key
    → All IsId ids
    → 0 < length ids
    → length ids < 256
    → dispatch 24 h gw (build_header 24 0 ++ (length ids ∷ (Packets.ids_bytes ids ++ rest))) 4
      ≡ ok (record gw { game_to_gs = register_games key ids gw.game_to_gs }) (6 + 4 * length ids)
unfolding dispatch build_header handle_gid parse_gids
gid_at_start h gw key ids rest e all lo hi = ground (
  arith,
  e,
  length-append (Packets.ids_bytes ids) rest,
  length-ids_bytes ids,
  take-append_of_length (Packets.ids_bytes ids) rest (length ids * 4),
  gids_of-ids_bytes ids all,
)

gid_bytes :
    (ids : List ℕ)
    → length ids < 256
    → Packets.build_gid_registration ids ≡ build_header 24 0 ++ (length ids ∷ Packets.ids_bytes ids)
unfolding Packets.build_gid_registration Packets.build_header build_header
gid_bytes ids hi = ground arith

gid_length :
    (ids : List ℕ)
    → length (build_header 24 0 ++ (length ids ∷ Packets.ids_bytes ids)) ≡ 6 + 4 * length ids
unfolding build_header
gid_length ids = omega (arith, length-ids_bytes ids)

-- The packet of a registered server with 1 to 255 games, anywhere in a stream, is taken whole, and
-- after it each id that it told leads to the server, and every other id where it led before.
pub parse_packet-gid :
    (pre : Bytes) (h : ℕ) (gw : Gateway) (key : Address) (ids : List ℕ) (rest : Bytes)
    → find_gs_key_by_handle h gw ≡ some key
    → All IsId ids
    → 0 < length ids
    → length ids < 256
    → (gw' : Gateway) × (parse_packet h gw
          (pre ++ (Packets.build_gid_registration ids ++ rest))
          (length pre)
        ≡ ok gw' (length pre + length (Packets.build_gid_registration ids)))
      × ((id : ℕ)
          → lookup id gw'.game_to_gs
            ≡ (if member id ids then some key else lookup id gw.game_to_gs))
parse_packet-gid pre h gw key ids rest e all lo hi = (
  record gw { game_to_gs = register_games key ids gw.game_to_gs },
  rw (gid_bytes ids hi) (
      simp (append_assoc, gid_length ids)
        (parse_packet-dispatch pre h 24 0 gw (length ids ∷ (Packets.ids_bytes ids ++ rest))
          (gid_at_start h gw key ids rest e all lo hi))),
  lookup-register_games key ids gw.game_to_gs,
)

-- The gateway's answer to GAME_END from the server of `key`, with the offset at the command byte.
abbrev pub end_answer : Address → ℕ → Gateway → Read Gateway
end_answer key id gw = elim (lookup id gw.game_to_gs) [
  | none ↦ ok gw 9
  | some owner ↦
      if endpoint_beq owner key
      then ok (record gw { game_to_gs = erase id gw.game_to_gs }) 9
      else err not_owner 4
]

end_at_start :
    (h : ℕ) (gw : Gateway) (key : Address) (id : ℕ) (rest : Bytes)
    → find_gs_key_by_handle h gw ≡ some key
    → IsId id
    → dispatch 5 h gw (build_header 5 0 ++ (be_bytes 4 id ++ rest)) 4 ≡ end_answer key id gw
unfolding dispatch build_header handle_game_end be_bytes
end_at_start h gw key id rest e lt = ground (arith, e, game_id_of-be_bytes id [] lt)

-- GAME_END of a registered server, anywhere in a stream: the game is forgotten if it is the server's, a
-- game that is not known is passed over, and for a game of another server an exception is thrown.
pub parse_packet-game_end :
    (pre : Bytes) (h : ℕ) (gw : Gateway) (key : Address) (id : ℕ) (rest : Bytes)
    → find_gs_key_by_handle h gw ≡ some key
    → IsId id
    → parse_packet h gw (pre ++ (Packets.build_game_end id ++ rest)) (length pre)
      ≡ shift (length pre) (end_answer key id gw)
unfolding Packets.build_game_end
parse_packet-game_end pre h gw key id rest e lt =
    simp (append_assoc, header-eq)
      (parse_packet-dispatch pre h 5 0 gw (be_bytes 4 id ++ rest)
        (end_at_start h gw key id rest e lt))
