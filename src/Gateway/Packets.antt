-- ===== src/Gateway/Packets.antt =====
-- `Gateway::PacketParser` of server/src/Gateway/PacketParser.cpp.
use r_type_server.Prelude.{
  ℕ, ◌+◌, ◌*◌, ◌%◌, ◌^◌, List, [], ◌∷◌, ◌++◌, not, ◌||◌, ltb, ◌==◌, take, get_or,
}
use r_type_server.Wire.{
  Bytes, Reader, incomplete_header, invalid_magic, invalid_version, ◌>>=◌, ◌>>◌, pure, need, check,
  peek, byte_at, get_next_val, be_bytes,
}
use r_type_server.Gateway.State.{Address, header_magic, minimum_version, maximum_version}

-- The offset is left at the command byte.
unfoldable pub get_header : Reader ℕ
unfolding get_next_val
get_header = do
  need 5 incomplete_header
  magic ← get_next_val 2
  check (magic == header_magic) invalid_magic
  ver ← get_next_val 1
  check (not (ltb ver minimum_version || ltb maximum_version ver)) invalid_version
  flags ← get_next_val 1
  need 1 incomplete_header
  byte_at 0

-- The four bytes at a pointer: of bytes in separate places, `|` is a sum.
unfoldable pub game_id_of : Bytes → ℕ
game_id_of d = get_or d 0 0 * 2 ^ 24 + get_or d 1 0 * 2 ^ 16 + get_or d 2 0 * 2 ^ 8 + get_or d 3 0

-- `extractGameId(data + offset + i)`
unfoldable pub extract_game_id : ℕ → Reader ℕ
unfolding game_id_of
extract_game_id i = do d ← peek i 4; pure (game_id_of d)

-- `parseGSKey(data, offset + i)`
unfoldable pub parse_gs_key : ℕ → Reader Address
parse_gs_key i = do
  d ← peek i 18
  pure (take 16 d, (get_or d 16 0 * 2 ^ 8 + get_or d 17 0) % 2 ^ 16)

-- `parseOccupancy(data, offset + i)`
unfoldable pub parse_occupancy : ℕ → Reader ℕ
parse_occupancy i = byte_at i

-- A round for each whole group of four bytes.
unfoldable pub gids_of : Bytes → List ℕ
unfolding game_id_of
gids_of (a ∷ b ∷ c ∷ d ∷ rest) = game_id_of (a ∷ b ∷ c ∷ d ∷ []) ∷ gids_of rest
gids_of _ = []

-- `parseGIDs(data, offset + i, offset + i + n)`
unfoldable pub parse_gids : ℕ → ℕ → Reader (List ℕ)
unfolding gids_of
parse_gids i n = do d ← peek i n; pure (gids_of d)

unfoldable pub build_header : ℕ → ℕ → Bytes
build_header cmd flags = 0x42 ∷ 0x57 ∷ 0x01 ∷ flags ∷ cmd ∷ []

unfoldable pub build_create_msg : ℕ → Bytes
unfolding build_header
build_create_msg gametype = build_header 3 0 ++ gametype ∷ []

-- `buildJoinMsgForClient(data, offset + i)` copies 22 bytes with no look at the buffer's size.
unfoldable pub build_join_msg_for_client : ℕ → Reader Bytes
unfolding build_header
build_join_msg_for_client i = do d ← peek i 22; pure (build_header 1 0 ++ d)

unfoldable pub build_join_msg_for_gs : List ℕ → ℕ → ℕ → Bytes
unfolding build_header be_bytes
build_join_msg_for_gs ip port id =
    build_header 1 0 ++ (1 ∷ (be_bytes 4 id ++ (ip ++ be_bytes 2 port)))

unfoldable pub build_simple_response : ℕ → Bytes
unfolding build_header
build_simple_response cmd = build_header cmd 0
