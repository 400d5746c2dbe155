-- ===== src/GameServer/Packets.antt =====
-- `GameServerPacketParser` of server/src/GameServer/GameServerPacketParser.cpp: the gateway's
-- protocol, from the game server's side.
use r_type_server.Prelude.{ℕ, ◌%◌, List, [], ◌∷◌, ◌++◌, ◌==◌, length}
use r_type_server.Wire.{
  Bytes, Reader, incomplete_header, invalid_magic, invalid_version, ◌>>=◌, ◌>>◌, need, check,
  byte_at, get_next_val, be_bytes,
}

-- `HEADER_MAGIC`, `VERSION`
abbrev pub header_magic : ℕ
header_magic = 0x4257

abbrev pub version : ℕ
version = 0x01

-- The offset is left at the command byte.
unfoldable pub parse_header : Reader ℕ
unfolding get_next_val
parse_header = do
  need 5 incomplete_header
  magic ← get_next_val 2
  check (magic == header_magic) invalid_magic
  ver ← get_next_val 1
  check (ver == version) invalid_version
  flags ← get_next_val 1
  need 1 incomplete_header
  byte_at 0

unfoldable pub build_header : ℕ → ℕ → Bytes
build_header cmd flags = 0x42 ∷ 0x57 ∷ version ∷ flags ∷ cmd ∷ []

-- `static_cast<uint8_t>((v >> 24) & 0xFF)` and so on are the digits of `be_bytes`.
unfoldable pub build_gs_registration : List ℕ → ℕ → Bytes
build_gs_registration ip port = build_header 20 0 ++ (ip ++ be_bytes 2 port)

unfoldable pub build_occupancy : ℕ → Bytes
build_occupancy occupancy = build_header 23 0 ++ occupancy ∷ []

unfoldable pub build_join_response : ℕ → List ℕ → ℕ → Bytes
build_join_response game_id ip port =
    build_header 1 0 ++ (be_bytes 4 game_id ++ (ip ++ be_bytes 2 port))

unfoldable pub build_create_ko : Bytes
build_create_ko = build_header 4 0

unfoldable pub build_game_end : ℕ → Bytes
build_game_end game_id = build_header 5 0 ++ be_bytes 4 game_id

-- The loop over the ids.
unfoldable pub ids_bytes : List ℕ → Bytes
ids_bytes [] = []
ids_bytes (id ∷ ids) = be_bytes 4 id ++ ids_bytes ids

-- The count is a uint8_t.
unfoldable pub build_gid_registration : List ℕ → Bytes
unfolding ids_bytes
build_gid_registration game_ids = build_header 24 0 ++ (length game_ids % 256 ∷ ids_bytes game_ids)
