-- ===== src/GameServer/Udp.antt =====
-- `GameServerUDPPacketParser` of server/src/GameServer/GameServerUDPPacketParser.cpp.
use r_type_server.Prelude.{
  ℕ, zero, suc, ◌+◌, ◌-◌, ◌*◌, ◌%◌, ◌^◌, List, [], ◌∷◌, ◌++◌, Option, none, some, true, false, ltb,
  ◌==◌, length, take, drop, min, if◌then◌else◌,
}
use r_type_server.Wire.{
  Bytes, Reader, incomplete_header, invalid_magic, invalid_version, ◌>>=◌, ◌>>◌, pure, need, check,
  advance, byte_at, be_bytes,
}

-- The enumerations of server/include/RTypeSrv/Protocol.hpp, by their values.
pub data Cmd : Type 0 where
  input snapshot chat ping pong ack join kick challenge auth auth_ok resync fragment : Cmd

unfoldable pub cmd_code : Cmd → ℕ
cmd_code input = 1
cmd_code snapshot = 2
cmd_code chat = 3
cmd_code ping = 4
cmd_code pong = 5
cmd_code ack = 6
cmd_code join = 7
cmd_code kick = 8
cmd_code challenge = 9
cmd_code auth = 10
cmd_code auth_ok = 11
cmd_code resync = 12
cmd_code fragment = 13

-- `FLAGS::CONN`, `FLAGS::RELIABLE`, `FLAGS::FRAGMENT`
abbrev pub conn_flag : ℕ
conn_flag = 1

abbrev pub reliable_flag : ℕ
reliable_flag = 2

abbrev pub fragment_flag : ℕ
fragment_flag = 4

-- `CHANNEL::UU`, `CHANNEL::RO`
abbrev pub uu_channel : ℕ
uu_channel = 0

abbrev pub ro_channel : ℕ
ro_channel = 3

abbrev pub gspcol_magic : ℕ
gspcol_magic = 0x4254

abbrev pub udp_version : ℕ
udp_version = 1

abbrev pub header_size : ℕ
header_size = 21

abbrev pub max_packet_size : ℕ
max_packet_size = 1200

abbrev pub max_payload_size : ℕ
max_payload_size = max_packet_size - header_size

-- What stands in a header besides the magic number and the version.
pub record Header : Type 0 where
  pub flags : ℕ
  pub seq : ℕ
  pub ack_base : ℕ
  pub ack_bits : ℕ
  pub channel : ℕ
  pub size : ℕ
  pub client_id : ℕ
  pub cmd : ℕ

-- `static_cast<uint8_t>((v >> 24) & 0xFF)` and so on are the digits of `be_bytes`.
unfoldable pub build_header : Header → Bytes
build_header h =
    be_bytes 2 gspcol_magic
    ++ (udp_version
        ∷ h.flags
        ∷ (be_bytes 4 h.seq
            ++ (be_bytes 4 h.ack_base
                ++ (h.ack_bits
                    ∷ h.channel
                    ∷ (be_bytes 2 h.size ++ (be_bytes 4 h.client_id ++ h.cmd ∷ []))))))

-- The header's parser, which leaves the offset after the command.
unfoldable pub parse_header : Reader ℕ
parse_header = do
  need header_size incomplete_header
  high ← byte_at 0
  low ← byte_at 1
  check ((high * 256 + low) % 2 ^ 16 == gspcol_magic) invalid_magic
  advance 2
  ver ← byte_at 0
  advance 1
  check (ver == udp_version) invalid_version
  advance 17
  cmd ← byte_at 0
  advance 1
  pure cmd

-- What every packet to a client is numbered with.
pub record Numbers : Type 0 where
  pub seq : ℕ
  pub ack_base : ℕ
  pub ack_bits : ℕ

-- A header with its size, which is a uint16_t.
abbrev pub header_for : Cmd → ℕ → ℕ → Numbers → ℕ → ℕ → Bytes
header_for cmd flags channel n size client_id = build_header (record {
  flags = flags;
  seq = n.seq;
  ack_base = n.ack_base;
  ack_bits = n.ack_bits;
  channel = channel;
  size = size % 2 ^ 16;
  client_id = client_id;
  cmd = cmd_code cmd;
})

unfoldable pub build_pong_response : ℕ → Numbers → Bytes
build_pong_response client_id n = header_for pong conn_flag uu_channel n header_size client_id

unfoldable pub build_challenge : ℕ → Bytes → Numbers → Bytes
build_challenge client_id bytes n =
    header_for challenge reliable_flag ro_channel n (header_size + 32) client_id ++ bytes

unfoldable pub build_challenge_with_cookie : ℕ → ℕ → Bytes → Numbers → Bytes
build_challenge_with_cookie client_id timestamp cookie n =
    header_for challenge reliable_flag ro_channel n (header_size + 8 + 32) client_id
    ++ (be_bytes 8 timestamp ++ cookie)

unfoldable pub build_auth_ok_packet : ℕ → Bytes → Numbers → Bytes
build_auth_ok_packet client_id session_key n =
    header_for auth_ok reliable_flag ro_channel n (header_size + 4 + 32) client_id
    ++ (be_bytes 4 client_id ++ session_key)

-- None where it throws.
unfoldable pub build_fragment : ℕ → ℕ → ℕ → ℕ → Bytes → Numbers → Option Bytes
build_fragment client_id base_seq total_size offset fragment_data n =
    if ltb (max_payload_size - 12) (length fragment_data)
    then none
    else some (
        header_for fragment (reliable_flag + fragment_flag) ro_channel n
          (header_size + 12 + length fragment_data) client_id
        ++ (be_bytes 4 base_seq ++ (be_bytes 4 total_size ++ (be_bytes 4 offset ++ fragment_data))))

abbrev pub fragment_size : ℕ
fragment_size = max_payload_size - 16

-- The loop of `buildSnapshot` over a long state: the fragments from `offset` on, of which `count` are
-- made. Each takes a byte at least, so the length of the state is fuel enough.
unfoldable pub fragments_from : ℕ → ℕ → Bytes → Numbers → ℕ → ℕ → Option (List Bytes)
fragments_from zero client_id state n offset count =
    if ltb offset (length state) then none else some []
fragments_from (suc fuel) client_id state n offset count = elim (ltb offset (length state)) [
  | false ↦ some []
  | true ↦
      let chunk_size = min fragment_size (length state - offset) in
      elim (build_fragment client_id n.seq ((length state + 4) % 2 ^ 32) (offset % 2 ^ 32)
        (take chunk_size (drop offset state)) (record n { seq = (n.seq + count) % 2 ^ 32 })) [
          | none ↦ none
          | some packet ↦
              elim (fragments_from fuel client_id state n (offset + chunk_size) (count + 1)) [
                | none ↦ none
                | some packets ↦ some (packet ∷ packets)
              ]
        ]
]

unfoldable pub first_of : Option (List Bytes) → Option Bytes
first_of (some (packet ∷ packets)) = some packet
first_of _ = none

-- A long state is cut in fragments, of which only the first is returned.
unfoldable pub build_snapshot : ℕ → ℕ → Bytes → Numbers → Option Bytes
build_snapshot client_id snapshot_seq state n =
    if ltb (max_payload_size - 4) (length state)
    then first_of (fragments_from (length state) client_id state n 0 0)
    else some (
        header_for snapshot reliable_flag ro_channel n (header_size + 4 + length state) client_id
        ++ (be_bytes 4 snapshot_seq ++ state))
