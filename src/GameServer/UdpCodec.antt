-- ===== src/GameServer/UdpCodec.antt =====
-- What the UDP packets of the game server are: a header that its own parser accepts, and a size within
-- the limit of the protocol.
use r_type_server.Prelude.{◌+◌, ◌≡◌, refl, ◌++◌, arith, length}
use r_type_server.Wire.{Bytes, ok, be_bytes}
use r_type_server.Wire.Local.{IsLocal, local_rules}
use r_type_server.GameServer.Udp.{Header, build_header, parse_header}

parse_header-IsLocal : IsLocal parse_header
unfolding parse_header
parse_header-IsLocal = search local_rules depth 14

parse_at_start : (h : Header) (rest : Bytes) → parse_header (build_header h ++ rest) 0 ≡ ok h.cmd 21
unfolding parse_header build_header be_bytes
parse_at_start h rest = ground arith

-- The parser accepts every header that is built, wherever it stands in a buffer, and gives back its command
-- with the offset after it.
pub parse_header-build_header :
    (pre : Bytes) (h : Header) (rest : Bytes)
    → parse_header (pre ++ (build_header h ++ rest)) (length pre) ≡ ok h.cmd (length pre + 21)
parse_header-build_header pre h rest =
    ground (arith, parse_header-IsLocal.at pre (build_header h ++ rest) 0, parse_at_start h rest)

pub length-build_header : (h : Header) → length (build_header h) ≡ 21
unfolding build_header be_bytes
length-build_header h = refl
