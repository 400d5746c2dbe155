-- ===== src/GameServer/Checks.antt =====
-- `_parsePackets` checks headers by itself; `GameServerUDPPacketParser::parseHeader` does it too.
use r_type_server.Prelude.{
  ℕ, ◌+◌, ◌*◌, ◌%◌, ◌^◌, ◌≡◌, ap, sym, ◌∙◌, not, arith, ltb, ◌==◌, length, drop, get_or,
  if◌then◌else◌,
}
use r_type_server.Wire.{
  Bytes, Read, ok, err, oob, incomplete_header, invalid_magic, invalid_version,
}
use r_type_server.Gateway.State.{Address}
use r_type_server.Gateway.Packets.{game_id_of}
use r_type_server.GameServer.State.{GameServer}
use r_type_server.GameServer.Udp.{parse_header}
use r_type_server.GameServer.Sessions.{Crypto, Clock, Handled, served}
use r_type_server.GameServer.Datagrams.{dispatch_datagram, parse_datagram}

-- A datagram by the parser of the headers.
abbrev pub after_header : Crypto → Clock → Address → Bytes → GameServer → Read ℕ → Handled
after_header crypto clock endpoint d gs (ok cmd o) =
    dispatch_datagram crypto clock endpoint d cmd (game_id_of (drop 16 d)) gs
after_header crypto clock endpoint d gs (err e o) = served gs
after_header crypto clock endpoint d gs oob = served gs

header_end : Bytes → Read ℕ
header_end d =
    if ltb (length d) 21
    then err incomplete_header 0
    else if not ((get_or d 0 0 * 256 + get_or d 1 0) % 2 ^ 16 == 0x4254)
    then err invalid_magic 0
    else if not (get_or d 2 0 == 1)
    then err invalid_version 3
    else ok (get_or d 20 0) 21

parse_header-end : (d : Bytes) → parse_header d 0 ≡ header_end d
unfolding parse_header header_end
parse_header-end d = ground arith

-- Both agree on every datagram: what the parser throws at is passed over, and the command is the parser's.
pub parse_datagram-parse_header :
    (crypto : Crypto) (clock : Clock) (endpoint : Address) (d : Bytes) (gs : GameServer)
    → parse_datagram crypto clock endpoint d gs
      ≡ after_header crypto clock endpoint d gs (parse_header d 0)
unfolding parse_datagram header_end
parse_datagram-parse_header crypto clock endpoint d gs =
    checked ∙ sym (ap (after_header crypto clock endpoint d gs) (parse_header-end d))
  where
    checked :
        parse_datagram crypto clock endpoint d gs
        ≡ after_header crypto clock endpoint d gs (header_end d)
    checked = ground arith
