-- ===== src/Gateway/Packet.antt =====
-- A packet in a stream: its header is read, and its handler is called at the command byte.
use r_type_server.Prelude.{ℕ, ◌≡◌, [], ◌++◌, arith, length}
use r_type_server.Wire.{Bytes, Read, ◌>>=◌}
use r_type_server.Wire.Local.{shift}
use r_type_server.Gateway.State.{Gateway}
use r_type_server.Gateway.Packets.{build_header}
use r_type_server.Gateway.Header.{get_header-build_header}
use r_type_server.Gateway.Local.{parse_packet-IsLocal}
use r_type_server.Gateway.Parse.{dispatch, parse_packet}

at_start :
    (h cmd flags : ℕ) (gw : Gateway) (body : Bytes)
    → parse_packet h gw (build_header cmd flags ++ body) 0
      ≡ dispatch cmd h gw (build_header cmd flags ++ body) 4
unfolding parse_packet
at_start h cmd flags gw body = rw (get_header-build_header [] cmd flags body, ◌>>=◌)

-- So it is enough to know what the handler does with the packet at the start of a buffer.
pub parse_packet-dispatch :
    (pre : Bytes) (h cmd flags : ℕ) (gw : Gateway) (body : Bytes) {r : Read Gateway}
    → dispatch cmd h gw (build_header cmd flags ++ body) 4 ≡ r
    → parse_packet h gw (pre ++ (build_header cmd flags ++ body)) (length pre)
      ≡ shift (length pre) r
parse_packet-dispatch pre h cmd flags gw body e = ground (
  arith,
  (parse_packet-IsLocal h gw).at pre (build_header cmd flags ++ body) 0,
  at_start h cmd flags gw body,
  e,
)
