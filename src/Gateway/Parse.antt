-- ===== src/Gateway/Parse.antt =====
-- `Gateway::_parsePackets` of server/src/Gateway/ParsePackets.cpp.
use r_type_server.Prelude.{
  ℕ, zero, suc, ◌+◌, ◌%◌, true, false, [], ◌∷◌, ltb, leb, ◌&&◌, ◌==◌, length, drop, if◌then◌else◌,
}
use r_type_server.Prelude.Dict.{Dict, nat_eq, insert, get}
use r_type_server.Wire.{Bytes, Reader, ok, err, oob, invalid_packet, ◌>>=◌, throw}
use r_type_server.Gateway.State.{Gateway, max_parse_errors}
use r_type_server.Gateway.Packets.{get_header}
use r_type_server.Gateway.Commands.{
  handle_ok_ko, handle_join, handle_create, handle_gs_registration, handle_occupancy, handle_gid,
  handle_game_end,
}

-- The `switch` on the command byte.
unfoldable pub dispatch : ℕ → ℕ → Gateway → Reader Gateway
dispatch pkt h gw =
    if pkt == 1
    then handle_join h gw
    else if pkt == 2
    then handle_ok_ko gw
    else if pkt == 3
    then handle_create h gw
    else if pkt == 4
    then handle_ok_ko gw
    else if pkt == 5
    then handle_game_end h gw
    else if pkt == 20
    then handle_gs_registration h gw
    else if pkt == 21
    then handle_ok_ko gw
    else if pkt == 22
    then handle_ok_ko gw
    else if pkt == 23
    then handle_occupancy h gw
    else if pkt == 24
    then handle_gid h gw
    else throw invalid_packet

-- The body of the `try`.
unfoldable pub parse_packet : ℕ → Gateway → Reader Gateway
unfolding dispatch
parse_packet h gw = do pkt ← get_header; dispatch pkt h gw

-- How the work on one buffer ends: the offset up to which it is erased; the exception of a client
-- with too many errors; a read past the buffer; no more fuel.
pub data Parsed : Type 0 where
  stopped : Gateway → ℕ → Parsed
  fatal : Gateway → Parsed
  undefined : Parsed
  out_of_fuel : Parsed

-- The `catch`. `_parseErrors[handle]` is a uint8_t.
unfoldable pub count_error : ℕ → ℕ → Gateway → Parsed
unfolding get
count_error h o gw =
    let n = (get h 0 gw.parse_errors + 1) % 256 in
    let gw' = record gw { parse_errors = insert h n gw.parse_errors } in
    if leb max_parse_errors n then fatal gw' else stopped gw' o

-- `while (offset < buf.size())`: a round with no exception goes forward, so the length of the
-- buffer is fuel enough.
unfoldable pub parse_buffer : ℕ → ℕ → Gateway → Bytes → ℕ → Parsed
unfolding parse_packet count_error
parse_buffer zero h gw buf o = if ltb o (length buf) then out_of_fuel else stopped gw o
parse_buffer (suc fuel) h gw buf o = elim (ltb o (length buf)) [
  | false ↦ stopped gw o
  | true ↦ elim (parse_packet h gw buf o) [
    | ok gw' o' ↦ parse_buffer fuel h gw' buf o'
    | err e o' ↦ count_error h o' gw
    | oob ↦ undefined
  ]
]

pub data Outcome : Type 0 where
  done : Gateway → Outcome
  threw : Gateway → Outcome
  undefined : Outcome
  out_of_fuel : Outcome

-- `if (offset > 0 && offset <= buf.size()) buf.erase(…)`
unfoldable pub erase_parsed : ℕ → Bytes → Bytes
erase_parsed o buf = if ltb 0 o && leb o (length buf) then drop o buf else buf

-- The loop over `_recv_spans`. No handler touches them, so the list stands for the iteration.
unfoldable pub parse_spans : Dict ℕ Bytes → Gateway → Outcome
unfolding parse_buffer erase_parsed
parse_spans [] gw = done gw
parse_spans ((h, buf) ∷ rest) gw = elim (parse_buffer (length buf) h gw buf 0) [
  | stopped gw' o ↦
      parse_spans rest (record gw' { recv_spans = insert h (erase_parsed o buf) gw'.recv_spans })
  | fatal gw' ↦ threw gw'
  | undefined ↦ undefined
  | out_of_fuel ↦ out_of_fuel
]

unfoldable pub parse_packets : Gateway → Outcome
unfolding parse_spans
parse_packets gw = parse_spans gw.recv_spans gw
