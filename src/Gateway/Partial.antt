-- ===== src/Gateway/Partial.antt =====
-- What the gateway does with a packet that comes in parts (server/src/Gateway/ParsePackets.cpp).
use r_type_server.Prelude.{
  ℕ, suc, ◌+◌, ◌≤◌, ◌<◌, ◌≡◌, arith, length, ◌%◌, leb, ◌∷◌, Bool-cases, inl, inr, ap, ◌∙◌, [], ◌++◌,
  if◌then◌else◌, ◌==◌,
}
use r_type_server.Prelude.Dict.{Dict, nat_eq, get, get-insert, insert}
use r_type_server.Wire.{Bytes, err, incomplete_packet}
use r_type_server.Gateway.State.{Gateway, max_parse_errors}
use r_type_server.Gateway.Packets.{build_header}
use r_type_server.Gateway.Commands.{
  handle_join, handle_create, handle_gs_registration, handle_occupancy, handle_gid, handle_game_end,
}
use r_type_server.Gateway.Packet.{parse_packet-dispatch}
use r_type_server.Gateway.Parse.{
  dispatch, parse_packet, parse_buffer, count_error, parse_spans, erase_parsed, threw, stopped,
  fatal,
}

-- How many bytes a handler wants before it looks at anything, the command byte included.
abbrev pub wanted : ℕ → ℕ
wanted pkt =
    if pkt == 1
    then 5
    else if pkt == 3
    then 2
    else if pkt == 5
    then 5
    else if pkt == 20
    then 19
    else if pkt == 23
    then 2
    else if pkt == 24
    then 6
    else 0

handle_join-partial :
    (h : ℕ) (gw : Gateway) (d : Bytes) (o : ℕ)
    → length d < o + 5
    → handle_join h gw d o ≡ err incomplete_packet o
unfolding handle_join
handle_join-partial h gw d o short = ground arith

handle_create-partial :
    (h : ℕ) (gw : Gateway) (d : Bytes) (o : ℕ)
    → length d < o + 2
    → handle_create h gw d o ≡ err incomplete_packet o
unfolding handle_create
handle_create-partial h gw d o short = ground arith

handle_gs_registration-partial :
    (h : ℕ) (gw : Gateway) (d : Bytes) (o : ℕ)
    → length d < o + 19
    → handle_gs_registration h gw d o ≡ err incomplete_packet o
unfolding handle_gs_registration
handle_gs_registration-partial h gw d o short = ground arith

handle_occupancy-partial :
    (h : ℕ) (gw : Gateway) (d : Bytes) (o : ℕ)
    → length d < o + 2
    → handle_occupancy h gw d o ≡ err incomplete_packet o
unfolding handle_occupancy
handle_occupancy-partial h gw d o short = ground arith

handle_gid-partial :
    (h : ℕ) (gw : Gateway) (d : Bytes) (o : ℕ)
    → length d < o + 6
    → handle_gid h gw d o ≡ err incomplete_packet o
unfolding handle_gid
handle_gid-partial h gw d o short = ground arith

handle_game_end-partial :
    (h : ℕ) (gw : Gateway) (d : Bytes) (o : ℕ)
    → length d < o + 5
    → handle_game_end h gw d o ≡ err incomplete_packet o
unfolding handle_game_end
handle_game_end-partial h gw d o short = ground arith

dispatch-partial :
    (pkt h : ℕ) (gw : Gateway) (d : Bytes) (o : ℕ)
    → o ≤ length d
    → length d < o + wanted pkt
    → dispatch pkt h gw d o ≡ err incomplete_packet o
unfolding dispatch
dispatch-partial pkt h gw d o le short = ground (
  arith,
  handle_join-partial h gw d o,
  handle_create-partial h gw d o,
  handle_gs_registration-partial h gw d o,
  handle_occupancy-partial h gw d o,
  handle_gid-partial h gw d o,
  handle_game_end-partial h gw d o,
)

length-build_header :
    (pkt flags : ℕ) (body : Bytes) → length (build_header pkt flags ++ body) ≡ length body + 5
unfolding build_header
length-build_header pkt flags body = ground arith

parse_packet-partial :
    (pkt h : ℕ) (gw : Gateway) (body : Bytes)
    → length body + 1 < wanted pkt
    → parse_packet h gw (build_header pkt 0 ++ body) 0 ≡ err incomplete_packet 4
parse_packet-partial pkt h gw body short = parse_packet-dispatch [] h pkt 0 gw body (
    dispatch-partial pkt h gw (build_header pkt 0 ++ body) 4
      (ground (arith, length-build_header pkt 0 body))
      (ground (arith, length-build_header pkt 0 body)))

parse_buffer-partial :
    (fuel pkt h : ℕ) (gw : Gateway) (body : Bytes)
    → length body + 1 < wanted pkt
    → parse_buffer (suc fuel) h gw (build_header pkt 0 ++ body) 0 ≡ count_error h 4 gw
unfolding parse_buffer
parse_buffer-partial fuel pkt h gw body short =
    ground (arith, parse_packet-partial pkt h gw body short, length-build_header pkt 0 body)

-- The errors of a handle after one more.
abbrev pub one_more : ℕ → Gateway → ℕ
one_more h gw = (get h 0 gw.parse_errors + 1) % 256

erased : (pkt : ℕ) (body : Bytes) → erase_parsed 4 (build_header pkt 0 ++ body) ≡ pkt ∷ body
unfolding erase_parsed build_header
erased pkt body = ground arith

-- A packet in the receive buffer that ends before its handler looks at it, so before the 5, 2, 5, 19, 2 or 6 bytes
-- that `wanted` tells of its command are there: it costs its sender an error, whose count is a byte; where this
-- makes three errors, the parser throws, and the buffer stays; otherwise the four bytes before the command byte
-- are erased, so that what arrives later is no longer behind a header, and the next buffer is parsed.
pub parse_spans-partial :
    (pkt h : ℕ) (gw : Gateway) (body : Bytes) (rest : Dict ℕ Bytes)
    → length body + 1 < wanted pkt
    → (gw' : Gateway) × (parse_spans ((h, build_header pkt 0 ++ body) ∷ rest) gw
        ≡ (if leb max_parse_errors (one_more h gw) then threw gw' else parse_spans rest gw'))
      × (get h 0 gw'.parse_errors ≡ one_more h gw)
      × (get h [] gw'.recv_spans
          ≡ (if leb max_parse_errors (one_more h gw) then get h [] gw.recv_spans else pkt ∷ body))
unfolding parse_spans count_error
parse_spans-partial pkt h gw body rest short =
    elim (Bool-cases (leb max_parse_errors (one_more h gw))) [
      | inl e ↦ (noted, ground (arith, counted, e), errors, ground (arith, e))
      | inr e ↦ (
        record noted {
          recv_spans = insert h (erase_parsed 4 (build_header pkt 0 ++ body)) gw.recv_spans;
        },
        ground (arith, counted, e),
        errors,
        ground (
          arith,
          e,
          erased pkt body,
          get-insert h h [] (erase_parsed 4 (build_header pkt 0 ++ body)) gw.recv_spans,
        ),
      )
    ]
  where
    noted : Gateway
    noted = record gw { parse_errors = insert h (one_more h gw) gw.parse_errors }

    errors : get h 0 (insert h (one_more h gw) gw.parse_errors) ≡ one_more h gw
    errors = ground (arith, get-insert h h 0 (one_more h gw) gw.parse_errors)

    size : length (build_header pkt 0 ++ body) ≡ suc (length body + 4)
    size = omega (arith, length-build_header pkt 0 body)

    counted :
        parse_buffer (length (build_header pkt 0 ++ body)) h gw (build_header pkt 0 ++ body) 0
        ≡ (if leb max_parse_errors (one_more h gw) then fatal noted else stopped noted 4)
    counted =
        ap (λ n. parse_buffer n h gw (build_header pkt 0 ++ body) 0) size
        ∙ parse_buffer-partial (length body + 4) pkt h gw body short
