-- ===== src/Gateway/Safety.antt =====
-- Where the gateway reads past a buffer.
use r_type_server.Prelude.{ℕ, ◌+◌, ◌≤◌, ◌<◌, ◌≡◌, ◌≢◌, false, none, some, arith, length}
use r_type_server.Prelude.Dict.{nat_eq, lookup, is_empty}
use r_type_server.Wire.{Bytes, Read, ok, err, oob}
use r_type_server.Gateway.State.{Gateway}
use r_type_server.Gateway.Packets.{get_header, build_join_msg_for_client}
use r_type_server.Gateway.Commands.{
  handle_ok_ko, handle_join, handle_create, handle_gs_registration, handle_occupancy, handle_gid,
  handle_game_end,
}
use r_type_server.Gateway.Parse.{dispatch, parse_packet}
use r_type_server.Gateway.Progress.{get_header-AtCommand, AtCommand}

handle_ok_ko-safe : (gw : Gateway) (d : Bytes) (o : ℕ) → handle_ok_ko gw d o ≢ oob
unfolding handle_ok_ko
handle_ok_ko-safe gw d o = ground arith

handle_join-safe :
    (h : ℕ) (gw : Gateway) (d : Bytes) (o : ℕ)
    → lookup h gw.pending_creates ≡ none
    → handle_join h gw d o ≢ oob
unfolding handle_join
handle_join-safe h gw d o e = ground arith

handle_create-safe : (h : ℕ) (gw : Gateway) (d : Bytes) (o : ℕ) → handle_create h gw d o ≢ oob
unfolding handle_create
handle_create-safe h gw d o = ground arith

handle_gs_registration-safe :
    (h : ℕ) (gw : Gateway) (d : Bytes) (o : ℕ) → handle_gs_registration h gw d o ≢ oob
unfolding handle_gs_registration
handle_gs_registration-safe h gw d o = ground arith

handle_occupancy-safe : (h : ℕ) (gw : Gateway) (d : Bytes) (o : ℕ) → handle_occupancy h gw d o ≢ oob
unfolding handle_occupancy
handle_occupancy-safe h gw d o = ground arith

handle_gid-safe : (h : ℕ) (gw : Gateway) (d : Bytes) (o : ℕ) → handle_gid h gw d o ≢ oob
unfolding handle_gid
handle_gid-safe h gw d o = ground arith

handle_game_end-safe : (h : ℕ) (gw : Gateway) (d : Bytes) (o : ℕ) → handle_game_end h gw d o ≢ oob
unfolding handle_game_end
handle_game_end-safe h gw d o = ground arith

dispatch-safe :
    (pkt h : ℕ) (gw : Gateway) (d : Bytes) (o : ℕ)
    → lookup h gw.pending_creates ≡ none
    → dispatch pkt h gw d o ≢ oob
unfolding dispatch
dispatch-safe pkt h gw d o e = ground (
  arith,
  handle_ok_ko-safe gw d o,
  handle_join-safe h gw d o e,
  handle_create-safe h gw d o,
  handle_gs_registration-safe h gw d o,
  handle_occupancy-safe h gw d o,
  handle_gid-safe h gw d o,
  handle_game_end-safe h gw d o,
)

-- Unless the sender owes the answer to a CREATE, no packet makes the gateway read past the buffer.
pub parse_packet-safe :
    (h : ℕ) (gw : Gateway) (d : Bytes) (o : ℕ)
    → o ≤ length d
    → lookup h gw.pending_creates ≡ none
    → parse_packet h gw d o ≢ oob
unfolding parse_packet
parse_packet-safe h gw d o le e = after_header (get_header d o) (get_header-AtCommand d o le)
  where
    after_header :
        (r : Read ℕ)
        → AtCommand d o r
        → elim r [ ok pkt o' ↦ dispatch pkt h gw d o' | err e o' ↦ err e o' | oob ↦ oob ] ≢ oob
    after_header (ok pkt o') m = dispatch-safe pkt h gw d o' e
    after_header (err e o') m = λ p. cc
    after_header oob m = absurd m

-- A server that owes an answer and sends a JOIN of fewer than 27 bytes, with nothing after it, makes the
-- gateway copy bytes from behind the end of the buffer.
pub handle_join-oob :
    (h client gametype : ℕ) (gw : Gateway) (d : Bytes) (o : ℕ)
    → is_empty gw.gs_registry ≡ false
    → lookup h gw.pending_creates ≡ some (client, gametype)
    → o + 5 ≤ length d
    → length d < o + 23
    → handle_join h gw d o ≡ oob
unfolding handle_join build_join_msg_for_client
handle_join-oob h client gametype gw d o full e lo hi = ground arith
