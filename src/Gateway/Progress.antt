-- ===== src/Gateway/Progress.antt =====
-- The parser goes forward, stays within the buffer, and ends.
use r_type_server.Prelude.{ℕ, zero, suc, ◌+◌, ◌≤◌, ◌≡◌, arith, length, ltb, inl, inr, Bool-cases}
use r_type_server.Prelude.Dict.{nat_eq}
use r_type_server.Wire.{Bytes, Read, ok, err, oob}
use r_type_server.Gateway.State.{Gateway}
use r_type_server.Gateway.Packets.{get_header, build_join_msg_for_client}
use r_type_server.Gateway.Commands.{
  handle_ok_ko, handle_join, handle_create, handle_gs_registration, handle_occupancy, handle_gid,
  handle_game_end,
}
use r_type_server.Gateway.Parse.{
  dispatch, parse_packet, count_error, parse_buffer, Parsed, stopped, fatal, undefined, out_of_fuel,
}

-- A handler that returns has gone past the command byte and within the buffer; one that throws leaves
-- the offset at the command byte.
abbrev Moves : Bytes → ℕ → Read Gateway → Type 0
Moves d o (ok gw o') = (o + 1 ≤ o') × (o' ≤ length d)
Moves d o (err e o') = o' ≡ o
Moves d o oob = Unit {0}

handle_ok_ko-Moves : (gw : Gateway) (d : Bytes) (o : ℕ) → Moves d o (handle_ok_ko gw d o)
unfolding handle_ok_ko
handle_ok_ko-Moves gw d o = ground arith

handle_join-Moves : (h : ℕ) (gw : Gateway) (d : Bytes) (o : ℕ) → Moves d o (handle_join h gw d o)
unfolding handle_join build_join_msg_for_client
handle_join-Moves h gw d o = ground arith

handle_create-Moves :
    (h : ℕ) (gw : Gateway) (d : Bytes) (o : ℕ) → Moves d o (handle_create h gw d o)
unfolding handle_create
handle_create-Moves h gw d o = ground arith

handle_gs_registration-Moves :
    (h : ℕ) (gw : Gateway) (d : Bytes) (o : ℕ) → Moves d o (handle_gs_registration h gw d o)
unfolding handle_gs_registration
handle_gs_registration-Moves h gw d o = ground arith

handle_occupancy-Moves :
    (h : ℕ) (gw : Gateway) (d : Bytes) (o : ℕ) → Moves d o (handle_occupancy h gw d o)
unfolding handle_occupancy
handle_occupancy-Moves h gw d o = ground arith

handle_gid-Moves : (h : ℕ) (gw : Gateway) (d : Bytes) (o : ℕ) → Moves d o (handle_gid h gw d o)
unfolding handle_gid
handle_gid-Moves h gw d o = ground arith

handle_game_end-Moves :
    (h : ℕ) (gw : Gateway) (d : Bytes) (o : ℕ) → Moves d o (handle_game_end h gw d o)
unfolding handle_game_end
handle_game_end-Moves h gw d o = ground arith

dispatch-Moves : (pkt h : ℕ) (gw : Gateway) (d : Bytes) (o : ℕ) → Moves d o (dispatch pkt h gw d o)
unfolding dispatch
dispatch-Moves pkt h gw d o = ground (
  arith,
  handle_ok_ko-Moves gw d o,
  handle_join-Moves h gw d o,
  handle_create-Moves h gw d o,
  handle_gs_registration-Moves h gw d o,
  handle_occupancy-Moves h gw d o,
  handle_gid-Moves h gw d o,
  handle_game_end-Moves h gw d o,
)

-- A packet that is handled takes five bytes at least; a packet that throws takes four at most.
abbrev Takes : Bytes → ℕ → Read Gateway → Type 0
Takes d o (ok gw o') = (o + 5 ≤ o') × (o' ≤ length d)
Takes d o (err e o') = (o ≤ o') × (o' ≤ o + 4) × (o' ≤ length d)
Takes d o oob = Unit {0}

-- A header never reads past the buffer.
abbrev pub AtCommand : Bytes → ℕ → Read ℕ → Type 0
AtCommand d o (ok c o') = (o' ≡ o + 4) × (o + 5 ≤ length d)
AtCommand d o (err e o') = (o ≤ o') × (o' ≤ o + 4) × (o' ≤ length d)
AtCommand d o oob = ⊥

pub get_header-AtCommand : (d : Bytes) (o : ℕ) → o ≤ length d → AtCommand d o (get_header d o)
unfolding get_header
get_header-AtCommand d o le = ground arith

dispatch-Takes :
    (pkt h : ℕ) (gw : Gateway) (d : Bytes) (o o' : ℕ)
    → o' ≡ o + 4
    → o + 5 ≤ length d
    → Takes d o (dispatch pkt h gw d o')
dispatch-Takes pkt h gw d o o' e le = widen (dispatch pkt h gw d o') (dispatch-Moves pkt h gw d o')
  where
    widen : (r : Read Gateway) → Moves d o' r → Takes d o r
    widen (ok gw' o'') m = omega arith
    widen (err x o'') m = omega arith
    widen oob m = tt

pub parse_packet-Takes :
    (h : ℕ) (gw : Gateway) (d : Bytes) (o : ℕ) → o ≤ length d → Takes d o (parse_packet h gw d o)
unfolding parse_packet
parse_packet-Takes h gw d o le = after_header (get_header d o) (get_header-AtCommand d o le)
  where
    after_header :
        (r : Read ℕ)
        → AtCommand d o r
        → Takes d o
            (elim r [ ok pkt o' ↦ dispatch pkt h gw d o' | err e o' ↦ err e o' | oob ↦ oob ])
    after_header (ok pkt o') m = dispatch-Takes pkt h gw d o o' m.0 m.1
    after_header (err e o') m = m
    after_header oob m = tt

-- The loop's end: never for want of fuel, and at an offset within the buffer.
abbrev pub Ends : Bytes → ℕ → Parsed → Type 0
Ends d o (stopped gw o') = (o ≤ o') × (o' ≤ length d)
Ends d o (fatal gw) = Unit {0}
Ends d o undefined = Unit {0}
Ends d o out_of_fuel = ⊥

count_error-Ends :
    (h : ℕ) (gw : Gateway) (d : Bytes) (o o' : ℕ)
    → o ≤ o'
    → o' ≤ length d
    → Ends d o (count_error h o' gw)
unfolding count_error
count_error-Ends h gw d o o' le le' = ground arith

-- The loop over a buffer ends: with as many rounds as the buffer has bytes it never wants for one, and where
-- it stops, the offset is within the buffer and not before the one it began at.
pub parse_buffer-Ends :
    (fuel h : ℕ) (gw : Gateway) (d : Bytes) (o : ℕ)
    → o ≤ length d
    → length d ≤ o + fuel
    → Ends d o (parse_buffer fuel h gw d o)
unfolding parse_buffer
parse_buffer-Ends zero h gw d o le enough = ground arith
parse_buffer-Ends (suc fuel) h gw d o le enough = elim (Bool-cases (ltb o (length d))) [
  | inr e ↦ rw (e, Ends) (omega arith)
  | inl e ↦
      rw (e, Ends)
        (round (parse_packet h gw d o) (parse_packet-Takes h gw d o le) (parse_buffer-Ends fuel h))
]
  where
    farther : (o' : ℕ) (r : Parsed) → o ≤ o' → Ends d o' r → Ends d o r
    farther o' (stopped gw' o'') le m = omega arith
    farther o' (fatal gw') le m = tt
    farther o' undefined le m = tt
    farther o' out_of_fuel le m = m

    round :
        (r : Read Gateway)
        → Takes d o r
        → ((gw' : Gateway) (d' : Bytes) (o' : ℕ)
            → o' ≤ length d'
            → length d' ≤ o' + fuel
            → Ends d' o' (parse_buffer fuel h gw' d' o'))
        → Ends d o (elim r [
          | ok gw' o' ↦ parse_buffer fuel h gw' d o'
          | err e o' ↦ count_error h o' gw
          | oob ↦ undefined
        ])
    round (ok gw' o') m ih = farther o' _ (omega arith) (ih gw' d o' m.1 (omega arith))
    round (err e o') m ih = count_error-Ends h gw d o o' m.0 m.2
    round oob m ih = tt
