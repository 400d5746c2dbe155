-- ===== src/Gateway/Invariant.antt =====
-- What holds of the gateway after every turn of its loop.
use r_type_server.Prelude.{
  ℕ, zero, suc, ◌+◌, ◌≡◌, refl, Bool, true, false, [], ◌∷◌, ◌++◌, Option, none, some, arith, leb,
  ◌%◌, length, length-drop, ltb, ◌==◌, if◌then◌else◌, not, ◌&&◌,
}
use r_type_server.Prelude.Dict.{
  Dict, nat_eq, endpoint_eq, get, insert, Values, Values-insert, Values-erase-insert,
}
use r_type_server.Wire.{Bytes, Read, ok, err, oob}
use r_type_server.Gateway.State.{Gateway, PollFd, max_buffer_size, max_parse_errors}
use r_type_server.Gateway.Parse.{
  parse_packet, count_error, parse_buffer, Parsed, stopped, fatal, Outcome, done, threw,
  erase_parsed, parse_spans, parse_packets,
}
use r_type_server.Gateway.Net.{
  recv_packets, recv_and_parse, drop_on_throw, handle_loop, Turn, turn, Io,
}
use r_type_server.Gateway.Ensures.{Returns}
use r_type_server.Gateway.Frame.{Frame, parse_packet-Frames}
use r_type_server.Gateway.Consistent.{
  Inv, InvBut, Fits, Inv-InvBut, disconnect_by_handle-Inv, Frame-Inv, accept_clients-Inv,
  send_packets-Frame,
}

abbrev OnParsed : Parsed → Type 0
OnParsed (stopped gw o) = Inv gw
OnParsed (fatal gw) = Inv gw
OnParsed _ = Unit

abbrev OnOutcome : Outcome → Type 0
OnOutcome (done gw) = Inv gw
OnOutcome (threw gw) = Inv gw
OnOutcome _ = Unit

abbrev pub OnTurn : Turn → Type 0
OnTurn (turn gw i) = Inv gw
OnTurn _ = Unit

errors-Inv : (errors : Dict ℕ ℕ) {gw : Gateway} → Inv gw → Inv (record gw { parse_errors = errors })
errors-Inv errors v = record { agree = v.agree; counted = v.counted; bounded = v.bounded }

count_error-Inv : (h o : ℕ) {gw : Gateway} → Inv gw → OnParsed (count_error h o gw)
unfolding count_error
count_error-Inv h o {gw} v =
    branch (leb max_parse_errors ((get h 0 gw.parse_errors + 1) % 256)) (errors-Inv _ v)
  where
    branch :
        (b : Bool) {gw' : Gateway} → Inv gw' → OnParsed (if b then fatal gw' else stopped gw' o)
    branch true w = w
    branch false w = w

parse_buffer-Inv :
    (fuel h : ℕ) (gw : Gateway) (d : Bytes) (o : ℕ) → Inv gw → OnParsed (parse_buffer fuel h gw d o)
unfolding parse_buffer
parse_buffer-Inv zero h gw d o v = ground arith
parse_buffer-Inv (suc fuel) h gw d o v =
    start (ltb o (length d)) (parse_packet h gw d o) ((parse_packet-Frames h gw).at d o)
      (parse_buffer-Inv fuel h)
  where
    start :
        (b : Bool) (r : Read Gateway)
        → Returns (Frame gw) r
        → ((gw' : Gateway) (d' : Bytes) (o' : ℕ)
            → Inv gw'
            → OnParsed (parse_buffer fuel h gw' d' o'))
        → OnParsed (elim b [
          | false ↦ stopped gw o
          | true ↦ elim r [
            | ok gw' o' ↦ parse_buffer fuel h gw' d o'
            | err e o' ↦ count_error h o' gw
            | oob ↦ Parsed.undefined
          ]
        ])
    start false r f ih = v
    start true (ok gw' o') f ih = ih gw' d o' (Frame-Inv v f)
    start true (err e o') f ih = count_error-Inv h o' v
    start true oob f ih = tt

erase_parsed-Fits : (o : ℕ) (buf : Bytes) → Fits buf → Fits (erase_parsed o buf)
unfolding erase_parsed
erase_parsed-Fits o buf f = ground (arith, length-drop o buf)

write_back-Inv :
    (h : ℕ) (buf : Bytes) {gw : Gateway}
    → Fits buf
    → Inv gw
    → Inv (record gw { recv_spans = insert h buf gw.recv_spans })
write_back-Inv h buf {gw} f v = record {
  agree = v.agree;
  counted = v.counted;
  bounded = Values-insert Fits h buf gw.recv_spans f v.bounded;
}

parse_spans-Inv :
    (spans : Dict ℕ Bytes) (gw : Gateway)
    → Values Fits spans
    → Inv gw
    → OnOutcome (parse_spans spans gw)
unfolding parse_spans
parse_spans-Inv [] gw f v = v
parse_spans-Inv ((h, buf) ∷ rest) gw f v =
    after_buffer (parse_buffer (length buf) h gw buf 0) (parse_buffer-Inv (length buf) h gw buf 0 v)
      (λ gw' v'. parse_spans-Inv rest gw' f.1 v')
  where
    after_buffer :
        (p : Parsed)
        → OnParsed p
        → ((gw' : Gateway) → Inv gw' → OnOutcome (parse_spans rest gw'))
        → OnOutcome (elim p [
          | stopped gw' o ↦
              parse_spans rest
                (record gw' { recv_spans = insert h (erase_parsed o buf) gw'.recv_spans })
          | fatal gw' ↦ threw gw'
          | Parsed.undefined ↦ Outcome.undefined
          | Parsed.out_of_fuel ↦ Outcome.out_of_fuel
        ])
    after_buffer (stopped gw' o) w ih =
        ih _ (write_back-Inv h (erase_parsed o buf) (erase_parsed-Fits o buf f.0) w)
    after_buffer (fatal gw') w ih = w
    after_buffer Parsed.undefined w ih = tt
    after_buffer Parsed.out_of_fuel w ih = tt

-- A receive that throws leaves a buffer that is too long: only until the client is disconnected.
OnReceive : ℕ → Outcome → Type 0
OnReceive h (done gw) = Inv gw
OnReceive h (threw gw) = InvBut h gw
OnReceive h _ = Unit

recv_packets-Inv :
    (h : ℕ) (received : Option Bytes) (gw : Gateway)
    → Inv gw
    → OnReceive h (recv_packets h received gw)
unfolding recv_packets OnReceive
recv_packets-Inv h none gw v = Inv-InvBut h v
recv_packets-Inv h (some bytes) gw v =
    branch (ltb max_buffer_size (length accum)) (λ e. ground arith)
  where
    accum : Bytes
    accum = get h [] gw.recv_spans ++ bytes

    gw' : Gateway
    gw' = record gw { recv_spans = insert h accum gw.recv_spans }

    branch : (b : Bool) → (b ≡ false → Fits accum) → OnReceive h (if b then threw gw' else done gw')
    branch true f = record {
      agree = v.agree;
      counted = v.counted;
      bounded = Values-erase-insert Fits h accum gw.recv_spans v.bounded;
    }
    branch false f = write_back-Inv h accum (f refl) v

parse_packets-Inv : (gw : Gateway) → Inv gw → OnOutcome (parse_packets gw)
unfolding parse_packets
parse_packets-Inv gw v = parse_spans-Inv gw.recv_spans gw v.bounded v

recv_and_parse-Inv :
    (h : ℕ) (received : Option Bytes) (gw : Gateway)
    → Inv gw
    → OnReceive h (recv_and_parse h received gw)
unfolding recv_and_parse
recv_and_parse-Inv h received gw v =
    then_parse (recv_packets h received gw) (recv_packets-Inv h received gw v)
  where
    relax : (r : Outcome) → OnOutcome r → OnReceive h r
    relax (done gw') w = unfold OnReceive in w
    relax (threw gw') w = unfold OnReceive in Inv-InvBut h w
    relax Outcome.undefined w = unfold OnReceive in tt
    relax Outcome.out_of_fuel w = unfold OnReceive in tt

    then_parse :
        (r : Outcome)
        → OnReceive h r
        → OnReceive h (elim r [
          | done gw' ↦ parse_packets gw'
          | threw gw' ↦ threw gw'
          | Outcome.undefined ↦ Outcome.undefined
          | Outcome.out_of_fuel ↦ Outcome.out_of_fuel
        ])
    then_parse (done gw') w = relax _ (parse_packets-Inv gw' (unfold OnReceive in w))
    then_parse (threw gw') w = w
    then_parse Outcome.undefined w = w
    then_parse Outcome.out_of_fuel w = w

drop_on_throw-Inv : (i h : ℕ) (r : Outcome) → OnReceive h r → OnTurn (drop_on_throw i h r)
unfolding drop_on_throw OnReceive
drop_on_throw-Inv i h (done gw) w = w
drop_on_throw-Inv i h (threw gw) w = disconnect_by_handle-Inv h w
drop_on_throw-Inv i h Outcome.undefined w = tt
drop_on_throw-Inv i h Outcome.out_of_fuel w = tt

if-OnTurn : (b : Bool) (x y : Turn) → OnTurn x → OnTurn y → OnTurn (if b then x else y)
if-OnTurn true x y tx ty = tx
if-OnTurn false x y tx ty = ty

-- A turn of the loop, whatever the network does in it, keeps the invariant: the registered servers are
-- the keys of `_gs_addr_to_handle`, `_nfds` counts the descriptors, and no receive buffer is longer than
-- `MAX_BUFFER_SIZE`.
pub handle_loop-Inv :
    (i : ℕ) (fd : PollFd) (io : Io) (gw : Gateway) → Inv gw → OnTurn (handle_loop i fd io gw)
unfolding handle_loop
handle_loop-Inv i fd io gw v =
    if-OnTurn fd.rev_error _ _ (disconnect_by_handle-Inv fd.handle (Inv-InvBut fd.handle v)) (
      if-OnTurn fd.rev_in _ _
        (if-OnTurn (fd.handle == gw.sock) _ _ (accept_clients-Inv io.accepted gw v)
          (drop_on_throw-Inv i fd.handle _ (recv_and_parse-Inv fd.handle io.received gw v)))
        (if-OnTurn (fd.rev_out && not (fd.handle == gw.sock)) _ _
          (Frame-Inv v (send_packets-Frame i fd io.sends gw)) v))
