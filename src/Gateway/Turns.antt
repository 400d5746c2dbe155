-- ===== src/Gateway/Turns.antt =====
-- Every turn of the gateway's loop ends.
use r_type_server.Prelude.{ℕ, arith, [], ◌∷◌, Option, length}
use r_type_server.Prelude.Dict.{Dict, insert, nat_eq}
use r_type_server.Wire.{Bytes}
use r_type_server.Gateway.State.{Gateway, PollFd}
use r_type_server.Gateway.Parse.{
  parse_buffer, Parsed, stopped, fatal, Outcome, done, threw, parse_spans, parse_packets,
  erase_parsed,
}
use r_type_server.Gateway.Net.{
  recv_packets, recv_and_parse, drop_on_throw, handle_clients, handle_loop, Turn, Io,
}
use r_type_server.Gateway.Progress.{Ends, parse_buffer-Ends}

abbrev Concludes : Outcome → Type 0
Concludes Outcome.out_of_fuel = ⊥
Concludes _ = Unit

abbrev pub Concluded : Turn → Type 0
Concluded Turn.stuck = ⊥
Concluded _ = Unit

parse_spans-Concludes : (spans : Dict ℕ Bytes) (gw : Gateway) → Concludes (parse_spans spans gw)
unfolding parse_spans
parse_spans-Concludes [] gw = tt
parse_spans-Concludes ((h, buf) ∷ rest) gw =
    after_buffer (parse_buffer (length buf) h gw buf 0)
      (parse_buffer-Ends (length buf) h gw buf 0 (omega arith) (omega arith))
      (parse_spans-Concludes rest)
  where
    after_buffer :
        (p : Parsed)
        → Ends buf 0 p
        → ((gw' : Gateway) → Concludes (parse_spans rest gw'))
        → Concludes (elim p [
          | stopped gw' o ↦
              parse_spans rest
                (record gw' { recv_spans = insert h (erase_parsed o buf) gw'.recv_spans })
          | fatal gw' ↦ threw gw'
          | Parsed.undefined ↦ Outcome.undefined
          | Parsed.out_of_fuel ↦ Outcome.out_of_fuel
        ])
    after_buffer (stopped gw' o) e ih = ih _
    after_buffer (fatal gw') e ih = tt
    after_buffer Parsed.undefined e ih = tt
    after_buffer Parsed.out_of_fuel e ih = e

recv_packets-Concludes :
    (h : ℕ) (received : Option Bytes) (gw : Gateway) → Concludes (recv_packets h received gw)
unfolding recv_packets
recv_packets-Concludes h received gw = ground arith

parse_packets-Concludes : (gw : Gateway) → Concludes (parse_packets gw)
unfolding parse_packets
parse_packets-Concludes gw = parse_spans-Concludes gw.recv_spans gw

recv_and_parse-Concludes :
    (h : ℕ) (received : Option Bytes) (gw : Gateway) → Concludes (recv_and_parse h received gw)
unfolding recv_and_parse
recv_and_parse-Concludes h received gw =
    then_parse (recv_packets h received gw) (recv_packets-Concludes h received gw)
  where
    then_parse :
        (r : Outcome)
        → Concludes r
        → Concludes (elim r [
          | done gw' ↦ parse_packets gw'
          | threw gw' ↦ threw gw'
          | Outcome.undefined ↦ Outcome.undefined
          | Outcome.out_of_fuel ↦ Outcome.out_of_fuel
        ])
    then_parse (done gw') c = parse_packets-Concludes gw'
    then_parse (threw gw') c = tt
    then_parse Outcome.undefined c = tt
    then_parse Outcome.out_of_fuel c = c

drop_on_throw-Concluded : (i h : ℕ) (r : Outcome) → Concludes r → Concluded (drop_on_throw i h r)
unfolding drop_on_throw
drop_on_throw-Concluded i h (done gw) c = tt
drop_on_throw-Concluded i h (threw gw) c = tt
drop_on_throw-Concluded i h Outcome.undefined c = tt
drop_on_throw-Concluded i h Outcome.out_of_fuel c = c

-- A turn of the loop ends, whatever the network does in it and whatever the buffers hold: every buffer is
-- parsed in as many rounds as it has bytes.
pub handle_loop-Concluded :
    (i : ℕ) (fd : PollFd) (io : Io) (gw : Gateway) → Concluded (handle_loop i fd io gw)
unfolding handle_loop handle_clients
handle_loop-Concluded i fd io gw = ground (
  arith,
  drop_on_throw-Concluded i fd.handle _ (recv_and_parse-Concludes fd.handle io.received gw),
)
