-- ===== src/Gateway/OpenParse.antt =====
-- The parser leaves the connections of the servers, and the receive buffers, with open descriptors
-- (server/src/Gateway/ParsePackets.cpp).
use r_type_server.Prelude.{
  ℕ, zero, suc, ◌+◌, ◌%◌, ◌≡◌, ◌⊎◌, inl, inr, refl, Bool, true, false, List, [], ◌∷◌, arith, ltb,
  leb, length, if◌then◌else◌,
}
use r_type_server.Prelude.Dict.{
  Dict, nat_eq, endpoint_eq, contains, contains-insert, lookup, insert, get,
}
use r_type_server.Wire.{Bytes, Read, ok, err, oob}
use r_type_server.Gateway.State.{Gateway, PollFd, max_parse_errors}
use r_type_server.Gateway.Parse.{
  parse_packet, count_error, parse_buffer, Parsed, stopped, fatal, Outcome, done, threw,
  erase_parsed, parse_spans,
}
use r_type_server.Gateway.Net.{has_fd}
use r_type_server.Gateway.Ensures.{Returns}
use r_type_server.Gateway.Frame.{Frame, parse_packet-Frames}
use r_type_server.Gateway.Changes.{Changed}
use r_type_server.Gateway.PacketChanges.{parse_packet-Changed}
use r_type_server.Gateway.Open.{Open, Frame-Open}

-- The descriptors that are among `fds` stay open.
abbrev pub Kept : List PollFd → Gateway → Type 0
Kept fds gw = Open gw × ((h : ℕ) → has_fd h fds ≡ true → has_fd h gw.fds ≡ true)

contains-cons :
    (h h' : ℕ) (buf : Bytes) (m : Dict ℕ Bytes)
    → (h ≡ h') ⊎ (contains h' m ≡ true)
    → contains h' ((h, buf) ∷ m) ≡ true
unfolding contains lookup
contains-cons h h' buf m e = ground (arith, e)

module _ (fds : List PollFd) where
  abbrev OnParsed : Parsed → Type 0
  OnParsed (stopped gw o) = Kept fds gw
  OnParsed (fatal gw) = Kept fds gw
  OnParsed _ = Unit

  abbrev pub OnOutcome : Outcome → Type 0
  OnOutcome (done gw) = Kept fds gw
  OnOutcome (threw gw) = Kept fds gw
  OnOutcome _ = Unit

  with_errors :
      (errors : Dict ℕ ℕ) (gw : Gateway)
      → Kept fds gw
      → Kept fds (record gw { parse_errors = errors })
  with_errors errors gw v =
      (record { agree = v.0.agree; connected = v.0.connected; received = v.0.received }, v.1)

  count_error-Open : (h o : ℕ) (gw : Gateway) → Kept fds gw → OnParsed (count_error h o gw)
  unfolding count_error
  count_error-Open h o gw v =
      branch (leb max_parse_errors ((get h 0 gw.parse_errors + 1) % 256)) (with_errors _ gw v)
    where
      branch :
          (b : Bool) {gw' : Gateway}
          → Kept fds gw'
          → OnParsed (if b then fatal gw' else stopped gw' o)
      branch true w = w
      branch false w = w

  parse_buffer-Open :
      (fuel h : ℕ) (gw : Gateway) (d : Bytes) (o : ℕ)
      → has_fd h fds ≡ true
      → Kept fds gw
      → OnParsed (parse_buffer fuel h gw d o)
  unfolding parse_buffer
  parse_buffer-Open zero h gw d o p v = ground arith
  parse_buffer-Open (suc fuel) h gw d o p v =
      round (ltb o (length d)) (parse_packet h gw d o) ((parse_packet-Frames h gw).at d o)
        ((parse_packet-Changed h gw v.0.agree).at d o)
        (λ gw' o' w. parse_buffer-Open fuel h gw' d o' p w)
    where
      round :
          (b : Bool) (r : Read Gateway)
          → Returns (Frame gw) r
          → Returns (Changed h gw) r
          → ((gw' : Gateway) (o' : ℕ) → Kept fds gw' → OnParsed (parse_buffer fuel h gw' d o'))
          → OnParsed (elim b [
            | false ↦ stopped gw o
            | true ↦ elim r [
              | ok gw' o' ↦ parse_buffer fuel h gw' d o'
              | err e o' ↦ count_error h o' gw
              | oob ↦ Parsed.undefined
            ]
          ])
      round false r f c ih = v
      round true (ok gw' o') f c ih =
          let w = Frame-Open (v.1 h p) v.0 f c in ih gw' o' (w.0, λ h' e. w.1 h' (v.1 h' e))
      round true (err e o') f c ih = count_error-Open h o' gw v
      round true oob f c ih = tt

  pub parse_spans-Open :
      (spans : Dict ℕ Bytes) (gw : Gateway)
      → ((h : ℕ) → contains h spans ≡ true → has_fd h fds ≡ true)
      → Kept fds gw
      → OnOutcome (parse_spans spans gw)
  unfolding parse_spans
  parse_spans-Open [] gw p v = v
  parse_spans-Open ((h, buf) ∷ rest) gw p v =
      after_buffer (parse_buffer (length buf) h gw buf 0)
        (parse_buffer-Open (length buf) h gw buf 0 at_h v)
        (λ gw' w. parse_spans-Open rest gw' in_rest w)
    where
      at_h : has_fd h fds ≡ true
      at_h = p h (contains-cons h h buf rest (inl refl))

      in_rest : (h' : ℕ) → contains h' rest ≡ true → has_fd h' fds ≡ true
      in_rest h' e = p h' (contains-cons h h' buf rest (inr e))

      written :
          (o : ℕ) (gw' : Gateway)
          → Kept fds gw'
          → Kept fds (record gw' { recv_spans = insert h (erase_parsed o buf) gw'.recv_spans })
      written o gw' w = (
        record {
          agree = w.0.agree;
          connected = w.0.connected;
          received = λ h' e. ground (
            arith,
            e,
            w.1 h at_h,
            w.0.received h',
            contains-insert h h' (erase_parsed o buf) gw'.recv_spans,
          );
        },
        w.1,
      )

      after_buffer :
          (p : Parsed)
          → OnParsed p
          → ((gw' : Gateway) → Kept fds gw' → OnOutcome (parse_spans rest gw'))
          → OnOutcome (elim p [
            | stopped gw' o ↦
                parse_spans rest
                  (record gw' { recv_spans = insert h (erase_parsed o buf) gw'.recv_spans })
            | fatal gw' ↦ threw gw'
            | Parsed.undefined ↦ Outcome.undefined
            | Parsed.out_of_fuel ↦ Outcome.out_of_fuel
          ])
      after_buffer (stopped gw' o) w ih = ih _ (written o gw' w)
      after_buffer (fatal gw') w ih = w
      after_buffer Parsed.undefined w ih = tt
      after_buffer Parsed.out_of_fuel w ih = tt
