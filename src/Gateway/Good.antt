-- ===== src/Gateway/Good.antt =====
-- What the parts of a turn of the gateway do to its directory: only changes that the peers may make.
use mathlib.Core.Path.{subst}
use r_type_server.Prelude.{
  ℕ, zero, suc, ◌+◌, ◌%◌, ◌≡◌, ◌≢◌, refl, ap, sym, inl, inr, ◌⊎◌, Bool, true, false, [], ◌∷◌, ◌++◌,
  Option, none, some, arith, ltb, leb, length, if◌then◌else◌,
}
use r_type_server.Prelude.Dict.{Dict, nat_eq, endpoint_eq, insert, get, Unique}
use r_type_server.Wire.{Bytes, Read, ok, err, oob}
use r_type_server.Gateway.State.{Gateway, max_buffer_size, max_parse_errors}
use r_type_server.Gateway.Parse.{
  parse_packet, count_error, parse_buffer, Parsed, stopped, fatal, Outcome, done, threw,
  erase_parsed, parse_spans, parse_packets,
}
use r_type_server.Gateway.Net.{
  disconnect_by_handle, recv_packets, recv_and_parse, drop_on_throw, Turn, turn,
}
use r_type_server.Gateway.Ensures.{Returns}
use r_type_server.Gateway.Frame.{Agree, Frame, parse_packet-Frames}
use r_type_server.Gateway.Consistent.{disconnect_by_handle-Agree}
use r_type_server.Gateway.Directory.{Directory, Run, step, view}
use r_type_server.Gateway.Changes.{Changed}
use r_type_server.Gateway.PacketChanges.{parse_packet-Changed}
use r_type_server.Gateway.TurnChanges.{disconnect_by_handle-Changed}

-- The tables agree, and the changes so far are such.
pub record Good (May : ℕ → Type 0) (s : Directory) (gw : Gateway) : Type 0 where
  pub agree : Agree gw
  pub run : Run May s (view gw)

-- A connection with bytes in its receive buffer.
abbrev pub Waits : ℕ → Dict ℕ Bytes → Type 0
Waits h [] = ⊥
Waits h ((h', buf) ∷ m) = ((h' ≡ h) × (buf ≢ [])) ⊎ Waits h m

insert-Waits :
    (h h' : ℕ) (buf : Bytes) (m : Dict ℕ Bytes) → Waits h (insert h' buf m) → (h' ≡ h) ⊎ Waits h m
unfolding insert
insert-Waits h h' buf [] w = ground (arith, w)
insert-Waits h h' buf ((k, v) ∷ m) w = ground (arith, w, insert-Waits h h' buf m)

abbrev OnParsed : (ℕ → Type 0) → Directory → Parsed → Type 0
OnParsed May s (stopped gw o) = Good May s gw
OnParsed May s (fatal gw) = Good May s gw
OnParsed May s _ = Unit

abbrev pub OnOutcome : (ℕ → Type 0) → Directory → Outcome → Type 0
OnOutcome May s (done gw) = Good May s gw
OnOutcome May s (threw gw) = Good May s gw
OnOutcome May s _ = Unit

abbrev pub OnTurn : (ℕ → Type 0) → Directory → Turn → Type 0
OnTurn May s (turn gw i) = Good May s gw
OnTurn May s _ = Unit

module _ (May : ℕ → Type 0) (s : Directory) where
  -- The same directory.
  pub alike :
      {gw gw' : Gateway}
      → gw'.gs_addr_to_handle ≡ gw.gs_addr_to_handle
      → gw'.gs_registry ≡ gw.gs_registry
      → gw'.occupancy_cache ≡ gw.occupancy_cache
      → gw'.game_to_gs ≡ gw.game_to_gs
      → Good May s gw
      → Good May s gw'
  alike {gw} {gw'} ec er el eg g = record {
    agree = (subst Unique (sym ec) g.agree.0, λ k. rw (ec, er) (g.agree.1 k));
    run = rw (ec, el, eg) g.run;
  }

  count_error-Good : (h o : ℕ) (gw : Gateway) → Good May s gw → OnParsed May s (count_error h o gw)
  unfolding count_error
  count_error-Good h o gw g =
      branch (leb max_parse_errors ((get h 0 gw.parse_errors + 1) % 256))
        (alike refl refl refl refl g)
    where
      branch :
          (b : Bool) {gw' : Gateway}
          → Good May s gw'
          → OnParsed May s (if b then fatal gw' else stopped gw' o)
      branch true w = w
      branch false w = w

  parse_buffer-Good :
      (fuel h : ℕ) (gw : Gateway) (d : Bytes) (o : ℕ)
      → (d ≢ [] → May h)
      → Good May s gw
      → OnParsed May s (parse_buffer fuel h gw d o)
  unfolding parse_buffer
  parse_buffer-Good zero h gw d o may g = ground arith
  parse_buffer-Good (suc fuel) h gw d o may g =
      round (ltb o (length d)) refl (parse_packet h gw d o) ((parse_packet-Frames h gw).at d o)
        ((parse_packet-Changed h gw g.agree).at d o)
        (λ gw' o' g'. parse_buffer-Good fuel h gw' d o' may g')
    where
      nonempty : ltb o (length d) ≡ true → d ≢ []
      nonempty el p = ground (arith, ap length p)

      round :
          (b : Bool)
          → ltb o (length d) ≡ b
          → (r : Read Gateway) → Returns (Frame gw) r
          → Returns (Changed h gw) r
          → ((gw' : Gateway) (o' : ℕ)
              → Good May s gw'
              → OnParsed May s (parse_buffer fuel h gw' d o'))
          → OnParsed May s (elim b [
            | false ↦ stopped gw o
            | true ↦ elim r [
              | ok gw' o' ↦ parse_buffer fuel h gw' d o'
              | err e o' ↦ count_error h o' gw
              | oob ↦ Parsed.undefined
            ]
          ])
      round false el r f c ih = g
      round true el (ok gw' o') f c ih =
          ih gw' o' (record { agree = f.agree g.agree; run = step g.run h (may (nonempty el)) c })
      round true el (err e o') f c ih = count_error-Good h o' gw g
      round true el oob f c ih = tt

  parse_spans-Good :
      (spans : Dict ℕ Bytes) (gw : Gateway)
      → ((h : ℕ) → Waits h spans → May h)
      → Good May s gw
      → OnOutcome May s (parse_spans spans gw)
  unfolding parse_spans
  parse_spans-Good [] gw may g = g
  parse_spans-Good ((h, buf) ∷ rest) gw may g =
      after_buffer (parse_buffer (length buf) h gw buf 0)
        (parse_buffer-Good (length buf) h gw buf 0 (λ ne. may h (inl (refl, ne))) g)
        (λ gw' g'. parse_spans-Good rest gw' (λ h' w. may h' (inr w)) g')
    where
      after_buffer :
          (p : Parsed)
          → OnParsed May s p
          → ((gw' : Gateway) → Good May s gw' → OnOutcome May s (parse_spans rest gw'))
          → OnOutcome May s (elim p [
            | stopped gw' o ↦
                parse_spans rest
                  (record gw' { recv_spans = insert h (erase_parsed o buf) gw'.recv_spans })
            | fatal gw' ↦ threw gw'
            | Parsed.undefined ↦ Outcome.undefined
            | Parsed.out_of_fuel ↦ Outcome.out_of_fuel
          ])
      after_buffer (stopped gw' o) w ih = ih _ (alike refl refl refl refl w)
      after_buffer (fatal gw') w ih = w
      after_buffer Parsed.undefined w ih = tt
      after_buffer Parsed.out_of_fuel w ih = tt

  abbrev Fed : Outcome → Type 0
  Fed (done gw) = Good May s gw × ((h : ℕ) → Waits h gw.recv_spans → May h)
  Fed (threw gw) = Good May s gw
  Fed _ = Unit

  recv_packets-Good :
      (h : ℕ) (received : Option Bytes) (gw : Gateway)
      → May h
      → ((h' : ℕ) → Waits h' gw.recv_spans → May h')
      → Good May s gw
      → Fed (recv_packets h received gw)
  unfolding recv_packets
  recv_packets-Good h none gw may_h may g = g
  recv_packets-Good h (some bytes) gw may_h may g =
      branch (ltb max_buffer_size (length (get h [] gw.recv_spans ++ bytes)))
        (alike refl refl refl refl g) fed
    where
      fed : (h' : ℕ) → Waits h' (insert h (get h [] gw.recv_spans ++ bytes) gw.recv_spans) → May h'
      fed h' w = elim (insert-Waits h' h (get h [] gw.recv_spans ++ bytes) gw.recv_spans w) [
        | inl e ↦ subst May e may_h
        | inr w' ↦ may h' w'
      ]

      branch :
          (b : Bool) {gw' : Gateway}
          → Good May s gw'
          → ((h' : ℕ) → Waits h' gw'.recv_spans → May h')
          → Fed (if b then threw gw' else done gw')
      branch true w f = w
      branch false w f = (w, f)

  pub recv_and_parse-Good :
      (h : ℕ) (received : Option Bytes) (gw : Gateway)
      → May h
      → ((h' : ℕ) → Waits h' gw.recv_spans → May h')
      → Good May s gw
      → OnOutcome May s (recv_and_parse h received gw)
  unfolding recv_and_parse parse_packets
  recv_and_parse-Good h received gw may_h may g =
      then_parse (recv_packets h received gw) (recv_packets-Good h received gw may_h may g)
    where
      then_parse :
          (r : Outcome)
          → Fed r
          → OnOutcome May s (elim r [
            | done gw' ↦ parse_packets gw'
            | threw gw' ↦ threw gw'
            | Outcome.undefined ↦ Outcome.undefined
            | Outcome.out_of_fuel ↦ Outcome.out_of_fuel
          ])
      then_parse (done gw') w = parse_spans-Good gw'.recv_spans gw' w.1 w.0
      then_parse (threw gw') w = w
      then_parse Outcome.undefined w = tt
      then_parse Outcome.out_of_fuel w = tt

  pub disconnect_by_handle-Good :
      (h : ℕ) (gw : Gateway) → May h → Good May s gw → Good May s (disconnect_by_handle h gw)
  disconnect_by_handle-Good h gw may_h g = record {
    agree = disconnect_by_handle-Agree h gw g.agree;
    run = step g.run h may_h (disconnect_by_handle-Changed h gw g.agree.0);
  }

  pub drop_on_throw-Good :
      (i h : ℕ) (r : Outcome) → May h → OnOutcome May s r → OnTurn May s (drop_on_throw i h r)
  unfolding drop_on_throw
  drop_on_throw-Good i h (done gw) may_h g = g
  drop_on_throw-Good i h (threw gw) may_h g = disconnect_by_handle-Good h gw may_h g
  drop_on_throw-Good i h Outcome.undefined may_h g = tt
  drop_on_throw-Good i h Outcome.out_of_fuel may_h g = tt
