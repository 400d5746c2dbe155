-- ===== src/Gateway/OpenTurn.antt =====
-- A turn of the gateway's loop leaves the connections of the servers, and the receive buffers, with open
-- descriptors (server/src/Gateway/Implementation.cpp and Recv.cpp).
use r_type_server.Prelude.{
  ℕ, ◌≡◌, Bool, true, false, List, [], ◌++◌, Option, none, some, arith, ltb, length, ◌==◌,
  if◌then◌else◌, not, ◌&&◌,
}
use r_type_server.Prelude.Dict.{nat_eq, endpoint_eq, contains-insert, insert, get}
use r_type_server.Wire.{Bytes}
use r_type_server.Gateway.State.{Gateway, PollFd, Socket, max_buffer_size}
use r_type_server.Gateway.Parse.{Outcome, done, threw, parse_spans, parse_packets}
use r_type_server.Gateway.Net.{
  has_fd, accept_clients, send_packets, recv_packets, recv_and_parse, drop_on_throw, handle_clients,
  handle_loop, Turn, turn, Io,
}
use r_type_server.Gateway.Consistent.{send_packets-Frame}
use r_type_server.Gateway.Changes.{nothing-Changed}
use r_type_server.Gateway.TurnChanges.{send_packets-tables}
use r_type_server.Gateway.Open.{Open, Frame-Open, disconnect_by_handle-Open, has_fd-append}
use r_type_server.Gateway.OpenParse.{OnOutcome, parse_spans-Open}

abbrev Opened : Outcome → Type 0
Opened (done gw) = Open gw
Opened (threw gw) = Open gw
Opened _ = Unit

abbrev pub OpenAfter : Turn → Type 0
OpenAfter (turn gw i) = Open gw
OpenAfter _ = Unit

parse_packets-Open : (gw : Gateway) → Open gw → Opened (parse_packets gw)
unfolding parse_packets
parse_packets-Open gw v =
    weaken (parse_spans gw.recv_spans gw)
      (parse_spans-Open gw.fds gw.recv_spans gw v.received (v, λ h e. e))
  where
    weaken : (r : Outcome) → OnOutcome gw.fds r → Opened r
    weaken (done gw') w = w.0
    weaken (threw gw') w = w.0
    weaken Outcome.undefined w = tt
    weaken Outcome.out_of_fuel w = tt

recv_and_parse-Open :
    (h : ℕ) (received : Option Bytes) (gw : Gateway)
    → has_fd h gw.fds ≡ true
    → Open gw
    → Opened (recv_and_parse h received gw)
unfolding recv_and_parse recv_packets
recv_and_parse-Open h none gw p v = v
recv_and_parse-Open h (some bytes) gw p v =
    branch (ltb max_buffer_size (length (get h [] gw.recv_spans ++ bytes)))
  where
    fed : Gateway
    fed = record gw { recv_spans = insert h (get h [] gw.recv_spans ++ bytes) gw.recv_spans }

    fed-Open : Open fed
    fed-Open = record {
      agree = v.agree;
      connected = v.connected;
      received = λ h' e. ground (
        arith,
        e,
        p,
        v.received h',
        contains-insert h h' (get h [] gw.recv_spans ++ bytes) gw.recv_spans,
      );
    }

    branch :
        (b : Bool)
        → Opened (elim (if b then threw fed else done fed) [
          | done gw' ↦ parse_packets gw'
          | threw gw' ↦ threw gw'
          | Outcome.undefined ↦ Outcome.undefined
          | Outcome.out_of_fuel ↦ Outcome.out_of_fuel
        ])
    branch true = fed-Open
    branch false = parse_packets-Open fed fed-Open

drop_on_throw-Open : (i h : ℕ) (r : Outcome) → Opened r → OpenAfter (drop_on_throw i h r)
unfolding drop_on_throw
drop_on_throw-Open i h (done gw) v = v
drop_on_throw-Open i h (threw gw) v = disconnect_by_handle-Open h gw v
drop_on_throw-Open i h Outcome.undefined v = tt
drop_on_throw-Open i h Outcome.out_of_fuel v = tt

accept_clients-Open :
    (accepted : Option Socket) (gw : Gateway) → Open gw → Open (accept_clients accepted gw)
unfolding accept_clients
accept_clients-Open none gw v = v
accept_clients-Open (some s) gw v = record {
  agree = v.agree;
  connected = λ k h e. has_fd-append h gw.fds _ (v.connected k h e);
  received = λ h e. has_fd-append h gw.fds _ (v.received h e);
}

send_packets-Open :
    (i : ℕ) (fd : PollFd) (results : List (Option ℕ)) (gw : Gateway)
    → has_fd fd.handle gw.fds ≡ true
    → Open gw
    → Open (send_packets i fd results gw).0
send_packets-Open i fd results gw p v =
    let tables = send_packets-tables i fd results gw in
    (Frame-Open p v (send_packets-Frame i fd results gw)
      (nothing-Changed fd.handle gw (send_packets i fd results gw).0 tables.0 tables.2 tables.3)).0

if-OpenAfter : (b : Bool) (x y : Turn) → OpenAfter x → OpenAfter y → OpenAfter (if b then x else y)
if-OpenAfter true x y tx ty = tx
if-OpenAfter false x y tx ty = ty

-- A turn for an open descriptor, whatever the network does in it.
pub handle_loop-Open :
    (i : ℕ) (fd : PollFd) (io : Io) (gw : Gateway)
    → has_fd fd.handle gw.fds ≡ true
    → Open gw
    → OpenAfter (handle_loop i fd io gw)
unfolding handle_loop handle_clients
handle_loop-Open i fd io gw p v =
    if-OpenAfter fd.rev_error _ _ (disconnect_by_handle-Open fd.handle gw v) (
      if-OpenAfter fd.rev_in _ _
        (if-OpenAfter (fd.handle == gw.sock) _ _ (accept_clients-Open io.accepted gw v)
          (drop_on_throw-Open i fd.handle _ (recv_and_parse-Open fd.handle io.received gw p v)))
        (if-OpenAfter (fd.rev_out && not (fd.handle == gw.sock)) _ _
          (send_packets-Open i fd io.sends gw p v) v))
