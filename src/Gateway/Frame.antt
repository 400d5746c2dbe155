-- ===== src/Gateway/Frame.antt =====
-- What every packet leaves as it was.
use r_type_server.Prelude.{ℕ, ◌≡◌, refl, ◌∙◌, arith}
use r_type_server.Prelude.Dict.{
  nat_eq, endpoint_eq, endpoint_beq_iff, contains, contains-insert, Unique, Unique-insert, lookup,
  is_empty,
}
use r_type_server.Wire.{Bytes, Reader, ◌>>=◌, pure, need, incomplete_packet}
use r_type_server.Gateway.State.{Gateway, Address}
use r_type_server.Gateway.Helpers.{send_to, find_least_occupied_gs, get_gs_handle}
use r_type_server.Gateway.Packets.{
  get_header, extract_game_id, build_join_msg_for_client, build_join_msg_for_gs,
}
use r_type_server.Gateway.Commands.{
  handle_ok_ko, join_branches, handle_join, handle_create, create_branches, forward_create,
  route_join, handle_gs_registration, handle_occupancy, handle_gid, handle_game_end, register_gs,
  finish_create,
}
use r_type_server.Gateway.Parse.{dispatch, parse_packet}
use r_type_server.Gateway.Ensures.{
  Ensures, if-holds, Option-holds, pure-Ensures, throw-Ensures, if-Ensures, Option-Ensures,
  >>=-Ensures, returned-Ensures,
}
use r_type_server.Gateway.Outbox.{handles, handles-set_pollout}

-- The registered servers are the keys of `_gs_addr_to_handle`, each once.
abbrev pub Agree : Gateway → Type 0
Agree gw =
    Unique gw.gs_addr_to_handle
    × ((k : Address) → contains k gw.gs_registry ≡ contains k gw.gs_addr_to_handle)

pub record Frame (gw gw' : Gateway) : Type 0 where
  pub agree : Agree gw → Agree gw'
  pub fds : handles gw'.fds ≡ handles gw.fds
  pub nfds : gw'.nfds ≡ gw.nfds
  pub recv_spans : gw'.recv_spans ≡ gw.recv_spans
  pub sock : gw'.sock ≡ gw.sock

send_to-Frame : (h : ℕ) (msg : Bytes) (gw : Gateway) → Frame gw (send_to h msg gw)
unfolding send_to
send_to-Frame h msg gw = record {
  agree = λ a. a;
  fds = handles-set_pollout h gw.fds;
  nfds = refl;
  recv_spans = refl;
  sock = refl;
}

register_gs-Frame : (h : ℕ) (key : Address) (gw : Gateway) → Frame gw (register_gs h key gw)
unfolding register_gs
register_gs-Frame h key gw = record {
  agree = λ a. (
    ground (arith, a.0, Unique-insert key h gw.gs_addr_to_handle a.0),
    λ k. ground (
      arith,
      a.1 k,
      a.1 key,
      endpoint_beq_iff key k,
      contains-insert key k 1 gw.gs_registry,
      contains-insert key k h gw.gs_addr_to_handle,
    ),
  );
  fds = handles-set_pollout h gw.fds;
  nfds = refl;
  recv_spans = refl;
  sock = refl;
}

finish_create-Frame :
    (h client : ℕ) (msg : Bytes) (gw : Gateway) → Frame gw (finish_create h client msg gw)
unfolding finish_create
finish_create-Frame h client msg gw = ground (arith, handles-set_pollout client gw.fds)

forward_create-Frame : (h g gs : ℕ) (gw : Gateway) → Frame gw (forward_create h g gs gw)
unfolding forward_create
forward_create-Frame h g gs gw =
    ground (arith, handles-set_pollout h gw.fds, handles-set_pollout gs gw.fds)

create_branches-Frame : (h g : ℕ) (gw : Gateway) → Frame gw (create_branches h g gw)
unfolding create_branches
create_branches-Frame h g gw =
    if-holds (Frame gw) (is_empty gw.gs_registry) _ _ (send_to-Frame h _ gw) (
      Option-holds (Frame gw) (find_least_occupied_gs gw) _
        (λ key. forward_create h g (get_gs_handle key gw) gw) (send_to-Frame h _ gw)
        (λ key. forward_create-Frame h g (get_gs_handle key gw) gw))

route_join-Frame : (h id : ℕ) (gw : Gateway) → Frame gw (route_join h id gw)
unfolding route_join
route_join-Frame h id gw =
    Option-holds (Frame gw) (lookup id gw.game_to_gs) _
      (λ key. send_to h (build_join_msg_for_gs key.0 key.1 id) gw) (send_to-Frame h _ gw)
      (λ key. send_to-Frame h _ gw)

pub refl-Frame : (gw : Gateway) → Frame gw gw
refl-Frame gw = record { agree = λ a. a; fds = refl; nfds = refl; recv_spans = refl; sock = refl }

-- A reader that returns leaves a gateway in the frame of `gw`.
abbrev pub Frames : Gateway → Reader Gateway → Type 0
Frames gw m = Ensures (Frame gw) m

ruleset frame_rules = (
  pure-Ensures, throw-Ensures, if-Ensures, >>=-Ensures, refl-Frame, send_to-Frame,
  register_gs-Frame, finish_create-Frame, create_branches-Frame, route_join-Frame,
)

join_branches-Frames : (h id : ℕ) (gw : Gateway) → Frames gw (join_branches h id gw)
unfolding join_branches
join_branches-Frames h id gw =
    if-Ensures (Frame gw) (is_empty gw.gs_registry) _ _ (search frame_rules) (
      Option-Ensures (Frame gw) (lookup h gw.pending_creates) _
        (λ pending. do
          join_msg ← build_join_msg_for_client 1
          pure (finish_create h pending.0 join_msg gw))
        (search frame_rules) (λ pending. search frame_rules))

pub trans-Frame : {a b c : Gateway} → Frame a b → Frame b c → Frame a c
trans-Frame f g = record {
  agree = λ x. g.agree (f.agree x);
  fds = g.fds ∙ f.fds;
  nfds = g.nfds ∙ f.nfds;
  recv_spans = g.recv_spans ∙ f.recv_spans;
  sock = g.sock ∙ f.sock;
}

handle_join-Frames : (h : ℕ) (gw : Gateway) → Frames gw (handle_join h gw)
unfolding handle_join
handle_join-Frames h gw = >>=-Ensures (Frame gw) (need 5 incomplete_packet) _ (λ _.
    >>=-Ensures (Frame gw) (extract_game_id 1) _
      (λ id. returned-Ensures (Frame gw) (join_branches h id gw) 5 (join_branches-Frames h id gw)))

handle_ok_ko-Frames : (gw : Gateway) → Frames gw (handle_ok_ko gw)
unfolding handle_ok_ko
handle_ok_ko-Frames gw = search frame_rules

handle_create-Frames : (h : ℕ) (gw : Gateway) → Frames gw (handle_create h gw)
unfolding handle_create
handle_create-Frames h gw = search frame_rules depth 8

handle_gs_registration-Frames : (h : ℕ) (gw : Gateway) → Frames gw (handle_gs_registration h gw)
unfolding handle_gs_registration
handle_gs_registration-Frames h gw = search frame_rules depth 8

handle_occupancy-Frames : (h : ℕ) (gw : Gateway) → Frames gw (handle_occupancy h gw)
unfolding handle_occupancy
handle_occupancy-Frames h gw = record { at = λ d o. ground arith }

handle_gid-Frames : (h : ℕ) (gw : Gateway) → Frames gw (handle_gid h gw)
unfolding handle_gid
handle_gid-Frames h gw = record { at = λ d o. ground arith }

handle_game_end-Frames : (h : ℕ) (gw : Gateway) → Frames gw (handle_game_end h gw)
unfolding handle_game_end
handle_game_end-Frames h gw = record { at = λ d o. ground arith }

dispatch-Frames : (pkt h : ℕ) (gw : Gateway) → Frames gw (dispatch pkt h gw)
unfolding dispatch
dispatch-Frames pkt h gw =
    search
      (
        if-Ensures, throw-Ensures, handle_ok_ko-Frames, handle_join-Frames, handle_create-Frames,
        handle_gs_registration-Frames, handle_occupancy-Frames, handle_gid-Frames,
        handle_game_end-Frames,
      )
      depth 14

-- A packet that is handled keeps the registry and the connections of the servers in agreement, opens
-- and closes no connection, and leaves the buffers of what was received.
pub parse_packet-Frames : (h : ℕ) (gw : Gateway) → Frames gw (parse_packet h gw)
unfolding parse_packet
parse_packet-Frames h gw = >>=-Ensures (Frame gw) get_header _ (λ pkt. dispatch-Frames pkt h gw)
