-- ===== src/Gateway/Reachable.antt =====
-- The invariant from the start of the server on.
use mathlib.Core.Path.{subst}
use r_type_server.Prelude.{
  ℕ, ◌≡◌, refl, ap, sym, ◌∙◌, true, arith, Option, none, List, [], ◌∷◌, some, length, suc,
}
use r_type_server.Prelude.Dict.{Dict, nat_eq, endpoint_eq, lookup, contains}
use r_type_server.Gateway.Helpers.{queue}
use r_type_server.Gateway.Packets.{build_simple_response}
use r_type_server.Gateway.State.{Gateway, PollFd, Address, fresh}
use r_type_server.Gateway.Net.{send_occupancy_requests, keepalives}
use r_type_server.Gateway.Ensures.{Option-holds}
use r_type_server.Gateway.Frame.{Frame, refl-Frame, trans-Frame}
use r_type_server.Gateway.Consistent.{Inv, Frame-Inv}
use r_type_server.Gateway.Outbox.{handles}
use r_type_server.Gateway.Open.{Open, has_fd-handles, has_fd-at}
use r_type_server.Gateway.OpenTurn.{handle_loop-Open}
use r_type_server.Gateway.Invariant.{handle_loop-Inv}
use r_type_server.Gateway.Server.{
  Started, started, start_server, Polled, Step, polled, turned, requested, Reach, here, next,
}

abbrev OnStarted : Started → Type 0
OnStarted (started gw) = Inv gw
OnStarted _ = Unit

-- After the first start of the server.
pub start-Inv :
    (h : ℕ) (gw : Gateway)
    → start_server (some h) (record fresh { is_init = true }) ≡ started gw
    → Inv gw
unfolding start_server
start-Inv h gw e = subst OnStarted e first_state
  where
    first_state : OnStarted (start_server (some h) (record fresh { is_init = true }))
    first_state = record { agree = (tt, λ k. refl); counted = refl; bounded = tt }

length-Polled : {fds fds' : List PollFd} → Polled fds fds' → length fds' ≡ length fds
length-Polled Polled.end = refl
length-Polled (Polled.fd p e r w rest) = ap suc (length-Polled rest)

queue-Frame : (h : ℕ) (msg : List ℕ) (gw : Gateway) → Frame gw (queue h msg gw)
unfolding queue
queue-Frame h msg gw = record {
  agree = λ a. a;
  fds = refl;
  nfds = refl;
  recv_spans = refl;
  sock = refl;
}

keepalives-Frame : (m : Dict Address ℕ) (gw : Gateway) → Frame gw (keepalives m gw)
unfolding keepalives
keepalives-Frame [] gw = refl-Frame gw
keepalives-Frame ((key, v) ∷ m) gw =
    Option-holds (Frame gw) (lookup key gw.gs_addr_to_handle) (keepalives m gw)
      (λ h. keepalives m (queue h (build_simple_response 21) gw)) (keepalives-Frame m gw)
      (λ h. trans-Frame (queue-Frame h (build_simple_response 21) gw) (keepalives-Frame m _))

Step-Inv : {gw gw' : Gateway} → Step gw gw' → Inv gw → Inv gw'
unfolding send_occupancy_requests
Step-Inv (polled fds p) v = record {
  agree = v.agree;
  counted = v.counted ∙ sym (length-Polled p);
  bounded = v.bounded;
}
Step-Inv {gw} (turned i p io gw' j lt found e) v = rw e at (handle_loop-Inv i p io gw v)
Step-Inv {gw} requested v = Frame-Inv v (keepalives-Frame gw.gs_registry gw)

start-Open :
    (h : ℕ) (gw : Gateway)
    → start_server (some h) (record fresh { is_init = true }) ≡ started gw
    → Open gw
unfolding start_server
start-Open h gw e = subst OpenStarted e first_state
  where
    OpenStarted : Started → Type 0
    OpenStarted (started gw') = Open gw'
    OpenStarted _ = Unit

    first_state : OpenStarted (start_server (some h) (record fresh { is_init = true }))
    first_state = record {
      agree = (tt, λ k. refl);
      connected = λ k h' p. absurd (unfold lookup in ground (arith, p));
      received = λ h' p. absurd (unfold contains in unfold lookup in ground (arith, p));
    }

handles-Polled : {fds fds' : List PollFd} → Polled fds fds' → handles fds' ≡ handles fds
unfolding handles
handles-Polled Polled.end = refl
handles-Polled (Polled.fd p e r w rest) = ap (λ l. p.handle ∷ l) (handles-Polled rest)

keepalives-tables :
    (m : Dict Address ℕ) (gw : Gateway)
    → ((keepalives m gw).gs_addr_to_handle ≡ gw.gs_addr_to_handle)
      × ((keepalives m gw).recv_spans ≡ gw.recv_spans)
      × ((keepalives m gw).fds ≡ gw.fds)
unfolding keepalives queue
keepalives-tables [] gw = (refl, refl, refl)
keepalives-tables ((key, v) ∷ m) gw =
    at_key (lookup key gw.gs_addr_to_handle) (keepalives-tables m gw)
      (λ h. keepalives-tables m (queue h (build_simple_response 21) gw))
  where
    SameTables : Gateway → Type 0
    SameTables gw' =
        (gw'.gs_addr_to_handle ≡ gw.gs_addr_to_handle)
        × (gw'.recv_spans ≡ gw.recv_spans)
        × (gw'.fds ≡ gw.fds)

    at_key :
        (found : Option ℕ)
        → SameTables (keepalives m gw)
        → ((h : ℕ) → SameTables (keepalives m (queue h (build_simple_response 21) gw)))
        → SameTables (elim found as (λ _. Gateway) [
          | none ↦ keepalives m gw
          | some h ↦ keepalives m (queue h (build_simple_response 21) gw)
        ])
    at_key none at_none at_some = at_none
    at_key (some h) at_none at_some = at_some h

Step-Open : {gw gw' : Gateway} → Step gw gw' → Open gw → Open gw'
unfolding send_occupancy_requests
Step-Open {gw} (polled fds p) v = record {
  agree = v.agree;
  connected = λ k h e. has_fd-handles h gw.fds fds (handles-Polled p) ∙ v.connected k h e;
  received = λ h e. has_fd-handles h gw.fds fds (handles-Polled p) ∙ v.received h e;
}
Step-Open {gw} (turned i p io gw' j lt found e) v =
    rw e at (handle_loop-Open i p io gw (has_fd-at i p gw.fds found) v)
Step-Open {gw} requested v =
    let same = keepalives-tables gw.gs_registry gw in
    record {
      agree = (keepalives-Frame gw.gs_registry gw).agree v.agree;
      connected = λ k h e. rw same.2 (v.connected k h (rw same.0 at e));
      received = λ h e. rw same.2 (v.received h (rw same.1 at e));
    }

-- In every state that the running server comes to: the registered servers are those of
-- `_gs_addr_to_handle`, each once, and every one of their connections is the handle of an open descriptor;
-- every receive buffer belongs to an open descriptor, and none is longer than `MAX_BUFFER_SIZE`; and
-- `_nfds` counts the descriptors.
pub Reach-Inv :
    (h : ℕ) (gw gw' : Gateway)
    → start_server (some h) (record fresh { is_init = true }) ≡ started gw
    → Reach gw gw'
    → Inv gw' × Open gw'
Reach-Inv h gw gw' e r = go (start-Inv h gw e) (start-Open h gw e) r
  where
    go : {g g' : Gateway} → Inv g → Open g → Reach g g' → Inv g' × Open g'
    go v o here = (v, o)
    go v o (next r s) = let before = go v o r in (Step-Inv s before.0, Step-Open s before.1)
