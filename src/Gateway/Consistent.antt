-- ===== src/Gateway/Consistent.antt =====
-- What is consistent in a gateway's state, and that accepting, disconnecting and sending keep it
-- (server/src/Gateway/Recv.cpp, Send.cpp and Helpers.cpp).
use r_type_server.Prelude.{
  ℕ, zero, suc, ◌+◌, ◌≤◌, ◌≡◌, refl, sym, ◌∙◌, Bool, false, List, [], ◌∷◌, Option, none, some,
  arith, ap, length, length-append, ◌==◌, if◌then◌else◌,
}
use r_type_server.Prelude.Dict.{
  Dict, nat_eq, endpoint_eq, endpoint_beq_iff, contains, lookup, erase, contains-erase, Values,
  Values-erase, Unique,
}
use r_type_server.Wire.{Bytes}
use r_type_server.Gateway.State.{Gateway, PollFd, Socket, Address, max_buffer_size}
use r_type_server.Gateway.Net.{
  forget_gs, has_fd, erase_fd, disconnect_by_handle, accept_clients, clear_pollout, send_packets,
}
use r_type_server.Gateway.Frame.{Agree, Frame}
use r_type_server.Gateway.Outbox.{handles}

abbrev pub Fits : Bytes → Type 0
Fits buf = length buf ≤ max_buffer_size

pub record Inv (gw : Gateway) : Type 0 where
  pub agree : Agree gw
  pub counted : gw.nfds ≡ length gw.fds
  pub bounded : Values Fits gw.recv_spans

-- Whether the entry of a server is the handle's.
owned : ℕ → Address → Dict Address ℕ → Bool
unfolding lookup
owned h k m = elim (lookup k m) [ none ↦ false | some h' ↦ h' == h ]

module _ (h : ℕ) (k : Address) where
  contains-forget_gs :
      (m registry : Dict Address ℕ)
      → Unique m
      → (contains k (forget_gs h m registry).0
          ≡ (if owned h k m then false else contains k registry))
        × (contains k (forget_gs h m registry).1 ≡ (if owned h k m then false else contains k m))
  unfolding forget_gs owned contains
  contains-forget_gs [] registry u = (refl, refl)
  contains-forget_gs ((key, h') ∷ m) registry u = ground (
    arith,
    contains-forget_gs m registry u.1,
    contains-forget_gs m (erase key registry) u.1,
    contains-erase key k registry,
    endpoint_beq_iff key k,
  )

Unique-forget_gs :
    (h : ℕ) (m registry : Dict Address ℕ) → Unique m → Unique (forget_gs h m registry).1
unfolding forget_gs
Unique-forget_gs h [] registry u = tt
Unique-forget_gs h ((key, h') ∷ m) registry u = ground (
  arith,
  contains-forget_gs h key m registry u.1,
  contains-forget_gs h key m (erase key registry) u.1,
  Unique-forget_gs h m registry u.1,
  Unique-forget_gs h m (erase key registry) u.1,
)

length-erase_fd :
    (h : ℕ) (fds : List PollFd)
    → length fds ≡ (if has_fd h fds then length (erase_fd h fds) + 1 else length (erase_fd h fds))
unfolding erase_fd has_fd
length-erase_fd h [] = omega arith
length-erase_fd h (fd ∷ fds) = ground (arith, length-erase_fd h fds)

-- What the exception of `_recvPackets` leaves: only the handle's own buffer may be too long.
pub record InvBut (h : ℕ) (gw : Gateway) : Type 0 where
  pub agree : Agree gw
  pub counted : gw.nfds ≡ length gw.fds
  pub bounded : Values Fits (erase h gw.recv_spans)

pub Inv-InvBut : (h : ℕ) {gw : Gateway} → Inv gw → InvBut h gw
Inv-InvBut h {gw} v = record {
  agree = v.agree;
  counted = v.counted;
  bounded = Values-erase Fits h gw.recv_spans v.bounded;
}

pub disconnect_by_handle-Agree :
    (h : ℕ) (gw : Gateway) → Agree gw → Agree (disconnect_by_handle h gw)
unfolding disconnect_by_handle
disconnect_by_handle-Agree h gw a = (
  Unique-forget_gs h gw.gs_addr_to_handle gw.gs_registry a.0,
  λ k. ground (arith, contains-forget_gs h k gw.gs_addr_to_handle gw.gs_registry a.0, a.1 k),
)

pub disconnect_by_handle-Inv :
    (h : ℕ) {gw : Gateway} → InvBut h gw → Inv (disconnect_by_handle h gw)
disconnect_by_handle-Inv h {gw} v = record {
  agree = disconnect_by_handle-Agree h gw v.agree;
  counted = unfold disconnect_by_handle in ground (arith, v.counted, length-erase_fd h gw.fds);
  bounded = unfold disconnect_by_handle in v.bounded;
}

length-of_handles : (fds : List PollFd) → length (handles fds) ≡ length fds
unfolding handles
length-of_handles [] = refl
length-of_handles (fd ∷ fds) = ap suc (length-of_handles fds)

length-handles : (fds fds' : List PollFd) → handles fds' ≡ handles fds → length fds' ≡ length fds
length-handles fds fds' e = sym (length-of_handles fds') ∙ ap length e ∙ length-of_handles fds

pub Frame-Inv : {gw gw' : Gateway} → Inv gw → Frame gw gw' → Inv gw'
Frame-Inv {gw} {gw'} v f = record {
  agree = f.agree v.agree;
  counted = f.nfds ∙ v.counted ∙ sym (length-handles gw.fds gw'.fds f.fds);
  bounded = rw f.recv_spans v.bounded;
}

pub accept_clients-Inv :
    (accepted : Option Socket) (gw : Gateway) → Inv gw → Inv (accept_clients accepted gw)
unfolding accept_clients
accept_clients-Inv none gw v = v
accept_clients-Inv (some s) gw v = record {
  agree = v.agree;
  counted = omega (arith, v.counted, length-append {0} gw.fds);
  bounded = v.bounded;
}

handles-clear_pollout : (i : ℕ) (fds : List PollFd) → handles (clear_pollout i fds) ≡ handles fds
unfolding clear_pollout handles
handles-clear_pollout i [] = refl
handles-clear_pollout zero (fd ∷ fds) = refl
handles-clear_pollout (suc i) (fd ∷ fds) = ap (λ l. fd.handle ∷ l) (handles-clear_pollout i fds)

pub send_packets-Frame :
    (i : ℕ) (fd : PollFd) (results : List (Option ℕ)) (gw : Gateway)
    → Frame gw (send_packets i fd results gw).0
unfolding send_packets
send_packets-Frame i fd results gw = ground (arith, handles-clear_pollout i gw.fds)
