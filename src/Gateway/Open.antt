-- ===== src/Gateway/Open.antt =====
-- That the connections of the servers, and the receive buffers, belong to open descriptors
-- (server/src/Gateway/Recv.cpp, Send.cpp and Helpers.cpp).
use r_type_server.Prelude.{
  ℕ, zero, suc, ◌≡◌, ◌⊎◌, inl, inr, refl, sym, ap, ◌∙◌, true, List, [], ◌∷◌, ◌++◌, some, arith,
  length, get_elem?,
}
use r_type_server.Prelude.Dict.{nat_eq, endpoint_eq, contains, contains-erase, lookup}
use r_type_server.Gateway.State.{Gateway, PollFd, Address}
use r_type_server.Gateway.Net.{has_fd, erase_fd, disconnect_by_handle}
use r_type_server.Gateway.Outbox.{handles}
use r_type_server.Gateway.Frame.{Agree, Frame}
use r_type_server.Gateway.Consistent.{disconnect_by_handle-Agree}
use r_type_server.Gateway.Directory.{
  Directory, Change, nothing, registered, told_load, told_games, ended_game, left,
}
use r_type_server.Gateway.Changes.{Changed}
use r_type_server.Gateway.TurnChanges.{lookup-forget_gs}

-- The connection of every registered server has an open descriptor, and every receive buffer too.
pub record Open (gw : Gateway) : Type 0 where
  pub agree : Agree gw
  pub connected :
      (k : Address) (h : ℕ) → lookup k gw.gs_addr_to_handle ≡ some h → has_fd h gw.fds ≡ true
  pub received : (h : ℕ) → contains h gw.recv_spans ≡ true → has_fd h gw.fds ≡ true

pub has_fd-handles :
    (h : ℕ) (fds fds' : List PollFd) → handles fds' ≡ handles fds → has_fd h fds' ≡ has_fd h fds
unfolding has_fd handles
has_fd-handles h [] [] e = refl
has_fd-handles h [] (fd' ∷ fds') e = absurd (ground (arith, ap length e))
has_fd-handles h (fd ∷ fds) [] e = absurd (ground (arith, ap length e))
has_fd-handles h (fd ∷ fds) (fd' ∷ fds') e = ground (arith, e, has_fd-handles h fds fds')

has_fd-erase_fd :
    (h h' : ℕ) (fds : List PollFd)
    → (h ≡ h' → ⊥)
    → has_fd h' fds ≡ true
    → has_fd h' (erase_fd h fds) ≡ true
unfolding has_fd erase_fd
has_fd-erase_fd h h' [] other e = e
has_fd-erase_fd h h' (fd ∷ fds) other e = ground (arith, other, e, has_fd-erase_fd h h' fds other)

pub has_fd-append :
    (h : ℕ) (fds fds' : List PollFd) → has_fd h fds ≡ true → has_fd h (fds ++ fds') ≡ true
unfolding has_fd
has_fd-append h [] fds' e = ground (arith, e)
has_fd-append h (fd ∷ fds) fds' e = ground (arith, e, has_fd-append h fds fds')

pub has_fd-at :
    (i : ℕ) (fd : PollFd) (fds : List PollFd)
    → get_elem? fds i ≡ some fd
    → has_fd fd.handle fds ≡ true
unfolding has_fd
has_fd-at i fd [] e = absurd (ground (arith, e))
has_fd-at zero fd (fd' ∷ fds) e = ground (arith, e)
has_fd-at (suc i) fd (fd' ∷ fds) e = ground (arith, has_fd-at i fd fds e)

-- A change that the peer at h makes brings no other connection.
Change-connection :
    {h : ℕ} {s t : Directory} (k : Address) (h' : ℕ)
    → Change h s t
    → t.connection k ≡ some h'
    → (s.connection k ≡ some h') ⊎ (h ≡ h')
Change-connection k h' (nothing c l g) e = inl (sym (c k) ∙ e)
Change-connection k h' (registered k' free c l g) e = ground (arith, c k, e)
Change-connection k h' (told_load k' n own c l g) e = inl (sym (c k) ∙ e)
Change-connection k h' (told_games k' games own c l g) e = inl (sym (c k) ∙ e)
Change-connection k h' (ended_game k' id own hosts c l g) e = inl (sym (c k) ∙ e)
Change-connection k h' (left c l g) e = ground (arith, c k, e)

-- A packet of the peer at an open descriptor opens and closes none.
pub Frame-Open :
    {h : ℕ} {gw gw' : Gateway}
    → has_fd h gw.fds ≡ true
    → Open gw
    → Frame gw gw'
    → Changed h gw gw'
    → Open gw' × ((h' : ℕ) → has_fd h' gw.fds ≡ true → has_fd h' gw'.fds ≡ true)
Frame-Open {h} {gw} {gw'} is_open v f c = (
  record {
    agree = f.agree v.agree;
    connected = λ k h' e. still h' (elim (Change-connection k h' c e) [
      | inl was ↦ v.connected k h' was
      | inr same ↦ rw same at is_open
    ]);
    received = λ h' e. still h' (v.received h' (rw f.recv_spans at e));
  },
  still,
)
  where
    still : (h' : ℕ) → has_fd h' gw.fds ≡ true → has_fd h' gw'.fds ≡ true
    still h' e = has_fd-handles h' gw.fds gw'.fds f.fds ∙ e

pub disconnect_by_handle-Open : (h : ℕ) (gw : Gateway) → Open gw → Open (disconnect_by_handle h gw)
unfolding disconnect_by_handle
disconnect_by_handle-Open h gw v = record {
  agree = disconnect_by_handle-Agree h gw v.agree;
  connected = λ k h' e.
      has_fd-erase_fd h h' gw.fds
        (λ p.
          ground (arith, lookup-forget_gs h k gw.gs_addr_to_handle gw.gs_registry v.agree.0, e, p))
        (v.connected k h'
          (ground (arith, lookup-forget_gs h k gw.gs_addr_to_handle gw.gs_registry v.agree.0, e)));
  received = λ h' e.
      has_fd-erase_fd h h' gw.fds (λ p. ground (arith, contains-erase h h' gw.recv_spans, e, p))
        (v.received h' (ground (arith, contains-erase h h' gw.recv_spans, e)));
}
