-- ===== src/Gateway/Refines.antt =====
-- The running gateway makes no other changes to its directory than those that its peers may make.
use mathlib.Core.Path.{subst}
use r_type_server.Prelude.{
  ℕ, ◌≡◌, ◌≢◌, refl, ◌∙◌, ◌⊎◌, inl, inr, arith, Bool, true, false, ◌&&◌, not, List, Option, none,
  some, ◌==◌, if◌then◌else◌,
}
use r_type_server.Prelude.Dict.{nat_eq, endpoint_eq, endpoint_beq_iff, lookup}
use r_type_server.Gateway.State.{Gateway, PollFd, Socket, Address, fresh}
use r_type_server.Gateway.Net.{
  accept_clients, send_packets, handle_clients, handle_loop, Turn, turn, Io,
}
use r_type_server.Gateway.Server.{started, start_server, Reach}
use r_type_server.Gateway.Reachable.{Reach-Inv}
use r_type_server.Gateway.Directory.{
  Directory, Run, view, Change, nothing, registered, told_load, told_games, ended_game, left,
}
use r_type_server.Gateway.TurnChanges.{send_packets-tables}
use r_type_server.Gateway.Good.{
  Good, OnTurn, Waits, alike, recv_and_parse-Good, disconnect_by_handle-Good, drop_on_throw-Good,
}

module _ (Acts : ℕ → Type 0) (s : Directory) where
  if-OnTurn :
      (b : Bool) (x y : Turn)
      → OnTurn Acts s x
      → OnTurn Acts s y
      → OnTurn Acts s (if b then x else y)
  if-OnTurn true x y tx ty = tx
  if-OnTurn false x y tx ty = ty

  accept_clients-Good :
      (accepted : Option Socket) (gw : Gateway)
      → Good Acts s gw
      → Good Acts s (accept_clients accepted gw)
  unfolding accept_clients
  accept_clients-Good none gw g = g
  accept_clients-Good (some socket) gw g = alike Acts s refl refl refl refl g

  send_packets-Good :
      (i : ℕ) (fd : PollFd) (results : List (Option ℕ)) (gw : Gateway)
      → Good Acts s gw
      → Good Acts s (send_packets i fd results gw).0
  send_packets-Good i fd results gw g =
      let tables = send_packets-tables i fd results gw in
      alike Acts s tables.0 tables.1 tables.2 tables.3 g

  handle_loop-Good :
      (i : ℕ) (fd : PollFd) (io : Io) (gw : Gateway)
      → Acts fd.handle
      → ((h : ℕ) → Waits h gw.recv_spans → Acts h)
      → Good Acts s gw
      → OnTurn Acts s (handle_loop i fd io gw)
  unfolding handle_loop handle_clients
  handle_loop-Good i fd io gw may waiting g =
      if-OnTurn fd.rev_error _ _ (disconnect_by_handle-Good Acts s fd.handle gw may g) (
        if-OnTurn fd.rev_in _ _
          (if-OnTurn (fd.handle == gw.sock) _ _ (accept_clients-Good io.accepted gw g) (
            drop_on_throw-Good Acts s i fd.handle _ may
              (recv_and_parse-Good Acts s fd.handle io.received gw may waiting g)))
          (if-OnTurn (fd.rev_out && not (fd.handle == gw.sock)) _ _
            (send_packets-Good i fd io.sends gw g) g))

-- Who may act in a turn: the peer that has an event, and those with bytes that wait for the parser.
abbrev pub May : PollFd → Gateway → ℕ → Type 0
May fd gw h = (fd.handle ≡ h) ⊎ Waits h gw.recv_spans

pub handle_loop-Run :
    (h : ℕ) (start gw gw' : Gateway) (i j : ℕ) (fd : PollFd) (io : Io)
    → start_server (some h) (record fresh { is_init = true }) ≡ started start
    → Reach start gw
    → handle_loop i fd io gw ≡ turn gw' j
    → Run (May fd gw) (view gw) (view gw')
handle_loop-Run h start gw gw' i j fd io e r t =
    (subst (OnTurn (May fd gw) (view gw)) t (
      handle_loop-Good (May fd gw) (view gw) i fd io gw (inl refl) (λ h'. inr)
        (record { agree = (Reach-Inv h start gw e r).0.agree; run = Run.start }))).run

-- A change by another connection leaves a server's connection and load alone.
Change-others :
    {h h' : ℕ} {s t : Directory} (k : Address)
    → Change h' s t
    → (h' ≡ h → ⊥)
    → s.connection k ≡ some h
    → (t.connection k ≡ some h) × (t.load k ≡ s.load k)
Change-others k (nothing c l g) other e = (c k ∙ e, l k)
Change-others k (registered k' free c l g) other e =
    (ground (arith, c k, e, free, endpoint_beq_iff k' k), l k)
Change-others k (told_load k' n own c l g) other e =
    (c k ∙ e, ground (arith, l k, e, own, endpoint_beq_iff k' k, other))
Change-others k (told_games k' games own c l g) other e = (c k ∙ e, l k)
Change-others k (ended_game k' id own hosts c l g) other e = (c k ∙ e, l k)
Change-others k (left c l g) other e = (ground (arith, c k, e, other), l k)

Run-others :
    {Acts : ℕ → Type 0} {s t : Directory} (h : ℕ) (k : Address)
    → Run Acts s t
    → ¬ Acts h
    → s.connection k ≡ some h
    → (t.connection k ≡ some h) × (t.load k ≡ s.load k)
Run-others h k Run.start other e = (e, refl)
Run-others {Acts} h k (Run.step r h' may c) other e =
    let ih = Run-others h k r other e in
    let now = Change-others k c (λ p. other (subst Acts p may)) ih.0 in (now.0, now.1 ∙ ih.1)

-- A turn for one peer leaves the others alone: in every state that the running gateway comes to, a server whose
-- connection has no event in the turn, and no bytes in its receive buffer, keeps its connection, and its load
-- stays as it is.
pub handle_loop-others :
    (h : ℕ) (start gw gw' : Gateway) (i j : ℕ) (fd : PollFd) (io : Io) (k : Address) (server : ℕ)
    → start_server (some h) (record fresh { is_init = true }) ≡ started start
    → Reach start gw
    → handle_loop i fd io gw ≡ turn gw' j
    → lookup k gw.gs_addr_to_handle ≡ some server
    → fd.handle ≢ server
    → ¬ Waits server gw.recv_spans
    → (lookup k gw'.gs_addr_to_handle ≡ some server)
      × (lookup k gw'.occupancy_cache ≡ lookup k gw.occupancy_cache)
handle_loop-others h start gw gw' i j fd io k server e r t c no_event no_bytes =
    Run-others server k (handle_loop-Run h start gw gw' i j fd io e r t)
      (λ a. elim a [ inl p ↦ no_event p | inr w ↦ no_bytes w ]) c
