-- ===== src/GameServer/Faults.antt =====
-- What an error on the UDP socket does to the game server.
use r_type_server.Prelude.{
  ℕ, zero, suc, ◌^◌, ◌≤◌, ◌<◌, ◌≡◌, refl, ap, ◌∙◌, true, false, List, [], ◌∷◌, none, arith, length,
  get_elem?, ◌==◌,
}
use r_type_server.Gateway.State.{PollFd}
use r_type_server.Gateway.Net.{erase_fd, back}
use r_type_server.GameServer.State.{GameServer}
use r_type_server.GameServer.Loop.{recv_error, recv_packets, disconnect_by_handle}
use r_type_server.GameServer.Server.{
  World, handle_loop, handle_clients, recv_and_parse, then_send, fault, turn,
}

no_elem : (n : ℕ) (fds : List PollFd) → length fds ≤ n → get_elem? fds n ≡ none
no_elem n [] le = refl
no_elem zero (fd ∷ fds) le = absurd (omega arith)
no_elem (suc n) (fd ∷ fds) le = no_elem n fds (omega arith)

length-erase_fd : (h : ℕ) (fds : List PollFd) → length (erase_fd h fds) ≤ length fds
unfolding erase_fd
length-erase_fd h [] = omega arith
length-erase_fd h (fd ∷ fds) = ground (arith, length-erase_fd h fds)

recv_error-thrown :
    (h : ℕ) (world : World) (gs : GameServer)
    → world.datagram ≡ recv_error
    → handle_clients 0 h world gs ≡ turn (disconnect_by_handle h gs) (back 0)
unfolding handle_clients recv_and_parse recv_packets
recv_error-thrown h world gs w = rw (w) refl

nothing_before :
    (h : ℕ) (gs : GameServer)
    → length gs.fds < 2 ^ 64
    → get_elem? (disconnect_by_handle h gs).fds (back 0) ≡ none
unfolding disconnect_by_handle
nothing_before h gs n =
    no_elem (back 0) (erase_fd h gs.fds) (omega (arith, length-erase_fd h gs.fds))

then_send-none :
    (gs : GameServer) (i : ℕ) → get_elem? gs.fds i ≡ none → then_send (turn gs i) ≡ fault
unfolding then_send
then_send-none gs i e = ground (arith, e)

same : (n : ℕ) → (n == n) ≡ true
same n = ground arith

-- An error of `recvfrom` on the UDP socket, the first of the descriptors, makes the loop read the
-- descriptors at the index before the first.
pub handle_loop-fault :
    (fd : PollFd) (world : World) (gs : GameServer)
    → fd.rev_error ≡ false
    → fd.handle ≡ gs.sock
    → fd.rev_in ≡ true
    → world.datagram ≡ recv_error
    → length gs.fds < 2 ^ 64
    → handle_loop 0 fd world gs ≡ fault
unfolding handle_loop
handle_loop-fault fd world gs e s r w n =
    rw (e, s, same gs.sock, r)
      (ap then_send (recv_error-thrown gs.sock world gs w)
        ∙ then_send-none (disconnect_by_handle gs.sock gs) (back 0) (nothing_before gs.sock gs n))
