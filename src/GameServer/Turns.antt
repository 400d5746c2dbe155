-- ===== src/GameServer/Turns.antt =====
-- The invariant of the sessions through a turn of the loop.
use r_type_server.Prelude.{
  ◌&&◌, not, ℕ, ◌≡◌, refl, Bool, true, false, Option, none, some, ◌==◌, if◌then◌else◌, get_elem?,
}
use r_type_server.Prelude.Dict.{nat_eq, endpoint_eq}
use r_type_server.Wire.{Bytes}
use r_type_server.Gateway.State.{Address, PollFd}
use r_type_server.Gateway.Net.{back}
use r_type_server.GameServer.State.{GameServer}
use r_type_server.GameServer.Frames.{Frame, disconnect_by_handle-Frame, send_packets-Frame}
use r_type_server.GameServer.Frames.Tcp.{
  send_tcp_packets-Frame, recv_tcp_packets-Frame, OnParsed, parse_tcp_packets-Frame,
}
use r_type_server.GameServer.Known.{Known, Known-Frame}
use r_type_server.GameServer.Loop.{send_packets, disconnect_by_handle}
use r_type_server.GameServer.Link.{recv_tcp_packets, send_tcp_packets, parse_tcp_packets}
use r_type_server.GameServer.Run.{hears}
use r_type_server.GameServer.Server.{
  World, Turn, turn, lost, fault, handle_clients, then_send, handle_gateway, handle_loop,
}

-- What is known after a turn.
abbrev pub OnTurn : (GameServer → Type 0) → Turn → Type 0
OnTurn P (turn gs i) = P gs
OnTurn P (lost gs) = P gs
OnTurn P fault = Unit {0}

module _ (Came : Address → Bytes → Type 0) (Granted : Address → Type 0) (world : World) where
  abbrev Sound : GameServer → Type 0
  Sound = Known Came Granted

  sent-Known : (i : ℕ) (fd : PollFd) (gs : GameServer) → Sound gs → Sound (send_packets i fd gs).0
  sent-Known i fd gs k =
      Known-Frame Came Granted gs (send_packets i fd gs).0 (send_packets-Frame i fd gs) k

  then_send-Known : (t : Turn) → OnTurn Sound t → OnTurn Sound (then_send t)
  unfolding then_send
  then_send-Known (turn gs i) k = at_fd (get_elem? gs.fds i)
    where
      if_out :
          (b : Bool) (fd : PollFd)
          → OnTurn Sound (if b then turn (send_packets i fd gs).0 i else turn gs i)
      if_out true fd = sent-Known i fd gs k
      if_out false fd = k

      at_fd :
          (r : Option PollFd)
          → OnTurn Sound (elim r as (λ _. Turn) [
            | none ↦ fault
            | some fd ↦ if fd.rev_out then turn (send_packets i fd gs).0 i else turn gs i
          ])
      at_fd none = tt
      at_fd (some fd) = if_out fd.rev_out fd
  then_send-Known (lost gs) k = k
  then_send-Known fault k = tt

  handle_gateway-Known :
      (i : ℕ) (fd : PollFd) (gs : GameServer)
      → Sound gs
      → OnTurn Sound (handle_gateway i fd world gs)
  unfolding handle_gateway
  handle_gateway-Known i fd gs k = if_in fd.rev_in (recv_tcp_packets world.received gs).1
    where
      received : GameServer
      received = (recv_tcp_packets world.received gs).0

      kr : Sound received
      kr = Known-Frame Came Granted gs received (recv_tcp_packets-Frame world.received gs) k

      if_out :
          (g : GameServer) (b : Bool)
          → Sound g
          → OnTurn Sound (if b then turn (send_tcp_packets world.sends g).0 i else turn g i)
      if_out g true kg =
          Known-Frame Came Granted g (send_tcp_packets world.sends g).0
            (send_tcp_packets-Frame world.sends g) kg
      if_out g false kg = kg

      parsed :
          (r : Option GameServer)
          → OnParsed (Frame received) r
          → OnTurn Sound (elim r as (λ _. Turn) [
            | none ↦ fault
            | some g ↦ if fd.rev_out then turn (send_tcp_packets world.sends g).0 i else turn g i
          ])
      parsed none e = tt
      parsed (some g) e = if_out g fd.rev_out (Known-Frame Came Granted received g e kr)

      if_in :
          (b threw : Bool)
          → OnTurn Sound (
              if b
              then (if threw
                  then lost received
                  else elim (parse_tcp_packets world.new_game received) as (λ _. Turn) [
                    | none ↦ fault
                    | some g ↦
                        if fd.rev_out then turn (send_tcp_packets world.sends g).0 i else turn g i
                  ])
              else if fd.rev_out
              then turn (send_tcp_packets world.sends gs).0 i
              else turn gs i)
      if_in true true = kr
      if_in true false =
          parsed (parse_tcp_packets world.new_game received)
            (parse_tcp_packets-Frame world.new_game received)
      if_in false threw = if_out gs fd.rev_out k

  -- The turn, from what is known after its datagrams if it receives any.
  pub turn-Known :
      (i : ℕ) (fd : PollFd) (gs : GameServer)
      → Sound gs
      → (hears fd gs ≡ true → OnTurn Sound (handle_clients i fd.handle world gs))
      → OnTurn Sound (handle_loop i fd world gs)
  unfolding handle_loop hears
  turn-Known i fd gs k read =
      at_fd fd.rev_error (fd.handle == gs.tcp_handle) (fd.handle == gs.sock) fd.rev_in read
    where
      at_fd :
          (error gateway socket input : Bool)
          → (not error && (socket && input) ≡ true
              → OnTurn Sound (handle_clients i fd.handle world gs))
          → OnTurn Sound (
              if error
              then if gateway then lost gs else turn (disconnect_by_handle fd.handle gs) (back i)
              else if socket
              then then_send (if input then handle_clients i fd.handle world gs else turn gs i)
              else if gateway
              then handle_gateway i fd world gs
              else turn gs i)
      at_fd true true socket input read = k
      at_fd true false socket input read =
          Known-Frame Came Granted gs (disconnect_by_handle fd.handle gs)
            (disconnect_by_handle-Frame fd.handle gs) k
      at_fd false gateway true true read =
          then_send-Known (handle_clients i fd.handle world gs) (read refl)
      at_fd false gateway true false read = then_send-Known (turn gs i) k
      at_fd false true false input read = handle_gateway-Known i fd gs k
      at_fd false false false input read = k
