-- ===== src/GameServer/Heard.antt =====
-- The invariant of the sessions where datagrams are received.
use r_type_server.Prelude.{ℕ, ◌≡◌, refl, [], ◌∷◌, All-append}
use r_type_server.Prelude.Dict.{nat_eq, endpoint_eq}
use r_type_server.Wire.{Bytes}
use r_type_server.Gateway.State.{Address}
use r_type_server.Gateway.Net.{back}
use r_type_server.GameServer.State.{GameServer}
use r_type_server.GameServer.Udp.{header_size}
use r_type_server.GameServer.Sessions.{Handled, served, thrown, undefined}
use r_type_server.GameServer.Auth.{RightCookie}
use r_type_server.GameServer.Kept.{Ends}
use r_type_server.GameServer.Frames.{disconnect_by_handle-Frame}
use r_type_server.GameServer.Known.{Packets-insert, Packets-get, Known, Known-Frame, Known-then}
use r_type_server.GameServer.Datagrams.{parse_packets}
use r_type_server.GameServer.Loop.{
  Datagram, datagram, nothing_there, recv_error, or_loopback, recv_packets, disconnect_by_handle,
}
use r_type_server.GameServer.Server.{World, Turn, turn, fault, recv_and_parse, handle_clients}
use r_type_server.GameServer.Sources.{parse_packets-Known}
use r_type_server.GameServer.Turns.{OnTurn}

module _ (Came : Address → Bytes → Type 0) (Granted : Address → Type 0) where
  abbrev Sound : GameServer → Type 0
  Sound = Known Came Granted

  recv_packets-Known :
      (at h : ℕ) (dg : Datagram) (gs : GameServer)
      → ((from : Address) (d : Bytes) → dg ≡ datagram d from → Came (or_loopback at from) d)
      → Sound gs
      → Ends Sound (recv_packets at h dg gs)
  unfolding recv_packets
  recv_packets-Known at h (datagram d from) gs came k = record {
    packets =
        Packets-insert Came (or_loopback at from) _ gs.recv_packets
          (All-append (Came (or_loopback at from)) _ (d ∷ [])
            (Packets-get Came (or_loopback at from) gs.recv_packets k.packets)
            (came from d refl, tt))
          k.packets;
    sessions = k.sessions;
    untried = k.untried;
  }
  recv_packets-Known at h nothing_there gs came k = k
  recv_packets-Known at h recv_error gs came k = k

  module _ (world : World)
      (came : (from : Address) (d : Bytes)
        → world.datagram ≡ datagram d from
        → Came (or_loopback world.ipv4_offset from) d)
      (give : (endpoint : Address) (d : Bytes)
        → Came endpoint d
        → RightCookie world.crypto world.clock endpoint d header_size
        → Granted endpoint) where
    recv_and_parse-Known :
        (h : ℕ) (gs : GameServer) → Sound gs → Ends Sound (recv_and_parse h world gs)
    unfolding recv_and_parse
    recv_and_parse-Known h gs k =
        Known-then Came Granted (recv_packets world.ipv4_offset h world.datagram gs)
          (λ g. parse_packets world.crypto world.clock g) (λ g. thrown g)
          (recv_packets-Known world.ipv4_offset h world.datagram gs came k)
          (λ g kg. parse_packets-Known Came Granted world.crypto world.clock give g kg) (λ g kg. kg)

    pub handle_clients-Known :
        (i h : ℕ) (gs : GameServer) → Sound gs → OnTurn Sound (handle_clients i h world gs)
    unfolding handle_clients
    handle_clients-Known i h gs k = on (recv_and_parse h world gs) (recv_and_parse-Known h gs k)
      where
        on :
            (r : Handled)
            → Ends Sound r
            → OnTurn Sound (elim r as (λ _. Turn) [
              | served g ↦ turn g i
              | thrown g ↦ turn (disconnect_by_handle h g) (back i)
              | undefined ↦ fault
            ])
        on (served g) kg = kg
        on (thrown g) kg =
            Known-Frame Came Granted g (disconnect_by_handle h g) (disconnect_by_handle-Frame h g)
              kg
        on undefined kg = tt
