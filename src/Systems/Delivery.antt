-- ===== src/Systems/Delivery.antt =====
-- The snapshot of a game, from its entities to the packet that a client gets.
use mathlib.Core.List.{append-nil}
use r_type_server.Prelude.{
  ℕ, ◌+◌, ◌%◌, ◌^◌, ◌≤◌, ◌<◌, ◌≡◌, List, [], some, arith, length, drop, All,
}
use r_type_server.Wire.{Bytes, ok}
use r_type_server.GameServer.Udp.{Numbers, build_snapshot, max_packet_size}
use r_type_server.GameServer.Snapshots.{build_snapshot-whole}
use r_type_server.Systems.{Floats, Entity, create_snapshot_system}
use r_type_server.Systems.Snapshot.{
  seen, IsWord, length-seen, read_snapshot, create_snapshot_system-read_snapshot,
}

module _ {F : Type 0} (fl : Floats F) where
  -- What a client gets of a game with at most 97 entities, whose ids and positions fit in 32 bits, and at
  -- least one player: one packet within the limit of the protocol, whose payload after 25 bytes reads back
  -- as the entities of the players.
  pub create_snapshot_system-build_snapshot :
      (sequence : ℕ) (es : List (Entity F)) (client_id snapshot_seq : ℕ) (n : Numbers)
      → length es ≤ 97
      → All (IsWord fl) es
      → 0 < length (seen fl es)
      → (p packet : Bytes) × (create_snapshot_system fl sequence es
          ≡ some ((sequence + 1) % 2 ^ 32, p))
        × (build_snapshot client_id snapshot_seq p n ≡ some packet)
        × (length packet ≤ max_packet_size)
        × (read_snapshot (drop 25 packet) 0 ≡ ok (seen fl es) (length p))
  create_snapshot_system-build_snapshot sequence es client_id snapshot_seq n few w some_player =
      let made =
        create_snapshot_system-read_snapshot fl sequence es [] (omega arith) w some_player in
      let sent =
        build_snapshot-whole client_id snapshot_seq made.0 n
          (omega (arith, made.3, length-seen fl es)) in
      (made.0, sent.0, made.1, sent.1, sent.2, rw (sent.3) (rw (append-nil made.0) at made.2))
