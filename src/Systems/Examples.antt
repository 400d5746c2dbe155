-- ===== src/Systems/Examples.antt =====
-- A game of two players, with the natural numbers in the place of floating-point numbers.
use r_type_server.Prelude.{
  ℕ, ◌+◌, ◌*◌, ◌%◌, ◌^◌, ◌≤◌, ◌≡◌, List, [], ◌∷◌, ◌++◌, drop, length, map, some, arith, All,
}
use r_type_server.Wire.{Bytes, ok}
use r_type_server.GameServer.State.{move_up}
use r_type_server.GameServer.Udp.{Numbers, build_snapshot, max_packet_size}
use r_type_server.Systems.{
  Floats, Entity, InputEvent, handle_player_input_system, create_snapshot_system,
  assign_player_slot_system,
}
use r_type_server.Systems.Snapshot.{
  IsWord, seen, read_snapshot, create_snapshot_system-read_snapshot,
}
use r_type_server.Systems.Delivery.{create_snapshot_system-build_snapshot}
use r_type_server.Systems.Slots.{fill, slots_of, body_of, assign_player_slot_system-fill}
use r_type_server.Systems.Inputs.{steered, handle_player_input_system-steered}

abbrev naturals : Floats ℕ
naturals = record {
  of_nat = λ n. n;
  neg = λ n. n;
  add = λ m n. m + n;
  mul = λ m n. m * n;
  bits = λ n. n % 2 ^ 32;
}

abbrev ship : ℕ → ℕ → Entity ℕ
ship id client = record { id = id; client_id = client; position = (100, 150); velocity = (0, 0) }

abbrev fleet : List (Entity ℕ)
fleet = ship 1 7 ∷ ship 2 0 ∷ ship 3 8 ∷ []

abbrev input : ℕ → InputEvent
input client = record { client_id = client; action = move_up }

abbrev ordinal : Numbers
ordinal = record { seq = 1; ack_base = 2; ack_bits = 3 }

fleet-IsWord : All (IsWord naturals) fleet
unfolding IsWord
fleet-IsWord = (
  (omega arith, omega arith, omega arith),
  ((omega arith, omega arith, omega arith), ((omega arith, omega arith, omega arith), tt)),
)

create_snapshot_system-read_snapshot_example :
    (p : Bytes) × (create_snapshot_system naturals 6 fleet ≡ some (7, p))
    × (read_snapshot (p ++ (9 ∷ [])) 0 ≡ ok (seen naturals fleet) (length p))
    × (length p ≡ 4 + 12 * length (seen naturals fleet))
create_snapshot_system-read_snapshot_example =
    create_snapshot_system-read_snapshot naturals 6 fleet (9 ∷ []) (omega arith) fleet-IsWord
      (unfold seen in omega arith)

create_snapshot_system-build_snapshot_example :
    (p packet : Bytes) × (create_snapshot_system naturals 6 fleet ≡ some (7, p))
    × (build_snapshot 7 3 p ordinal ≡ some packet)
    × (length packet ≤ max_packet_size)
    × (read_snapshot (drop 25 packet) 0 ≡ ok (seen naturals fleet) (length p))
create_snapshot_system-build_snapshot_example =
    create_snapshot_system-build_snapshot naturals 6 fleet 7 3 ordinal (omega arith) fleet-IsWord
      (unfold seen in omega arith)

assign_player_slot_system-fill_example :
    (slots_of (assign_player_slot_system (9 ∷ 10 ∷ []) fleet) ≡ fill (9 ∷ 10 ∷ []) (slots_of fleet))
    × (map body_of (assign_player_slot_system (9 ∷ 10 ∷ []) fleet) ≡ map body_of fleet)
assign_player_slot_system-fill_example =
    assign_player_slot_system-fill (9 ∷ 10 ∷ []) fleet (ground arith, (ground arith, tt))

handle_player_input_system-steered_example :
    handle_player_input_system naturals (input 8 ∷ input 7 ∷ []) fleet
    ≡ map (steered naturals (input 8 ∷ input 7 ∷ [])) fleet
handle_player_input_system-steered_example =
    handle_player_input_system-steered naturals (input 8 ∷ input 7 ∷ []) fleet
