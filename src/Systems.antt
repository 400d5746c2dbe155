-- ===== src/Systems.antt =====
-- The systems of a game: server/include/RTypeSrv/Systems.hpp, over the components of Components.hpp.
-- The engine's own types are outside the tree: `Query` is the list of the entities, in the order of
-- the engine, `float` a type with the operations that the systems use, and an entity's id is written in the
-- four bytes that the size of a snapshot has for it.
pub mod Snapshot
pub mod Delivery
pub mod Slots
pub mod Inputs
mod Examples
use r_type_server.Prelude.{
  ℕ, zero, suc, ◌+◌, ◌*◌, ◌%◌, ◌^◌, List, [], ◌∷◌, ◌++◌, map, Option, none, some, ◌==◌, length, leb,
  if◌then◌else◌,
}
use r_type_server.Wire.{Bytes, be_bytes}
use r_type_server.GameServer.State.{PlayerAction, move_up, move_down, move_left, move_right, stop}

-- `float`: the constants are those of small numbers, and `bits` is the `memcpy` to `uint32_t`.
pub record Floats (F : Type 0) : Type 0 where
  pub of_nat : ℕ → F
  pub neg : F → F
  pub add : F → F → F
  pub mul : F → F → F
  pub bits : F → ℕ

-- An entity with the components Player, Position and Velocity, which `spawn` gives to each.
pub record Entity (F : Type 0) : Type 0 where
  pub id : ℕ
  pub client_id : ℕ
  pub position : F × F
  pub velocity : F × F

pub record InputEvent : Type 0 where
  pub client_id : ℕ
  pub action : PlayerAction

abbrev pub max_players : ℕ
max_players = 10

module _ {F : Type 0} (fl : Floats F) where
  -- The entities that are spawned from number i on; `ids` are those that the engine gives.
  unfoldable pub spawn_players : ℕ → (ℕ → ℕ) → ℕ → List (Entity F)
  spawn_players zero ids i = []
  spawn_players (suc n) ids i =
      record {
        id = ids i;
        client_id = 0;
        position = (fl.of_nat 100, fl.add (fl.of_nat 100) (fl.mul (fl.of_nat i) (fl.of_nat 50)));
        velocity = (fl.of_nat 0, fl.of_nat 0);
      }
      ∷ spawn_players n ids (i + 1)

  unfoldable pub spawn_player_system : (ℕ → ℕ) → List (Entity F)
  unfolding spawn_players
  spawn_player_system ids = spawn_players max_players ids 0

  -- The `switch`.
  unfoldable pub steer : PlayerAction → F × F → F × F
  steer move_up (x, y) = (x, fl.neg (fl.of_nat 200))
  steer move_down (x, y) = (x, fl.of_nat 200)
  steer move_left (x, y) = (fl.neg (fl.of_nat 200), y)
  steer move_right (x, y) = (fl.of_nat 200, y)
  steer stop (x, y) = (fl.of_nat 0, fl.of_nat 0)

  unfoldable pub apply_input : InputEvent → List (Entity F) → List (Entity F)
  unfolding steer
  apply_input event [] = []
  apply_input event (e ∷ es) =
      (if e.client_id == event.client_id
        then record e { velocity = steer event.action e.velocity }
        else e)
      ∷ apply_input event es

  unfoldable pub handle_player_input_system : List InputEvent → List (Entity F) → List (Entity F)
  unfolding apply_input
  handle_player_input_system [] es = es
  handle_player_input_system (event ∷ events) es =
      handle_player_input_system events (apply_input event es)

  unfoldable pub move : F → Entity F → Entity F
  move delta e = record e {
    position = (
      fl.add e.position.0 (fl.mul e.velocity.0 delta),
      fl.add e.position.1 (fl.mul e.velocity.1 delta),
    );
  }

  unfoldable pub movement_system : F → List (Entity F) → List (Entity F)
  unfolding move
  movement_system delta es = map (move delta) es

  unfoldable pub count_players : List (Entity F) → ℕ → ℕ
  count_players [] n = n
  count_players (e ∷ es) n = count_players es (if e.client_id == 0 then n else (n + 1) % 2 ^ 32)

  -- The three `write_big_endian` of an entity.
  unfoldable pub entity_bytes : Entity F → Bytes
  entity_bytes e =
      be_bytes 4 e.id ++ (be_bytes 4 (fl.bits e.position.0) ++ be_bytes 4 (fl.bits e.position.1))

  unfoldable pub write_entities : List (Entity F) → Bytes
  unfolding entity_bytes
  write_entities [] = []
  write_entities (e ∷ es) =
      let rest = write_entities es in if e.client_id == 0 then rest else entity_bytes e ++ rest

  -- The sequence number and the resource. None is a write past the end of the vector.
  unfoldable pub create_snapshot_system : ℕ → List (Entity F) → Option (ℕ × Bytes)
  unfolding count_players write_entities
  create_snapshot_system sequence es =
      let sequence' = (sequence + 1) % 2 ^ 32 in
      let count = count_players es 0 in
      let payload_size = 4 + count * (4 + 4 * 2) in
      let payload = be_bytes 4 count ++ write_entities es in
      if count == 0
      then some (sequence', [])
      else if leb (length payload) payload_size
      then some (sequence', payload)
      else none

module _ {F : Type 0} where
  -- The loop over the entities, up to its `break`.
  unfoldable pub assign_slot : ℕ → List (Entity F) → List (Entity F)
  assign_slot client [] = []
  assign_slot client (e ∷ es) =
      let rest = assign_slot client es in
      if e.client_id == 0 then record e { client_id = client } ∷ es else e ∷ rest

  unfoldable pub assign_player_slot_system : List ℕ → List (Entity F) → List (Entity F)
  unfolding assign_slot
  assign_player_slot_system [] es = es
  assign_player_slot_system (client ∷ events) es =
      assign_player_slot_system events (assign_slot client es)
