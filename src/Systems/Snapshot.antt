-- ===== src/Systems/Snapshot.antt =====
-- What a client finds in the snapshot of a game.
use mathlib.Core.List.{append_assoc}
use r_type_server.Prelude.{
  ℕ, zero, suc, ◌+◌, ◌*◌, ◌%◌, ◌^◌, ◌≤◌, ◌<◌, ◌≡◌, refl, ap, ◌∙◌, List, [], ◌∷◌, ◌++◌, some, arith,
  ◌==◌, length, All, if◌then◌else◌, length-append, Bool-cases, inl, inr,
}
use r_type_server.Wire.{Bytes, Reader, Read, ok, err, oob, ◌>>=◌, pure, get_next_val, be_bytes}
use r_type_server.Wire.Local.{shift, IsLocal, local_rules, >>=-IsLocal, pure-IsLocal}
use r_type_server.Wire.RoundTrip.{length-be_bytes, get_next_val-be_bytes}
use r_type_server.Systems.{
  Floats, Entity, count_players, entity_bytes, write_entities, create_snapshot_system,
}

-- A reader of snapshots, by the layout: the number of the entities, and of each its id and the bits of
-- its position.
pub read_entity : Reader (ℕ × ℕ × ℕ)
read_entity = do id ← get_next_val 4; x ← get_next_val 4; y ← get_next_val 4; pure (id, x, y)

pub read_entities : ℕ → Reader (List (ℕ × ℕ × ℕ))
read_entities zero = pure []
read_entities (suc n) = do e ← read_entity; es ← read_entities n; pure (e ∷ es)

unfoldable pub read_snapshot : Reader (List (ℕ × ℕ × ℕ))
unfolding read_entities read_entity
read_snapshot = do n ← get_next_val 4; read_entities n

read_entity-IsLocal : IsLocal read_entity
unfolding read_entity
read_entity-IsLocal = search local_rules

read_entities-IsLocal : (n : ℕ) → IsLocal (read_entities n)
unfolding read_entities
read_entities-IsLocal zero = pure-IsLocal []
read_entities-IsLocal (suc n) = >>=-IsLocal read_entity _ read_entity-IsLocal λ e.
    >>=-IsLocal (read_entities n) (λ es. pure (e ∷ es)) (read_entities-IsLocal n)
      λ es. pure-IsLocal (e ∷ es)

read-then :
    {B : Type 0} (f : ℕ → Reader B) (v : ℕ) (rest : Bytes)
    → v < 2 ^ 32
    → IsLocal (f v)
    → (get_next_val 4 >>= f) (be_bytes 4 v ++ rest) 0 ≡ shift 4 (f v rest 0)
read-then f v rest lt k =
    rw (get_next_val-be_bytes [] 4 v rest lt, ◌>>=◌) (unfold be_bytes in k.at (be_bytes 4 v) rest 0)

module _ {F : Type 0} (fl : Floats F) where
  -- What is to be seen of the entities that have a player.
  unfoldable pub seen : List (Entity F) → List (ℕ × ℕ × ℕ)
  seen [] = []
  seen (e ∷ es) =
      if e.client_id == 0
      then seen es
      else (e.id, fl.bits e.position.0, fl.bits e.position.1) ∷ seen es

  count_players-seen :
      (es : List (Entity F)) (n : ℕ)
      → n + length es < 2 ^ 32
      → count_players fl es n ≡ n + length (seen es)
  unfolding count_players seen
  count_players-seen [] n lt = omega arith
  count_players-seen (e ∷ es) n lt =
      ground (arith, count_players-seen es n, count_players-seen es (n + 1))

  length-write_entities :
      (es : List (Entity F)) → length (write_entities fl es) ≡ 12 * length (seen es)
  unfolding write_entities seen entity_bytes be_bytes
  length-write_entities [] = refl
  length-write_entities (e ∷ es) = ground (arith, length-write_entities es)

  -- Numbers that the four bytes of a field hold.
  unfoldable pub IsWord : Entity F → Type 0
  IsWord e = (e.id < 2 ^ 32) × (fl.bits e.position.0 < 2 ^ 32) × (fl.bits e.position.1 < 2 ^ 32)

  read_entity-bytes :
      (e : Entity F) (rest : Bytes)
      → IsWord e
      → read_entity (entity_bytes fl e ++ rest) 0
        ≡ ok (e.id, fl.bits e.position.0, fl.bits e.position.1) 12
  unfolding read_entity entity_bytes IsWord
  read_entity-bytes e rest w =
      rw (append_assoc (be_bytes 4 e.id) (be_bytes 4 x ++ be_bytes 4 y) rest) (
        rw (append_assoc (be_bytes 4 x) (be_bytes 4 y) rest) (
          read-then (λ id. get_next_val 4 >>= λ x. get_next_val 4 >>= λ y. pure (id, x, y)) e.id
            (be_bytes 4 x ++ (be_bytes 4 y ++ rest)) w.0 (search local_rules)
          ∙ ap (shift 4) (
              read-then (λ x. get_next_val 4 >>= λ y. pure (e.id, x, y)) x (be_bytes 4 y ++ rest)
                w.1 (search local_rules)
              ∙ ap (shift 4)
                  (read-then (λ y. pure (e.id, x, y)) y rest w.2 (pure-IsLocal (e.id, x, y))))))
    where
      x : ℕ
      x = fl.bits e.position.0

      y : ℕ
      y = fl.bits e.position.1

  read_entities-at :
      (n : ℕ) (e : Entity F) (d : Bytes)
      → read_entities n (entity_bytes fl e ++ d) 12 ≡ shift 12 (read_entities n d 0)
  unfolding entity_bytes be_bytes
  read_entities-at n e d = (read_entities-IsLocal n).at (entity_bytes fl e) d 0

  length-entity_bytes : (e : Entity F) (d : Bytes) → 12 + length d ≡ length (entity_bytes fl e ++ d)
  unfolding entity_bytes be_bytes
  length-entity_bytes e d = omega arith

  read_entities-first :
      (n : ℕ) (e : Entity F) (d : Bytes)
      → IsWord e
      → read_entities (suc n) (entity_bytes fl e ++ d) 0
        ≡ elim (shift 12 (read_entities n d 0)) as (λ _. Read (List (ℕ × ℕ × ℕ))) [
          | ok es o ↦ ok ((e.id, fl.bits e.position.0, fl.bits e.position.1) ∷ es) o
          | err x o ↦ err x o
          | oob ↦ oob
        ]
  unfolding read_entities
  read_entities-first n e d w =
      rw (read_entity-bytes e d w, ◌>>=◌)
        (ap
          (λ r. elim r as (λ _. Read (List (ℕ × ℕ × ℕ))) [
            | ok es o ↦ ok ((e.id, fl.bits e.position.0, fl.bits e.position.1) ∷ es) o
            | err x o ↦ err x o
            | oob ↦ oob
          ])
          (read_entities-at n e d))

  read_entities-write_entities :
      (es : List (Entity F)) (rest : Bytes)
      → All IsWord es
      → read_entities (length (seen es)) (write_entities fl es ++ rest) 0
        ≡ ok (seen es) (length (write_entities fl es))
  unfolding read_entities seen write_entities
  read_entities-write_entities [] rest w = refl
  read_entities-write_entities (e ∷ es) rest w = elim (Bool-cases (e.client_id == 0)) [
    | inl free ↦ rw free (read_entities-write_entities es rest w.1)
    | inr taken ↦ rw taken (
        rw (append_assoc (entity_bytes fl e) (write_entities fl es) rest) (
          read_entities-first (length (seen es)) e (write_entities fl es ++ rest) w.0
          ∙ rw (read_entities-write_entities es rest w.1) (
              ap (ok ((e.id, fl.bits e.position.0, fl.bits e.position.1) ∷ seen es))
                (length-entity_bytes e (write_entities fl es)))))
  ]

  pub length-seen : (es : List (Entity F)) → length (seen es) ≤ length es
  unfolding seen
  length-seen [] = omega arith
  length-seen (e ∷ es) = ground (arith, length-seen es)

  -- The payload of a snapshot with players.
  snapshot : List (Entity F) → Bytes
  snapshot es = be_bytes 4 (length (seen es)) ++ write_entities fl es

  length-snapshot : (es : List (Entity F)) → length (snapshot es) ≡ 4 + 12 * length (seen es)
  unfolding snapshot
  length-snapshot es = omega (
    arith,
    length-append (be_bytes 4 (length (seen es))) (write_entities fl es),
    length-be_bytes 4 (length (seen es)),
    length-write_entities es,
  )

  read_snapshot-snapshot :
      (es : List (Entity F)) (rest : Bytes)
      → length es < 2 ^ 32
      → All IsWord es
      → read_snapshot (snapshot es ++ rest) 0 ≡ ok (seen es) (length (snapshot es))
  unfolding read_snapshot snapshot
  read_snapshot-snapshot es rest few w =
      rw (append_assoc (be_bytes 4 (length (seen es))) (write_entities fl es) rest) (
        read-then read_entities (length (seen es)) (write_entities fl es ++ rest)
          (omega (arith, length-seen es)) (read_entities-IsLocal (length (seen es)))
        ∙ ap (shift 4) (read_entities-write_entities es rest w)
        ∙ ap (ok (seen es)) (unfold be_bytes in omega arith))

  -- A snapshot of a game with a player and fewer than 2 ^ 32 entities, whose ids and positions fit in 32
  -- bits, has 12 bytes for each entity of a player after the first four. It reads back, also before more
  -- bytes, as those entities in their order, each with its id and the bits of its position, and the sequence
  -- number is counted up; nothing is written past the end of the vector.
  pub create_snapshot_system-read_snapshot :
      (sequence : ℕ) (es : List (Entity F)) (rest : Bytes)
      → length es < 2 ^ 32
      → All IsWord es
      → 0 < length (seen es)
      → (p : Bytes) × (create_snapshot_system fl sequence es ≡ some ((sequence + 1) % 2 ^ 32, p))
        × (read_snapshot (p ++ rest) 0 ≡ ok (seen es) (length p))
        × (length p ≡ 4 + 12 * length (seen es))
  unfolding create_snapshot_system snapshot
  create_snapshot_system-read_snapshot sequence es rest few w some_player = (
    snapshot es,
    ground (arith, count_players-seen es 0, length-snapshot es),
    read_snapshot-snapshot es rest few w,
    length-snapshot es,
  )
