-- ===== src/GameServer/Snapshots.antt =====
-- Snapshots: the state of a game in one packet, or cut in fragments.
use mathlib.Core.List.{append_assoc}
use r_type_server.Prelude.{
  ℕ, zero, suc, ◌+◌, ◌-◌, ◌≤◌, ◌<◌, ◌≡◌, refl, ap, sym, List, [], ◌∷◌, ◌++◌, Option, none, some,
  true, false, arith, ltb, length, take, drop, min, All, length-append, length-take, length-drop,
  drop_all, take-drop_add, drop-append_of_length, Bool-cases, inl, inr,
}
use r_type_server.Wire.{Bytes, be_bytes}
use r_type_server.GameServer.Udp.{
  build_header, Numbers, header_for, header_size, build_fragment, fragments_from, build_snapshot,
  fragment_size, max_packet_size, max_payload_size, fragment, reliable_flag, fragment_flag,
  ro_channel, first_of,
}

-- The packet of one fragment: 33 bytes, and its part of the state.
abbrev pub fragment_head : ℕ → ℕ → ℕ → ℕ → ℕ → Numbers → Bytes
fragment_head client_id base_seq total_size offset len n =
    header_for fragment (reliable_flag + fragment_flag) ro_channel n (header_size + 12 + len)
      client_id
    ++ (be_bytes 4 base_seq ++ (be_bytes 4 total_size ++ be_bytes 4 offset))

length-fragment_head :
    (client_id base_seq total_size offset len : ℕ) (n : Numbers)
    → length (fragment_head client_id base_seq total_size offset len n) ≡ 33
unfolding build_header be_bytes
length-fragment_head client_id base_seq total_size offset len n = refl

build_fragment-head :
    (client_id base_seq total_size offset : ℕ) (part : Bytes) (n : Numbers)
    → length part ≤ fragment_size
    → build_fragment client_id base_seq total_size offset part n
      ≡ some (fragment_head client_id base_seq total_size offset (length part) n ++ part)
unfolding build_fragment
build_fragment-head client_id base_seq total_size offset part n le =
    rw (within) (simp append_assoc refl)
  where
    within : ltb 1167 (length part) ≡ false
    within = ground arith

-- What the receiver of fragments puts together, each without its first 33 bytes.
unfoldable pub payloads : List Bytes → Bytes
payloads [] = []
payloads (p ∷ ps) = drop 33 p ++ payloads ps

abbrev pub FitsPacket : Bytes → Type 0
FitsPacket p = length p ≤ max_packet_size

abbrev pub Carry : Bytes → Option (List Bytes) → Type 0
Carry rest none = ⊥
Carry rest (some ps) = (payloads ps ≡ rest) × All FitsPacket ps

-- One fragment before the others.
Carry-more :
    (head chunk rest : Bytes) (r : Option (List Bytes))
    → length head ≡ 33
    → length chunk ≤ fragment_size
    → Carry rest r
    → Carry (chunk ++ rest) (elim r [ none ↦ none | some ps ↦ some ((head ++ chunk) ∷ ps) ])
unfolding payloads
Carry-more head chunk rest none n le c = absurd c
Carry-more head chunk rest (some ps) n le c = (
  rw (drop-append_of_length head chunk 33 n) (ap (λ r. chunk ++ r) c.0),
  (rw (length-append head chunk) (omega arith), c.1),
)

Carry-done :
    (state : Bytes) (offset : ℕ) → length state ≤ offset → Carry (drop offset state) (some [])
unfolding payloads
Carry-done state offset le = (sym (drop_all offset state le), tt)

Carry-round :
    (client_id base_seq total_size offset : ℕ) (chunk rest whole : Bytes) (n : Numbers)
    (r : Option (List Bytes))
    → length chunk ≤ fragment_size
    → chunk ++ rest ≡ whole
    → Carry rest r
    → Carry whole (elim (build_fragment client_id base_seq total_size offset chunk n) [
      | none ↦ none
      | some packet ↦ elim r [ none ↦ none | some packets ↦ some (packet ∷ packets) ]
    ])
Carry-round client_id base_seq total_size offset chunk rest whole n r le e c =
    rw (build_fragment-head client_id base_seq total_size offset chunk n le, ← e)
      (Carry-more (fragment_head client_id base_seq total_size offset (length chunk) n) chunk rest r
        (length-fragment_head client_id base_seq total_size offset (length chunk) n) le c)

-- The fragments of a state carry it whole and in order, and none of their packets is too long; there is
-- always fuel for them.
pub fragments_from-Carry :
    (fuel client_id : ℕ) (state : Bytes) (n : Numbers) (offset count : ℕ)
    → offset ≤ length state
    → length state ≤ offset + fuel
    → Carry (drop offset state) (fragments_from fuel client_id state n offset count)
unfolding fragments_from
fragments_from-Carry zero client_id state n offset count le enough =
    rw (finished, Carry) (Carry-done state offset (omega arith))
  where
    finished : ltb offset (length state) ≡ false
    finished = ground arith
fragments_from-Carry (suc fuel) client_id state n offset count le enough =
    elim (Bool-cases (ltb offset (length state))) [
      | inr e ↦ rw (e, Carry) (Carry-done state offset (ground (arith, e)))
      | inl e ↦
          rw (e, Carry)
            (Carry-round client_id n.seq _ _ (take chunk_size (drop offset state)) _ _ _
              (fragments_from fuel client_id state n (offset + chunk_size) (count + 1))
              (omega (arith, length-take chunk_size (drop offset state)))
              (take-drop_add chunk_size offset state)
              (fragments_from-Carry fuel client_id state n (offset + chunk_size) (count + 1)
                (omega arith) (ground (arith, e))))
    ]
  where
    chunk_size : ℕ
    chunk_size = min fragment_size (length state - offset)

-- A state of up to 1175 bytes goes whole into one packet, after 25 bytes, within the limit of a packet.
pub build_snapshot-whole :
    (client_id snapshot_seq : ℕ) (state : Bytes) (n : Numbers)
    → length state ≤ max_payload_size - 4
    → (packet : Bytes) × (build_snapshot client_id snapshot_seq state n ≡ some packet)
      × (length packet ≤ max_packet_size)
      × (drop 25 packet ≡ state)
unfolding build_snapshot build_header be_bytes
build_snapshot-whole client_id snapshot_seq state n le = rw (short) (_, refl, omega arith, refl)
  where
    short : ltb (max_payload_size - 4) (length state) ≡ false
    short = ground arith

-- What is true of the first packet of a state.
abbrev pub IsCut : Bytes → Option Bytes → Type 0
IsCut state r =
    (packet : Bytes) × (rest : Bytes) × (r ≡ some packet)
    × (length packet ≤ max_packet_size)
    × (0 < length rest)
    × (drop 33 packet ++ rest ≡ state)

first_of-IsCut :
    (state : Bytes) (r : Option (List Bytes))
    → max_payload_size - 4 < length state
    → Carry state r
    → IsCut state (first_of r)
unfolding first_of payloads
first_of-IsCut state none long c = absurd c
first_of-IsCut state (some []) long c = absurd (omega (arith, ap length c.0))
first_of-IsCut state (some (p ∷ ps)) long c = (
  p,
  payloads ps,
  refl,
  c.1.0,
  omega (arith, c.1.0, ap length c.0, length-append (drop 33 p) (payloads ps), length-drop 33 p),
  c.0,
)

-- Of a longer state, one packet is made, within the limit, and it carries a beginning of the state but
-- never the whole: what is left is not sent.
pub build_snapshot-IsCut :
    (client_id snapshot_seq : ℕ) (state : Bytes) (n : Numbers)
    → max_payload_size - 4 < length state
    → IsCut state (build_snapshot client_id snapshot_seq state n)
unfolding build_snapshot
build_snapshot-IsCut client_id snapshot_seq state n long =
    rw (is_long, IsCut)
      (first_of-IsCut state (fragments_from (length state) client_id state n 0 0) long
        (fragments_from-Carry (length state) client_id state n 0 0 (omega arith) (omega arith)))
  where
    is_long : ltb (max_payload_size - 4) (length state) ≡ true
    is_long = ground arith
