-- ===== src/GameServer/Sessions.antt =====
-- The sessions of UDP clients: server/src/GameServer/UDPHandlers.cpp and the gates of ParsePackets.cpp.
-- OpenSSL is outside the tree: the MAC and the key derivation are fields of `Crypto`.
use r_type_server.Prelude.{
  ℕ, zero, suc, ◌+◌, ◌-◌, ◌%◌, ◌^◌, [], ◌∷◌, ◌++◌, Option, none, some, leb, ◌==◌, length, take,
  if◌then◌else◌,
}
use r_type_server.Prelude.Dict.{nat_eq, endpoint_eq, lookup, insert, get, is_empty}
use r_type_server.Wire.{Bytes, be_bytes}
use r_type_server.Gateway.State.{Address}
use r_type_server.Gateway.Helpers.{set_pollout}
use r_type_server.GameServer.State.{GameServer, ClientState, AuthChallenge}
use r_type_server.GameServer.Udp.{Numbers, build_snapshot}

-- `hmacSHA256` and `deriveKey`, none where they throw, and what R_TYPE_SHARED_SECRET holds.
pub record Crypto : Type 0 where
  pub hmac : Bytes → Bytes → Option Bytes
  pub derive_key : Bytes → Bytes → Option Bytes
  pub env_secret : Bytes

-- The steady clock in nanoseconds, and the system clock in seconds.
pub record Clock : Type 0 where
  pub steady : ℕ
  pub seconds : ℕ

-- How a handler ends: returned, an exception with what was changed before it, or undefined behaviour.
pub data Handled : Type 0 where
  served : GameServer → Handled
  thrown : GameServer → Handled
  undefined : Handled

-- `r-type-shared-secret`
abbrev pub fallback_secret : Bytes
fallback_secret =
    114 ∷ 45 ∷ 116 ∷ 121 ∷ 112 ∷ 101 ∷ 45 ∷ 115 ∷ 104 ∷ 97 ∷ 114 ∷ 101 ∷ 100 ∷ 45 ∷ 115 ∷ 101 ∷ 99
    ∷ 114 ∷ 101 ∷ 116 ∷ []

unfoldable pub shared_secret : Crypto → Bytes
shared_secret crypto = if is_empty crypto.env_secret then fallback_secret else crypto.env_secret

-- The lookup of the client's handle that begins every handler; 0 is no handle.
unfoldable pub client_handle : ℕ → GameServer → ℕ
unfolding get
client_handle client_id gs = get client_id 0 gs.client_ids

unfoldable pub associate : Address → ℕ → GameServer → GameServer
associate endpoint client_id gs = elim (lookup client_id gs.client_ids) [
  | none ↦ gs
  | some h ↦ record gs { endpoint_to_handle = insert endpoint h gs.endpoint_to_handle }
]

-- `_send_spans[endpoint].push_back(packet)`
unfoldable pub push_packet : Address → Bytes → GameServer → GameServer
unfolding get
push_packet endpoint packet gs = record gs {
  send_spans = insert endpoint (get endpoint [] gs.send_spans ++ packet ∷ []) gs.send_spans;
}

-- The numbers for the next packet to a client, by its handle or by its endpoint.
unfoldable pub numbers : Address → ℕ → GameServer → Numbers
unfolding get
numbers endpoint h gs =
    if h == 0
    then record {
      seq = get endpoint 0 gs.ep_sequence_nums;
      ack_base = get endpoint 0 gs.ep_last_received_seq;
      ack_bits = get endpoint 0 gs.ep_sack_bits;
    }
    else record {
      seq = get h 0 gs.client_sequence_nums;
      ack_base = get h 0 gs.last_received_seq;
      ack_bits = get h 0 gs.sack_bits;
    }

-- The `++` on the sequence number.
unfoldable pub next_number : Address → ℕ → GameServer → GameServer
unfolding numbers
next_number endpoint h gs =
    let seq = ((numbers endpoint h gs).seq + 1) % 2 ^ 32 in
    if h == 0
    then record gs { ep_sequence_nums = insert endpoint seq gs.ep_sequence_nums }
    else record gs { client_sequence_nums = insert h seq gs.client_sequence_nums }

-- A packet that is built with the next numbers, and `setPolloutForHandle(_sock.handle)`.
unfoldable pub send_datagram : Address → ℕ → (Numbers → Bytes) → GameServer → GameServer
unfolding push_packet next_number set_pollout
send_datagram endpoint h build gs =
    let sent = push_packet endpoint (build (numbers endpoint h gs)) (next_number endpoint h gs) in
    record sent { fds = set_pollout gs.sock sent.fds }

unfoldable pub send_snapshot : Address → ℕ → ℕ → ℕ → Bytes → GameServer → Handled
unfolding send_datagram
send_snapshot endpoint h client_id snapshot_seq state gs =
    elim (build_snapshot client_id snapshot_seq state (numbers endpoint h gs)) [
      | none ↦ thrown (next_number endpoint h gs)
      | some packet ↦ served (send_datagram endpoint h (λ n. packet) gs)
    ]

unfoldable pub reset_numbers : Address → ℕ → GameServer → GameServer
reset_numbers endpoint h gs =
    if h == 0
    then record gs {
      ep_sequence_nums = insert endpoint 0 gs.ep_sequence_nums;
      ep_last_received_seq = insert endpoint 0 gs.ep_last_received_seq;
      ep_sack_bits = insert endpoint 0 gs.ep_sack_bits;
    }
    else record gs {
      client_sequence_nums = insert h 0 gs.client_sequence_nums;
      last_received_seq = insert h 0 gs.last_received_seq;
      sack_bits = insert h 0 gs.sack_bits;
    }

-- The state of a session, by handle or by endpoint.
unfoldable pub session : Address → ℕ → GameServer → Option ClientState
session endpoint h gs =
    if h == 0 then lookup endpoint gs.ep_client_states else lookup h gs.client_states

unfoldable pub set_session : Address → ℕ → ClientState → GameServer → GameServer
set_session endpoint h state gs =
    if h == 0
    then record gs { ep_client_states = insert endpoint state gs.ep_client_states }
    else record gs { client_states = insert h state gs.client_states }

unfoldable pub set_challenge : Address → ℕ → AuthChallenge → GameServer → GameServer
set_challenge endpoint h entry gs =
    if h == 0
    then record gs { ep_auth_states = insert endpoint entry gs.ep_auth_states }
    else record gs { auth_states = insert h entry gs.auth_states }

-- `mac_data`: the address without the port, the nonce and the time.
unfoldable pub mac_data : Address → ℕ → ℕ → Bytes
mac_data endpoint nonce timestamp = endpoint.0 ++ (nonce ∷ be_bytes 8 timestamp)

zeros : ℕ → Bytes
zeros zero = []
zeros (suc n) = 0 ∷ zeros n

-- The first 32 bytes of a MAC, with zeros behind a shorter one.
unfoldable pub cookie_of : Bytes → Bytes
unfolding zeros
cookie_of mac = if leb 32 (length mac) then take 32 mac else mac ++ zeros (32 - length mac)

-- The client of a JOIN is put into the first game, which is told by an event.
unfoldable pub assign_game : ℕ → GameServer → GameServer
assign_game client_id gs = elim gs.game_instances [
  | [] ↦ gs
  | (game_id, game) ∷ rest ↦ record gs {
    client_to_game = insert client_id game_id gs.client_to_game;
    game_instances = elim game.slot_events [
      | none ↦ gs.game_instances
      | some events ↦
          (game_id, record game { slot_events = some (events ++ client_id ∷ []) }) ∷ rest
    ];
  }
]
