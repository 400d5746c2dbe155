-- ===== src/Protocol/Registration.antt =====
-- A game server registers with the gateway and tells its load.
use mathlib.Core.List.{append_assoc}
use r_type_server.Prelude.{
  ℕ, ◌+◌, ◌^◌, ◌<◌, ◌≡◌, refl, List, [], ◌∷◌, ◌++◌, some, arith, length, length-append,
  take-append_of_length, get_or-append, if◌then◌else◌, not, ◌&&◌, ◌||◌,
}
use r_type_server.Prelude.Dict.{
  endpoint_eq, nat_eq, contains, lookup, insert, get, lookup-insert, endpoint_beq, get-insert,
  contains-insert,
}
use r_type_server.Wire.RoundTrip.{length-be_bytes}
use r_type_server.Wire.{Bytes, ok, be_bytes}
use r_type_server.Gateway.State.{Gateway, Address}
use r_type_server.Gateway.Packets.{build_header, build_simple_response, parse_gs_key}
use r_type_server.Gateway.Helpers.{find_gs_key_by_handle}
use r_type_server.Gateway.Commands.{register_gs, handle_gs_registration, handle_occupancy}
use r_type_server.Gateway.Parse.{dispatch, parse_packet}
use r_type_server.Gateway.Packet.{parse_packet-dispatch}
use r_type_server.Gateway.Outbox.{outbox}
use r_type_server.GameServer.Packets

-- Both sides build the same header.
pub header-eq : (cmd flags : ℕ) → Packets.build_header cmd flags ≡ build_header cmd flags
unfolding Packets.build_header build_header
header-eq cmd flags = refl

-- The key of a registration is the address that the game server wrote.
parse_gs_key-build :
    (a b c d e : ℕ) (ip : List ℕ) (port : ℕ) (rest : Bytes)
    → length ip ≡ 16
    → port < 2 ^ 16
    → parse_gs_key 1 (a ∷ b ∷ c ∷ d ∷ e ∷ (ip ++ (be_bytes 2 port ++ rest))) 4 ≡ ok (ip, port) 4
unfolding parse_gs_key be_bytes
parse_gs_key-build a b c d e ip port rest n lt = ground (
  arith,
  length-append ip (be_bytes 2 port ++ rest),
  append_assoc ip (be_bytes 2 port) rest,
  length-append ip (be_bytes 2 port),
  take-append_of_length (ip ++ be_bytes 2 port) rest 18,
  take-append_of_length ip (be_bytes 2 port) 16 n,
  get_or-append ip (be_bytes 2 port) 0 0,
  get_or-append ip (be_bytes 2 port) 1 0,
)

registration_at_start :
    (h : ℕ) (gw : Gateway) (ip : List ℕ) (port : ℕ) (rest : Bytes)
    → length ip ≡ 16
    → port < 2 ^ 16
    → dispatch 20 h gw (build_header 20 0 ++ (ip ++ (be_bytes 2 port ++ rest))) 4
      ≡ ok (register_gs h (ip, port) gw) 23
unfolding dispatch build_header handle_gs_registration
registration_at_start h gw ip port rest n lt = ground (
  arith,
  parse_gs_key-build 0x42 0x57 0x01 0 20 ip port rest n lt,
  length-append ip (be_bytes 2 port ++ rest),
  length-append (be_bytes 2 port) rest,
  length-be_bytes 2 port,
)

-- The packet of `_sendGSRegistration`, anywhere in a stream: it takes 23 bytes and registers the
-- address that the game server wrote.
pub parse_packet-registration :
    (pre : Bytes) (h : ℕ) (gw : Gateway) (ip : List ℕ) (port : ℕ) (rest : Bytes)
    → length ip ≡ 16
    → port < 2 ^ 16
    → parse_packet h gw (pre ++ (Packets.build_gs_registration ip port ++ rest)) (length pre)
      ≡ ok (register_gs h (ip, port) gw) (length pre + 23)
unfolding Packets.build_gs_registration
parse_packet-registration pre h gw ip port rest n lt =
    simp (append_assoc, header-eq)
      (parse_packet-dispatch pre h 20 0 gw (ip ++ (be_bytes 2 port ++ rest))
        (registration_at_start h gw ip port rest n lt))

-- A new address gets GS_OK and its connection; an address that is registered gets GS_KO and keeps the
-- connection that it had. No other server's connection changes, and either way one answer is queued.
pub register_gs-answer :
    (h : ℕ) (key j : Address) (gw : Gateway)
    → (outbox h (register_gs h key gw)
        ≡ outbox h gw
          ++ build_simple_response (if contains key gw.gs_registry then 22 else 21) ∷ [])
      × (lookup j (register_gs h key gw).gs_addr_to_handle ≡ (
          if endpoint_beq key j && not (contains key gw.gs_registry)
          then some h
          else lookup j gw.gs_addr_to_handle))
      × (contains j (register_gs h key gw).gs_registry
          ≡ (endpoint_beq key j || contains j gw.gs_registry))
unfolding register_gs outbox
register_gs-answer h key j gw = (
  ground (
    arith,
    get-insert h h []
        (get h [] gw.send_spans
          ++ build_simple_response (if contains key gw.gs_registry then 22 else 21) ∷ [])
        gw.send_spans,
  ),
  ground (arith, lookup-insert key j h gw.gs_addr_to_handle),
  ground (arith, contains-insert key j 1 gw.gs_registry),
)

occupancy_at_start :
    (h occupancy : ℕ) (gw : Gateway) (key : Address) (rest : Bytes)
    → find_gs_key_by_handle h gw ≡ some key
    → dispatch 23 h gw (build_header 23 0 ++ (occupancy ∷ rest)) 4
      ≡ ok (record gw { occupancy_cache = insert key occupancy gw.occupancy_cache }) 6
unfolding dispatch build_header handle_occupancy
occupancy_at_start h occupancy gw key rest e = ground (arith, e)

-- The load that a registered server tells, anywhere in a stream, is the one that the gateway balances by.
pub parse_packet-occupancy :
    (pre : Bytes) (h occupancy : ℕ) (gw : Gateway) (key : Address) (rest : Bytes)
    → find_gs_key_by_handle h gw ≡ some key
    → parse_packet h gw (pre ++ (Packets.build_occupancy occupancy ++ rest)) (length pre)
      ≡ ok
          (record gw { occupancy_cache = insert key occupancy gw.occupancy_cache })
          (length pre + 6)
unfolding Packets.build_occupancy
parse_packet-occupancy pre h occupancy gw key rest e =
    simp (append_assoc, header-eq)
      (parse_packet-dispatch pre h 23 0 gw (occupancy ∷ rest)
        (occupancy_at_start h occupancy gw key rest e))
