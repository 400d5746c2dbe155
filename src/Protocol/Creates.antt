-- ===== src/Protocol/Creates.antt =====
-- A game server answers a CREATE: `buildJoinResponse` of the game server, `handleJoin` of the gateway.
use mathlib.Core.List.{append_assoc}
use r_type_server.Prelude.{
  ℕ, suc, ◌+◌, ◌^◌, ◌<◌, ◌≡◌, false, List, [], ◌∷◌, ◌++◌, none, some, arith, length, length-append,
  take-append_of_length, if◌then◌else◌, ◌==◌, ◌&&◌,
}
use r_type_server.Prelude.Dict.{
  endpoint_eq, nat_eq, lookup, lookup-insert, lookup-erase, is_empty, get, get-insert,
}
use r_type_server.Wire.{Bytes, IsByte, ok, err, invalid_magic, be_bytes}
use r_type_server.Wire.RoundTrip.{length-be_bytes}
use r_type_server.Gateway.State.{Gateway, Address}
use r_type_server.Gateway.Packets.{build_header, build_join_msg_for_client}
use r_type_server.Gateway.Helpers.{find_gs_key_by_handle}
use r_type_server.Gateway.Commands.{finish_create, handle_join}
use r_type_server.Gateway.Header.{get_header-verdict}
use r_type_server.Gateway.Parse.{dispatch, parse_packet, parse_buffer, count_error}
use r_type_server.Gateway.Joins.{game_id_of-be_bytes}
use r_type_server.Gateway.Outbox.{outbox}
use r_type_server.Gateway.Packet.{parse_packet-dispatch}
use r_type_server.GameServer.Packets
use r_type_server.Protocol.Registration.{header-eq}

-- The bytes of an answer after its header: the game's id, and the 18 bytes of the server's address.
abbrev pub answer_body : ℕ → List ℕ → ℕ → Bytes
answer_body id ip port = be_bytes 4 id ++ (ip ++ be_bytes 2 port)

length-answer_body :
    (id : ℕ) (ip : List ℕ) (port : ℕ) → length ip ≡ 16 → length (answer_body id ip port) ≡ 22
length-answer_body id ip port n = omega (
  arith,
  length-append (be_bytes 4 id) (ip ++ be_bytes 2 port),
  length-append ip (be_bytes 2 port),
  length-be_bytes 4 id,
  length-be_bytes 2 port,
)

module _ (h client gametype id : ℕ) (ip : List ℕ) (port : ℕ) (gw : Gateway) (rest : Bytes) where
  answer_at_start :
      length ip ≡ 16
      → is_empty gw.gs_registry ≡ false
      → lookup h gw.pending_creates ≡ some (client, gametype)
      → dispatch 1 h gw (build_header 1 0 ++ (answer_body id ip port ++ rest)) 4
        ≡ ok (finish_create h client (build_header 1 0 ++ answer_body id ip port) gw) 9
  unfolding dispatch build_header handle_join build_join_msg_for_client
  answer_at_start n full e = ground (
    arith,
    length-append (answer_body id ip port) rest,
    length-answer_body id ip port n,
    take-append_of_length (answer_body id ip port) rest 22,
  )

finish_create-answer :
    (h client id : ℕ) (ip : List ℕ) (port : ℕ) (key : Address) (gw : Gateway)
    → id < 2 ^ 32
    → find_gs_key_by_handle h gw ≡ some key
    → (outbox client (finish_create h client (Packets.build_join_response id ip port) gw)
        ≡ outbox client gw ++ Packets.build_join_response id ip port ∷ [])
      × ((j : ℕ)
          → lookup j (finish_create h client (Packets.build_join_response id ip port) gw).game_to_gs
            ≡ (if id == j then some key else lookup j gw.game_to_gs))
      × (lookup h
            (finish_create h client (Packets.build_join_response id ip port) gw).pending_creates
          ≡ none)
unfolding finish_create Packets.build_join_response Packets.build_header outbox
finish_create-answer h client id ip port key gw lt e = (
  ground (
    arith,
    e,
    get-insert client client []
        (get client [] gw.send_spans ++ Packets.build_join_response id ip port ∷ []) gw.send_spans,
  ),
  λ j. ground (
    arith,
    e,
    game_id_of-be_bytes id (ip ++ be_bytes 2 port) lt,
    lookup-insert id j key gw.game_to_gs,
  ),
  ground (arith, e, lookup-erase h h gw.pending_creates),
)

-- The answer to a CREATE is sent on, but only nine of its 27 bytes are taken: the address, 18 bytes,
-- stays in the stream.
pub parse_packet-answer :
    (pre : Bytes) (h client gametype id : ℕ) (ip : List ℕ) (port : ℕ) (gw : Gateway) (rest : Bytes)
    → length ip ≡ 16
    → is_empty gw.gs_registry ≡ false
    → lookup h gw.pending_creates ≡ some (client, gametype)
    → parse_packet h gw (pre ++ (Packets.build_join_response id ip port ++ rest)) (length pre)
      ≡ ok (finish_create h client (Packets.build_join_response id ip port) gw) (length pre + 9)
unfolding Packets.build_join_response
parse_packet-answer pre h client gametype id ip port gw rest n full e =
    simp (append_assoc, header-eq)
      (simp append_assoc at (
        parse_packet-dispatch pre h 1 0 gw (answer_body id ip port ++ rest)
          (answer_at_start h client gametype id ip port gw rest n full e)))

-- The answer of a game server to a CREATE, anywhere in a stream, where the gateway awaits it and the server is
-- registered: what the gateway queues for the client is the server's answer to the byte, after what was queued;
-- from then on the game leads to that server, every other game leads where it led, and no answer is awaited;
-- nine bytes are taken.
pub parse_packet-forwarded :
    (pre : Bytes) (h client gametype id : ℕ) (ip : List ℕ) (port : ℕ) (key : Address) (gw : Gateway)
    (rest : Bytes)
    → length ip ≡ 16
    → id < 2 ^ 32
    → is_empty gw.gs_registry ≡ false
    → lookup h gw.pending_creates ≡ some (client, gametype)
    → find_gs_key_by_handle h gw ≡ some key
    → (gw' : Gateway) × (parse_packet h gw
          (pre ++ (Packets.build_join_response id ip port ++ rest))
          (length pre)
        ≡ ok gw' (length pre + 9))
      × (outbox client gw' ≡ outbox client gw ++ Packets.build_join_response id ip port ∷ [])
      × ((j : ℕ) → lookup j gw'.game_to_gs ≡ (if id == j then some key else lookup j gw.game_to_gs))
      × (lookup h gw'.pending_creates ≡ none)
parse_packet-forwarded pre h client gametype id ip port key gw rest n lt full e found =
    let sent = finish_create-answer h client id ip port key gw lt found in
    (
      finish_create h client (Packets.build_join_response id ip port) gw,
      parse_packet-answer pre h client gametype id ip port gw rest n full e,
      sent.0,
      sent.1,
      sent.2,
    )

-- The nine bytes that are taken, and the rest of the answer with what follows it.
split_answer :
    (id : ℕ) (ip : List ℕ) (port : ℕ) (rest : Bytes)
    → Packets.build_join_response id ip port ++ rest
      ≡ (build_header 1 0 ++ be_bytes 4 id) ++ (ip ++ (be_bytes 2 port ++ rest))
unfolding Packets.build_join_response
split_answer id ip port rest = simp (append_assoc, header-eq)

length-nine : (id : ℕ) → length (build_header 1 0 ++ be_bytes 4 id) ≡ 9
unfolding build_header
length-nine id = omega (arith, length-be_bytes 4 id)

address_is_no_header :
    (h id a b c d e : ℕ) (ip : List ℕ) (port : ℕ) (gw : Gateway) (rest : Bytes)
    → IsByte a
    → IsByte b
    → IsByte c
    → (a == 0x42 && b == 0x57) ≡ false
    → parse_packet h gw (Packets.build_join_response id (a ∷ b ∷ c ∷ d ∷ e ∷ ip) port ++ rest) 9
      ≡ err invalid_magic 11
unfolding parse_packet
address_is_no_header h id a b c d e ip port gw rest ha hb hc no_magic =
    rw (split_answer id (a ∷ b ∷ c ∷ d ∷ e ∷ ip) port rest) (
      ground (
        arith,
        length-nine id,
        get_header-verdict (build_header 1 0 ++ be_bytes 4 id) a b c d e
            (ip ++ (be_bytes 2 port ++ rest)) ha hb hc,
        no_magic,
      ))

length-join_response :
    (id : ℕ) (ip : List ℕ) (port : ℕ)
    → length (Packets.build_join_response id ip port) ≡ 11 + length ip
unfolding Packets.build_join_response Packets.build_header
length-join_response id ip port = omega (
  arith,
  length-append (be_bytes 4 id) (ip ++ be_bytes 2 port),
  length-append ip (be_bytes 2 port),
  length-be_bytes 4 id,
  length-be_bytes 2 port,
)

-- A game server's answer to a CREATE, in a buffer of its own or before more bytes, is handled, and then its
-- address is taken for the next packet: unless the address begins with the magic number, the answer counts
-- as an error of the game server, and parsing stops two bytes into the address.
pub parse_buffer-answer :
    (fuel h client gametype id a b c d e : ℕ) (ip : List ℕ) (port : ℕ) (gw : Gateway) (rest : Bytes)
    → length ip ≡ 11
    → is_empty gw.gs_registry ≡ false
    → lookup h gw.pending_creates ≡ some (client, gametype)
    → IsByte a
    → IsByte b
    → IsByte c
    → (a == 0x42 && b == 0x57) ≡ false
    → parse_buffer
        (suc (suc fuel))
        h
        gw
        (Packets.build_join_response id (a ∷ b ∷ c ∷ d ∷ e ∷ ip) port ++ rest)
        0
      ≡ count_error h 11
          (finish_create h client (Packets.build_join_response id (a ∷ b ∷ c ∷ d ∷ e ∷ ip) port) gw)
unfolding parse_buffer
parse_buffer-answer fuel h client gametype id a b c d e ip port gw rest n full p ha hb hc no_magic =
    ground (
      arith,
      parse_packet-answer [] h client gametype id (a ∷ b ∷ c ∷ d ∷ e ∷ ip) port gw rest
          (omega arith) full p,
      address_is_no_header h id a b c d e ip port
          (finish_create h client (Packets.build_join_response id (a ∷ b ∷ c ∷ d ∷ e ∷ ip) port) gw)
          rest ha hb hc no_magic,
      length-append (Packets.build_join_response id (a ∷ b ∷ c ∷ d ∷ e ∷ ip) port) rest,
      length-join_response id (a ∷ b ∷ c ∷ d ∷ e ∷ ip) port,
    )
