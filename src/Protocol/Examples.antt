-- ===== src/Protocol/Examples.antt =====
-- The protocol at work: the packets of the game servers of the gateway's example network.
use r_type_server.Prelude.{
  ℕ, ◌+◌, ◌≡◌, refl, List, [], ◌∷◌, ◌++◌, none, some, arith, length, if◌then◌else◌, ◌==◌, ◌&&◌,
  ◌||◌, not,
}
use r_type_server.Prelude.Dict.{nat_eq, endpoint_eq, endpoint_beq, lookup, contains}
use r_type_server.Wire.{ok}
use r_type_server.Wire.Local.{shift}
use r_type_server.Gateway.State.{Gateway}
use r_type_server.Gateway.Packets.{build_simple_response}
use r_type_server.Gateway.Helpers.{find_gs_key_by_handle}
use r_type_server.Gateway.Commands.{register_gs, finish_create}
use r_type_server.Gateway.Parse.{parse_packet, parse_buffer, count_error}
use r_type_server.Gateway.Outbox.{outbox}
use r_type_server.Gateway.Examples.{first, second, network, waiting_network}
use r_type_server.GameServer.Packets
use r_type_server.Protocol.Registration.{parse_packet-registration, register_gs-answer}
use r_type_server.Gateway.Tables.{member}
use r_type_server.Protocol.Games.{parse_packet-gid, end_answer, parse_packet-game_end}
use r_type_server.Protocol.Creates.{parse_packet-forwarded, parse_buffer-answer}

parse_packet-registration_example :
    parse_packet 9 network ((7 ∷ []) ++ (Packets.build_gs_registration first.0 4244 ++ (8 ∷ []))) 1
    ≡ ok (register_gs 9 (first.0, 4244) network) 24
parse_packet-registration_example =
    parse_packet-registration (7 ∷ []) 9 network first.0 4244 (8 ∷ []) (omega arith) (omega arith)

register_gs-answer_example :
    (outbox 9 (register_gs 9 first network)
      ≡ outbox 9 network
        ++ build_simple_response (if contains first network.gs_registry then 22 else 21) ∷ [])
    × (lookup second (register_gs 9 first network).gs_addr_to_handle ≡ (
        if endpoint_beq first second && not (contains first network.gs_registry)
        then some 9
        else lookup second network.gs_addr_to_handle))
    × (contains second (register_gs 9 first network).gs_registry
        ≡ (endpoint_beq first second || contains second network.gs_registry))
register_gs-answer_example = register_gs-answer 9 first second network

parse_packet-gid_example :
    (gw' : Gateway) × (parse_packet 8 network
        ((7 ∷ []) ++ (Packets.build_gid_registration (6 ∷ 7 ∷ []) ++ []))
        1
      ≡ ok gw' (1 + length (Packets.build_gid_registration (6 ∷ 7 ∷ []))))
    × ((id : ℕ)
        → lookup id gw'.game_to_gs
          ≡ (if member id (6 ∷ 7 ∷ []) then some second else lookup id network.game_to_gs))
unfolding find_gs_key_by_handle
parse_packet-gid_example =
    parse_packet-gid (7 ∷ []) 8 network second (6 ∷ 7 ∷ []) [] refl (omega arith, (omega arith, tt))
      (omega arith) (omega arith)

parse_packet-game_end_example :
    parse_packet 8 network ((7 ∷ []) ++ (Packets.build_game_end 5 ++ [])) 1
    ≡ shift 1 (end_answer second 5 network)
unfolding find_gs_key_by_handle
parse_packet-game_end_example =
    parse_packet-game_end (7 ∷ []) 8 network second 5 [] refl (omega arith)

parse_packet-forwarded_example :
    (gw' : Gateway) × (parse_packet 8 waiting_network
        ((7 ∷ []) ++ (Packets.build_join_response 6 second.0 4243 ++ (8 ∷ [])))
        1
      ≡ ok gw' 10)
    × (outbox 9 gw' ≡ outbox 9 waiting_network ++ Packets.build_join_response 6 second.0 4243 ∷ [])
    × ((j : ℕ)
        → lookup j gw'.game_to_gs
          ≡ (if 6 == j then some second else lookup j waiting_network.game_to_gs))
    × (lookup 8 gw'.pending_creates ≡ none)
unfolding find_gs_key_by_handle lookup
parse_packet-forwarded_example =
    parse_packet-forwarded (7 ∷ []) 8 9 1 6 second.0 4243 second waiting_network (8 ∷ [])
      (omega arith) (omega arith) refl refl refl

abbrev ip_tail : List ℕ
ip_tail = 0 ∷ 0 ∷ 0 ∷ 0 ∷ 0 ∷ 255 ∷ 255 ∷ 127 ∷ 0 ∷ 0 ∷ 2 ∷ []

parse_buffer-answer_example :
    parse_buffer 27 8 waiting_network
      (Packets.build_join_response 6 (0 ∷ 0 ∷ 0 ∷ 0 ∷ 0 ∷ ip_tail) 4243 ++ [])
      0
    ≡ count_error 8 11 (
        finish_create 8 9
          (Packets.build_join_response 6 (0 ∷ 0 ∷ 0 ∷ 0 ∷ 0 ∷ ip_tail) 4243)
          waiting_network)
unfolding lookup
parse_buffer-answer_example =
    parse_buffer-answer 25 8 9 1 6 0 0 0 0 0 ip_tail 4243 waiting_network [] refl refl refl
      (omega arith) (omega arith) (omega arith) refl
