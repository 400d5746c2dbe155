-- ===== src/GameServer/Games.antt =====
-- The game server's answers to the gateway.
use r_type_server.Prelude.{
  ℕ, zero, suc, ◌+◌, ◌%◌, ◌^◌, ◌==◌, if◌then◌else◌, ◌≤◌, ◌≡◌, refl, ap, ◌∙◌, [], ◌∷◌, ◌++◌, Option,
  none, some, arith, ltb, length, Bool-cases, inl, inr,
}
use r_type_server.Prelude.Dict.{
  nat_eq, endpoint_eq, lookup, contains, lookup-insert, get, get-insert, beq_refl,
}
use r_type_server.Wire.{Bytes, Read, ok, err, oob}
use r_type_server.Gateway.Packets.{build_create_msg, build_simple_response}
use r_type_server.GameServer.State.{GameServer, Game}
use r_type_server.GameServer.Packets.{parse_header, build_join_response}
use r_type_server.GameServer.Link.{
  send_tcp, handle_create, handle_occupancy_request, dispatch_tcp, parse_tcp_buffer, emplace_game,
  next_game,
}

-- The parser stops within the buffer, and never for want of fuel or at a read past the end.
abbrev pub Within : Bytes → ℕ → Option (GameServer × ℕ) → Type 0
Within d o none = ⊥
Within d o (some (gs, o')) = (o ≤ o') × (o' ≤ length d)

abbrev Headed : Bytes → ℕ → Read ℕ → Type 0
Headed d o (ok cmd o') = (o' ≡ o + 4) × (o + 5 ≤ length d)
Headed d o (err e o') = (o ≤ o') × (o' ≤ length d)
Headed d o oob = ⊥

parse_header-Headed : (d : Bytes) (o : ℕ) → o ≤ length d → Headed d o (parse_header d o)
unfolding parse_header
parse_header-Headed d o le = ground arith

abbrev Onward : Bytes → ℕ → Option (GameServer × ℕ) → Type 0
Onward d o none = Unit {0}
Onward d o (some (gs, o')) = (o ≤ o') × (o' ≤ length d)

dispatch_tcp-Onward :
    (game : Game) (cmd : ℕ) (d : Bytes) (o : ℕ) (gs : GameServer)
    → o + 1 ≤ length d
    → Onward d o (dispatch_tcp game cmd d o gs)
unfolding dispatch_tcp handle_create handle_occupancy_request
dispatch_tcp-Onward game cmd d o gs le = ground arith

-- The loop over the bytes from the gateway ends, within the buffer, if it has as many rounds as there are
-- bytes left; it never reads past the end.
pub parse_tcp_buffer-Within :
    (fuel : ℕ) (game : Game) (d : Bytes) (o : ℕ) (gs : GameServer)
    → o ≤ length d
    → length d ≤ o + fuel
    → Within d o (parse_tcp_buffer fuel game d o gs)
unfolding parse_tcp_buffer
parse_tcp_buffer-Within zero game d o gs le enough = ground arith
parse_tcp_buffer-Within (suc fuel) game d o gs le enough = elim (Bool-cases (ltb o (length d))) [
  | inr e ↦ rw (e, Within) (omega arith, le)
  | inl e ↦
      rw (e, Within)
        (headed (parse_header d o) (parse_header-Headed d o le)
          (parse_tcp_buffer-Within fuel game d))
]
  where
    farther : (o' : ℕ) (r : Option (GameServer × ℕ)) → o ≤ o' → Within d o' r → Within d o r
    farther o' none le w = w
    farther o' (some (gs', o'')) le w = (omega (arith, w.0), w.1)

    dispatched :
        (o' : ℕ) (r : Option (GameServer × ℕ))
        → o + 4 ≤ o'
        → o' ≤ length d
        → Onward d o' r
        → ((o'' : ℕ) (gs' : GameServer)
            → o'' ≤ length d
            → length d ≤ o'' + fuel
            → Within d o'' (parse_tcp_buffer fuel game d o'' gs'))
        → Within d o (elim r [
          | none ↦ some (gs, o')
          | some (gs', o'') ↦ parse_tcp_buffer fuel game d o'' gs'
        ])
    dispatched o' none far in_buffer w ih = (omega arith, in_buffer)
    dispatched o' (some (gs', o'')) far in_buffer w ih =
        farther o'' _ (omega (arith, w.0)) (ih o'' gs' w.1 (omega (arith, w.0)))

    headed :
        (r : Read ℕ)
        → Headed d o r
        → ((o'' : ℕ) (gs' : GameServer)
            → o'' ≤ length d
            → length d ≤ o'' + fuel
            → Within d o'' (parse_tcp_buffer fuel game d o'' gs'))
        → Within d o (elim r [
          | oob ↦ none
          | err e o' ↦ some (gs, o')
          | ok cmd o' ↦ elim (dispatch_tcp game cmd d o' gs) [
            | none ↦ some (gs, o')
            | some (gs', o'') ↦ parse_tcp_buffer fuel game d o'' gs'
          ]
        ])
    headed oob h ih = h
    headed (err e o') h ih = h
    headed (ok cmd o') h ih =
        dispatched o' (dispatch_tcp game cmd d o' gs) (omega (arith, h.0)) (omega (arith, h.0, h.1))
          (dispatch_tcp-Onward game cmd d o' gs (omega (arith, h.0, h.1))) ih

emplace_game-new :
    (id : ℕ) (game : Game) (gs : GameServer)
    → lookup id gs.game_instances ≡ none
    → ((j : ℕ)
        → lookup j (emplace_game id game gs).game_instances
          ≡ (if id == j then some game else lookup j gs.game_instances))
      × ((emplace_game id game gs).tcp_send_spans ≡ gs.tcp_send_spans)
      × ((emplace_game id game gs).next_game_id ≡ gs.next_game_id)
unfolding emplace_game contains
emplace_game-new id game gs e = (
  λ j. ground (arith, e, lookup-insert id j game gs.game_instances),
  ground (arith, e),
  ground (arith, e),
)

send_tcp-outbox :
    (h : ℕ) (packet : Bytes) (gs : GameServer)
    → get h [] (send_tcp h packet gs).tcp_send_spans ≡ get h [] gs.tcp_send_spans ++ packet ∷ []
unfolding send_tcp
send_tcp-outbox h packet gs =
    rw (get-insert h h [] (get h [] gs.tcp_send_spans ++ packet ∷ []) gs.tcp_send_spans, beq_refl h)
      refl

-- Where no game has the next id, a CREATE of the gateway makes a game with this id and changes no other game,
-- the id after it is the next one, modulo 2 ^ 32, and the answer that is queued for the gateway is the JOIN with
-- the new game's id and the server's address.
pub parse_tcp_buffer-create :
    (fuel : ℕ) (game : Game) (gametype : ℕ) (gs : GameServer)
    → lookup gs.next_game_id gs.game_instances ≡ none
    → (gs' : GameServer) × (parse_tcp_buffer (suc (suc fuel)) game (build_create_msg gametype) 0 gs
        ≡ some (gs', 6))
      × ((j : ℕ)
          → lookup j gs'.game_instances
            ≡ (if gs.next_game_id == j then some game else lookup j gs.game_instances))
      × (gs'.next_game_id ≡ (gs.next_game_id + 1) % 2 ^ 32)
      × (get gs.tcp_handle [] gs'.tcp_send_spans
          ≡ get gs.tcp_handle [] gs.tcp_send_spans
            ++ build_join_response gs.next_game_id gs.external_endpoint.0 gs.external_endpoint.1
              ∷ [])
unfolding parse_tcp_buffer dispatch_tcp handle_create next_game send_tcp build_create_msg
    parse_header
parse_tcp_buffer-create fuel game gametype gs e = (
  _,
  refl,
  made.0,
  made.2,
  send_tcp-outbox gs.tcp_handle answer (emplace_game gs.next_game_id game (next_game gs))
      ∙ ap (λ m. get gs.tcp_handle [] m ++ answer ∷ []) made.1,
)
  where
    answer : Bytes
    answer = build_join_response gs.next_game_id gs.external_endpoint.0 gs.external_endpoint.1

    made :
        ((j : ℕ)
          → lookup j (emplace_game gs.next_game_id game (next_game gs)).game_instances
            ≡ (if gs.next_game_id == j then some game else lookup j gs.game_instances))
        × ((emplace_game gs.next_game_id game (next_game gs)).tcp_send_spans ≡ gs.tcp_send_spans)
        × ((emplace_game gs.next_game_id game (next_game gs)).next_game_id
            ≡ (gs.next_game_id + 1) % 2 ^ 32)
    made = emplace_game-new gs.next_game_id game (next_game gs) e

-- What the gateway sends to ask for the occupancy, GS_OK, is not answered.
pub parse_tcp_buffer-keepalive :
    (fuel : ℕ) (game : Game) (gs : GameServer)
    → parse_tcp_buffer (suc (suc fuel)) game (build_simple_response 21) 0 gs ≡ some (gs, 5)
unfolding parse_tcp_buffer dispatch_tcp build_simple_response parse_header
parse_tcp_buffer-keepalive fuel game gs = refl
