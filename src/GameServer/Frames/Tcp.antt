-- ===== src/GameServer/Frames/Tcp.antt =====
-- The connection to the gateway leaves the sessions alone.
use r_type_server.Prelude.{
  ℕ, zero, suc, refl, ◌∙◌, Bool, true, false, List, Option, none, some, arith, ltb, length,
}
use r_type_server.Prelude.Dict.{nat_eq, endpoint_eq, lookup}
use r_type_server.Wire.{Bytes, Read, ok, err, oob}
use r_type_server.GameServer.State.{GameServer, Game}
use r_type_server.GameServer.Packets.{parse_header}
use r_type_server.GameServer.Link.{
  Received, bytes, closed, again, failed, recv_tcp_packets, send_tcp_packets, dispatch_tcp,
  parse_tcp_buffer, parse_tcp_packets, handle_create, handle_occupancy_request, send_tcp, next_game,
  emplace_game, erase_tcp,
}
use r_type_server.GameServer.Frames.{Frame}

pub send_tcp_packets-Frame :
    (sends : List (Option ℕ)) (gs : GameServer) → Frame gs (send_tcp_packets sends gs).0
unfolding send_tcp_packets
send_tcp_packets-Frame sends gs = ground arith

pub recv_tcp_packets-Frame : (r : Received) (gs : GameServer) → Frame gs (recv_tcp_packets r gs).0
unfolding recv_tcp_packets
recv_tcp_packets-Frame (bytes bs) gs = refl
recv_tcp_packets-Frame closed gs = refl
recv_tcp_packets-Frame again gs = refl
recv_tcp_packets-Frame failed gs = refl

-- None, or a state in which the predicate holds.
abbrev OnSome : (GameServer → Type 0) → Option (GameServer × ℕ) → Type 0
OnSome P none = Unit {0}
OnSome P (some (gs, o)) = P gs

-- From the state in which the predicate is said of another.
OnSome-Frame :
    (gs g : GameServer) (r : Option (GameServer × ℕ))
    → Frame gs g
    → OnSome (Frame g) r
    → OnSome (Frame gs) r
OnSome-Frame gs g none e f = tt
OnSome-Frame gs g (some r) e f = f ∙ e

dispatch_tcp-Frame :
    (game : Game) (cmd : ℕ) (d : Bytes) (o : ℕ) (gs : GameServer)
    → OnSome (Frame gs) (dispatch_tcp game cmd d o gs)
unfolding dispatch_tcp handle_create handle_occupancy_request send_tcp next_game emplace_game
dispatch_tcp-Frame game cmd d o gs = ground arith

parse_tcp_buffer-Frame :
    (fuel : ℕ) (game : Game) (d : Bytes) (o : ℕ) (gs : GameServer)
    → OnSome (Frame gs) (parse_tcp_buffer fuel game d o gs)
unfolding parse_tcp_buffer
parse_tcp_buffer-Frame zero game d o gs = ground arith
parse_tcp_buffer-Frame (suc fuel) game d o gs =
    at_offset (parse_tcp_buffer-Frame fuel game d) (ltb o (length d))
  where
    Buffer : Type 0
    Buffer = Option (GameServer × ℕ)

    Rest : Type 0
    Rest = (o : ℕ) (g : GameServer) → OnSome (Frame g) (parse_tcp_buffer fuel game d o g)

    dispatched :
        (ih : Rest) (o' : ℕ) (r : Buffer)
        → OnSome (Frame gs) r
        → OnSome (Frame gs) (elim r as (λ _. Buffer) [
          | none ↦ some (gs, o')
          | some (gs', o'') ↦ parse_tcp_buffer fuel game d o'' gs'
        ])
    dispatched ih o' none f = refl
    dispatched ih o' (some (g, o'')) f =
        OnSome-Frame gs g (parse_tcp_buffer fuel game d o'' g) f (ih o'' g)

    parsed :
        (ih : Rest) (r : Read ℕ)
        → OnSome (Frame gs) (elim r as (λ _. Buffer) [
          | oob ↦ none
          | err e o' ↦ some (gs, o')
          | ok cmd o' ↦ elim (dispatch_tcp game cmd d o' gs) as (λ _. Buffer) [
            | none ↦ some (gs, o')
            | some (gs', o'') ↦ parse_tcp_buffer fuel game d o'' gs'
          ]
        ])
    parsed ih oob = tt
    parsed ih (err e o') = refl
    parsed ih (ok cmd o') =
        dispatched ih o' (dispatch_tcp game cmd d o' gs) (dispatch_tcp-Frame game cmd d o' gs)

    at_offset :
        (ih : Rest) (b : Bool)
        → OnSome (Frame gs) (elim b as (λ _. Buffer) [
          | false ↦ some (gs, o)
          | true ↦ elim (parse_header d o) as (λ _. Buffer) [
            | oob ↦ none
            | err e o' ↦ some (gs, o')
            | ok cmd o' ↦ elim (dispatch_tcp game cmd d o' gs) as (λ _. Buffer) [
              | none ↦ some (gs, o')
              | some (gs', o'') ↦ parse_tcp_buffer fuel game d o'' gs'
            ]
          ]
        ])
    at_offset ih false = refl
    at_offset ih true = parsed ih (parse_header d o)

abbrev pub OnParsed : (GameServer → Type 0) → Option GameServer → Type 0
OnParsed P none = Unit {0}
OnParsed P (some gs) = P gs

pub parse_tcp_packets-Frame :
    (game : Game) (gs : GameServer) → OnParsed (Frame gs) (parse_tcp_packets game gs)
unfolding parse_tcp_packets erase_tcp
parse_tcp_packets-Frame game gs = at_buffer (lookup gs.tcp_handle gs.tcp_recv_spans)
  where
    parsed :
        (d : Bytes) (r : Option (GameServer × ℕ))
        → OnSome (Frame gs) r
        → OnParsed
            (Frame gs)
            (elim r as (λ _. Option GameServer) [ none ↦ none | some end ↦ some (erase_tcp d end) ])
    parsed d none f = tt
    parsed d (some (g, o)) f = f

    at_buffer :
        (r : Option Bytes)
        → OnParsed (Frame gs) (elim r as (λ _. Option GameServer) [
          | none ↦ some gs
          | some d ↦ elim (parse_tcp_buffer (length d) game d 0 gs) as (λ _. Option GameServer) [
            | none ↦ none
            | some end ↦ some (erase_tcp d end)
          ]
        ])
    at_buffer none = refl
    at_buffer (some d) =
        parsed d (parse_tcp_buffer (length d) game d 0 gs)
          (parse_tcp_buffer-Frame (length d) game d 0 gs)
