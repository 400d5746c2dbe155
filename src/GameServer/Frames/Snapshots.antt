-- ===== src/GameServer/Frames/Snapshots.antt =====
-- The snapshots of the games leave the sessions alone.
use r_type_server.Prelude.{ℕ, refl, ◌∙◌, List, [], ◌∷◌, Option, none, some, arith}
use r_type_server.Prelude.Dict.{Dict, nat_eq, endpoint_eq}
use r_type_server.Wire.{Bytes}
use r_type_server.Gateway.State.{Address}
use r_type_server.GameServer.State.{GameServer, Game}
use r_type_server.GameServer.Sessions.{
  Handled, served, thrown, undefined, send_datagram, send_snapshot, push_packet, next_number,
}
use r_type_server.GameServer.Loop.{
  snapshot_clients, snapshot_games, snapshot_of, endpoint_of, clients_in_game, send_game_snapshots,
  game_loop_tick,
}
use r_type_server.GameServer.Kept.{Ends, Ends-map}
use r_type_server.GameServer.Frames.{Frame}

next_number-Frame :
    (endpoint : Address) (h : ℕ) (gs : GameServer) → Frame gs (next_number endpoint h gs)
unfolding next_number
next_number-Frame endpoint h gs = ground arith

send_snapshot-Frame :
    (endpoint : Address) (h client_id sequence : ℕ) (state : Bytes) (gs : GameServer)
    → Ends (Frame gs) (send_snapshot endpoint h client_id sequence state gs)
unfolding send_snapshot send_datagram push_packet
send_snapshot-Frame endpoint h client_id sequence state gs =
    ground (arith, next_number-Frame endpoint h gs)

-- One handler, and another from where it ends.
pub then-Ends :
    (gs : GameServer) (r : Handled) (k : GameServer → Handled)
    → Ends (Frame gs) r
    → ((g : GameServer) → Ends (Frame g) (k g))
    → Ends
        (Frame gs)
        (elim r as (λ _. Handled) [ served g ↦ k g | thrown g ↦ thrown g | undefined ↦ undefined ])
then-Ends gs (served g) k e f = Ends-map (k g) (λ g' e'. e' ∙ e) (f g)
then-Ends gs (thrown g) k e f = e
then-Ends gs undefined k e f = tt

option-Ends :
    {A : Type 0} (gs : GameServer) (r : Option A) (n : Handled) (k : A → Handled)
    → Ends (Frame gs) n
    → ((a : A) → Ends (Frame gs) (k a))
    → Ends (Frame gs) (elim r as (λ _. Handled) [ none ↦ n | some a ↦ k a ])
option-Ends gs none n k e f = e
option-Ends gs (some a) n k e f = f a

snapshot_clients-Frame :
    (sequence : ℕ) (state : Bytes) (clients : List ℕ) (gs : GameServer)
    → Ends (Frame gs) (snapshot_clients sequence state clients gs)
unfolding snapshot_clients
snapshot_clients-Frame sequence state [] gs = refl
snapshot_clients-Frame sequence state (client_id ∷ clients) gs =
    option-Ends gs (endpoint_of client_id gs.endpoint_to_client)
      (snapshot_clients sequence state clients gs)
      (λ endpoint. elim (send_snapshot endpoint 0 client_id sequence state gs) [
        | served g ↦ snapshot_clients sequence state clients g
        | thrown g ↦ thrown g
        | undefined ↦ undefined
      ])
      (snapshot_clients-Frame sequence state clients gs)
      (λ endpoint.
        then-Ends gs (send_snapshot endpoint 0 client_id sequence state gs)
          (λ g. snapshot_clients sequence state clients g)
          (send_snapshot-Frame endpoint 0 client_id sequence state gs)
          (λ g. snapshot_clients-Frame sequence state clients g))

snapshot_games-Frame : (m : Dict ℕ Game) (gs : GameServer) → Ends (Frame gs) (snapshot_games m gs)
unfolding snapshot_games
snapshot_games-Frame [] gs = refl
snapshot_games-Frame ((game_id, game) ∷ m) gs =
    option-Ends gs (snapshot_of game) (snapshot_games m gs)
      (λ shot.
        elim (snapshot_clients shot.0 shot.1 (clients_in_game game_id gs.client_to_game) gs) [
          | served g ↦ snapshot_games m g
          | thrown g ↦ thrown g
          | undefined ↦ undefined
        ])
      (snapshot_games-Frame m gs)
      (λ shot.
        then-Ends gs (snapshot_clients shot.0 shot.1 (clients_in_game game_id gs.client_to_game) gs)
          (λ g. snapshot_games m g)
          (snapshot_clients-Frame shot.0 shot.1 (clients_in_game game_id gs.client_to_game) gs)
          (λ g. snapshot_games-Frame m g))

-- The tick, and the snapshots after it.
pub send_game_snapshots-Frame :
    (tick : Game → Game) (gs : GameServer)
    → Ends (Frame gs) (send_game_snapshots (game_loop_tick tick gs))
unfolding send_game_snapshots game_loop_tick
send_game_snapshots-Frame tick gs =
    snapshot_games-Frame (game_loop_tick tick gs).game_instances (game_loop_tick tick gs)
