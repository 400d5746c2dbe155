-- ===== src/GameServer/Untried.antt =====
-- Without handles no attempt is counted: what the handlers leave alone.
use mathlib.Core.Path.{subst}
use r_type_server.Prelude.{ap, ℕ, ◌≡◌, sym, ◌∙◌, [], ◌∷◌, arith}
use r_type_server.Prelude.Dict.{Dict, nat_eq, endpoint_eq, lookup, get, Values, Values-insert}
use r_type_server.Wire.{Bytes}
use r_type_server.Gateway.State.{Address}
use r_type_server.GameServer.State.{GameServer, AuthChallenge, ClientState}
use r_type_server.GameServer.Udp.{Numbers}
use r_type_server.GameServer.Sessions.{
  Clock, Handled, client_handle, associate, send_datagram, send_snapshot, reset_numbers,
  set_session, set_challenge, assign_game, push_packet, next_number,
}
use r_type_server.GameServer.Handlers.{
  send_input, note_received, handle_udp_input, handle_udp_ping, handle_udp_pong, handle_udp_resync,
}
use r_type_server.GameServer.Kept.{Ends, Ends-map}

-- No handle for a client, no challenge by handle, and no attempt in a challenge by endpoint.
abbrev pub Untried : GameServer → Type 0
Untried gs =
    (gs.client_ids ≡ [])
    × (gs.auth_states ≡ [])
    × Values (λ (entry : AuthChallenge). entry.attempts ≡ 0) gs.ep_auth_states

pub no_handle :
    (client_id : ℕ) (gs : GameServer) → gs.client_ids ≡ [] → client_handle client_id gs ≡ 0
unfolding client_handle get lookup
no_handle client_id gs e = rw e

abbrev pub Keys : Type 0
Keys = Dict ℕ ℕ × Dict ℕ AuthChallenge × Dict Address AuthChallenge

abbrev pub keys : GameServer → Keys
keys gs = (gs.client_ids, gs.auth_states, gs.ep_auth_states)

pub Untried-keys : (gs gs' : GameServer) → keys gs' ≡ keys gs → Untried gs → Untried gs'
Untried-keys gs gs' e u = (
  ap (λ k. k.0) e ∙ u.0,
  ap (λ k. k.1) e ∙ u.1,
  subst (Values (λ (entry : AuthChallenge). entry.attempts ≡ 0)) (sym (ap (λ k. k.2) e)) u.2,
)

-- A handler that keeps them.
pub Untried-Ends :
    (gs : GameServer) (r : Handled)
    → Ends (λ gs'. keys gs' ≡ keys gs) r
    → Untried gs
    → Ends Untried r
Untried-Ends gs r e u = Ends-map r (λ g k. Untried-keys gs g k u) e

module _ (endpoint : Address) (h : ℕ) (gs : GameServer) where
  pub send_datagram-keys :
      (build : Numbers → Bytes) → keys (send_datagram endpoint h build gs) ≡ keys gs
  unfolding send_datagram push_packet next_number
  send_datagram-keys build = ground arith

  send_snapshot-keys :
      (client_id sequence : ℕ) (state : Bytes)
      → Ends (λ gs'. keys gs' ≡ keys gs) (send_snapshot endpoint h client_id sequence state gs)
  unfolding send_snapshot send_datagram push_packet next_number
  send_snapshot-keys client_id sequence state = ground arith

  pub reset_numbers-keys : keys (reset_numbers endpoint h gs) ≡ keys gs
  unfolding reset_numbers
  reset_numbers-keys = ground arith

  pub set_session-keys : (state : ClientState) → keys (set_session endpoint h state gs) ≡ keys gs
  unfolding set_session
  set_session-keys state = ground arith

  pub set_challenge-Untried :
      (entry : AuthChallenge)
      → h ≡ 0
      → entry.attempts ≡ 0
      → Untried gs
      → Untried (set_challenge endpoint h entry gs)
  unfolding set_challenge
  set_challenge-Untried entry no_h none_yet u =
      rw no_h (u.0, u.1, Values-insert _ endpoint entry gs.ep_auth_states none_yet u.2)

pub associate-keys :
    (endpoint : Address) (client_id : ℕ) (gs : GameServer)
    → keys (associate endpoint client_id gs) ≡ keys gs
unfolding associate
associate-keys endpoint client_id gs = ground arith

pub assign_game-keys : (client_id : ℕ) (gs : GameServer) → keys (assign_game client_id gs) ≡ keys gs
unfolding assign_game
assign_game-keys client_id gs = ground arith

module _ (endpoint : Address) (client_id : ℕ) (gs : GameServer) where
  abbrev known : GameServer
  known = associate endpoint client_id gs

  pub handle_udp_ping-keys :
      (clock : Clock) → Ends (λ g. keys g ≡ keys gs) (handle_udp_ping clock endpoint client_id gs)
  unfolding handle_udp_ping associate send_datagram push_packet next_number
  handle_udp_ping-keys clock = ground arith

  pub handle_udp_pong-keys :
      (clock : Clock) → Ends (λ g. keys g ≡ keys gs) (handle_udp_pong clock endpoint client_id gs)
  unfolding handle_udp_pong associate
  handle_udp_pong-keys clock = ground arith

  pub handle_udp_resync-keys :
      Ends (λ g. keys g ≡ keys gs) (handle_udp_resync endpoint client_id gs)
  unfolding handle_udp_resync
  handle_udp_resync-keys =
      Ends-map {P = λ g. keys g ≡ keys known} {Q = λ g. keys g ≡ keys gs}
        (send_snapshot endpoint (client_handle client_id gs) client_id 1 (1 ∷ 2 ∷ 3 ∷ 4 ∷ []) known)
        (λ g e. e ∙ associate-keys endpoint client_id gs)
        (send_snapshot-keys endpoint (client_handle client_id gs) known client_id 1
          (1 ∷ 2 ∷ 3 ∷ 4 ∷ []))

  pub handle_udp_input-keys :
      (d : Bytes) (o : ℕ)
      → Ends (λ g. keys g ≡ keys gs) (handle_udp_input endpoint d o client_id gs)
  unfolding handle_udp_input associate send_input note_received
  handle_udp_input-keys d o = ground arith
