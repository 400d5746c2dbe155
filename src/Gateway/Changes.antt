-- ===== src/Gateway/Changes.antt =====
-- What the parts of the handlers do to the directory of the servers.
use r_type_server.Prelude.{
  ℕ, ◌≡◌, refl, sym, ap, ◌∙◌, Bool, true, false, List, [], ◌∷◌, Option, none, some, arith, drop,
  ◌==◌, if◌then◌else◌,
}
use r_type_server.Prelude.Dict.{
  Dict, nat_eq, endpoint_eq, endpoint_beq, endpoint_beq_iff, contains, lookup, insert, erase,
  lookup-insert, lookup-erase, is_empty, Unique,
}
use r_type_server.Wire.{Bytes, Reader, ◌>>=◌, pure, throw, unregistered, not_owner}
use r_type_server.Gateway.State.{Gateway, Address}
use r_type_server.Gateway.Helpers.{
  send_to, find_least_occupied_gs, get_gs_handle, key_by_handle, find_gs_key_by_handle,
}
use r_type_server.Gateway.Packets.{game_id_of, build_join_msg_for_gs}
use r_type_server.Gateway.Commands.{
  note_game, require_gs, create_branches, forward_create, route_join, register_gs, register_games,
  end_game, finish_create,
}
use r_type_server.Gateway.Ensures.{Ensures, if-holds, Option-holds, pure-Ensures, throw-Ensures}
use r_type_server.Gateway.Frame.{Agree}
use r_type_server.Gateway.Tables.{member, lookup-register_games}
use r_type_server.Gateway.Directory.{
  Change, nothing, registered, told_load, told_games, ended_game, view,
}

abbrev pub Changed : ℕ → Gateway → Gateway → Type 0
Changed h gw gw' = Change h (view gw) (view gw')

pub nothing-Changed :
    (h : ℕ) (gw gw' : Gateway)
    → gw'.gs_addr_to_handle ≡ gw.gs_addr_to_handle
    → gw'.occupancy_cache ≡ gw.occupancy_cache
    → gw'.game_to_gs ≡ gw.game_to_gs
    → Changed h gw gw'
nothing-Changed h gw gw' ec el eg =
    nothing (λ k. ap (lookup k) ec) (λ k. ap (lookup k) el) (λ id. ap (lookup id) eg)

-- The server that is found for a connection has that connection.
lookup-key_by_handle :
    (h : ℕ) (m : Dict Address ℕ) (key : Address)
    → Unique m
    → key_by_handle h m ≡ some key
    → lookup key m ≡ some h
unfolding key_by_handle lookup contains
lookup-key_by_handle h [] key u e = cc
lookup-key_by_handle h ((k, h') ∷ m) key u e =
    ground (arith, lookup-key_by_handle h m key u.1, endpoint_beq_iff k key)

module _ (h : ℕ) (gw : Gateway) (a : Agree gw) where
  connected :
      (key : Address) → find_gs_key_by_handle h gw ≡ some key → (view gw).connection key ≡ some h
  unfolding find_gs_key_by_handle
  connected key e = lookup-key_by_handle h gw.gs_addr_to_handle key a.0 e

  pub register_gs-Changed : (key : Address) → Changed h gw (register_gs h key gw)
  unfolding register_gs send_to
  register_gs-Changed key = branch (contains key gw.gs_registry) refl
    where
      unconnected :
          (found : Option ℕ)
          → elim found as (λ _. Bool) [ none ↦ false | some v ↦ true ] ≡ false
          → found ≡ none
      unconnected none e = refl
      unconnected (some v) e = cc

      branch :
          (b : Bool)
          → contains key gw.gs_registry ≡ b
          → Changed h gw (record gw {
            gs_addr_to_handle =
                if b then gw.gs_addr_to_handle else insert key h gw.gs_addr_to_handle;
          })
      branch true e = nothing (λ k. refl) (λ k. refl) (λ id. refl)
      branch false e =
          registered key
            (unconnected (lookup key gw.gs_addr_to_handle) (unfold contains in (sym (a.1 key) ∙ e)))
            (λ k. lookup-insert key k h gw.gs_addr_to_handle) (λ k. refl) (λ id. refl)

  pub finish_create-Changed :
      (client : ℕ) (msg : Bytes) → Changed h gw (finish_create h client msg gw)
  unfolding finish_create
  finish_create-Changed client msg = at_key (find_gs_key_by_handle h gw) refl
    where
      at_key :
          (found : Option Address)
          → find_gs_key_by_handle h gw ≡ found
          → Changed h gw (note_game (game_id_of (drop 5 msg)) found gw)
      at_key none e = nothing (λ k. refl) (λ k. refl) (λ id. refl)
      at_key (some key) e =
          told_games key (λ id. game_id_of (drop 5 msg) == id) (connected key e) (λ k. refl)
            (λ k. refl) (λ id. lookup-insert (game_id_of (drop 5 msg)) id key gw.game_to_gs)

  pub occupancy-Changed :
      (key : Address) (n : ℕ)
      → find_gs_key_by_handle h gw ≡ some key
      → Changed h gw (record gw { occupancy_cache = insert key n gw.occupancy_cache })
  occupancy-Changed key n e =
      told_load key n (connected key e) (λ k. refl) (λ k. lookup-insert key k n gw.occupancy_cache)
        (λ id. refl)

  pub register_games-Changed :
      (key : Address) (ids : List ℕ)
      → find_gs_key_by_handle h gw ≡ some key
      → Changed h gw (record gw { game_to_gs = register_games key ids gw.game_to_gs })
  register_games-Changed key ids e =
      told_games key (λ id. member id ids) (connected key e) (λ k. refl) (λ k. refl)
        (λ id. lookup-register_games key ids gw.game_to_gs id)

  pub end_game-Ensures :
      (key : Address) (id : ℕ)
      → find_gs_key_by_handle h gw ≡ some key
      → Ensures (Changed h gw) (end_game key id gw)
  unfolding end_game
  end_game-Ensures key id e = at_host (lookup id gw.game_to_gs) refl
    where
      at_owner :
          (b : Bool) (owner : Address)
          → endpoint_beq owner key ≡ b
          → lookup id gw.game_to_gs ≡ some owner
          → Ensures (Changed h gw) (
              if b
              then pure (record gw { game_to_gs = erase id gw.game_to_gs })
              else throw not_owner)
      at_owner true owner eb eo = pure-Ensures (Changed h gw) _ (
          ended_game key id (connected key e) (eo ∙ ap some ((endpoint_beq_iff owner key).0 eb))
            (λ k. refl) (λ k. refl) (λ game. lookup-erase id game gw.game_to_gs))
      at_owner false owner eb eo = throw-Ensures (Changed h gw) not_owner

      at_host :
          (found : Option Address)
          → lookup id gw.game_to_gs ≡ found
          → Ensures (Changed h gw) (elim found as (λ _. Reader Gateway) [
            | none ↦ pure gw
            | some owner ↦
                if endpoint_beq owner key
                then pure (record gw { game_to_gs = erase id gw.game_to_gs })
                else throw not_owner
          ])
      at_host none eo =
          pure-Ensures (Changed h gw) gw (nothing (λ k. refl) (λ k. refl) (λ id. refl))
      at_host (some owner) eo = at_owner (endpoint_beq owner key) owner refl eo

  -- The key that `findGSKeyByHandle` found, with the proof that it did.
  pub require_gs-Ensures :
      (f : Address → Reader Gateway)
      → ((key : Address) → find_gs_key_by_handle h gw ≡ some key → Ensures (Changed h gw) (f key))
      → Ensures (Changed h gw) (require_gs h gw >>= f)
  unfolding require_gs
  require_gs-Ensures f step = at_key (find_gs_key_by_handle h gw) refl
    where
      at_key :
          (found : Option Address)
          → find_gs_key_by_handle h gw ≡ found
          → Ensures (Changed h gw) (
              elim found as (λ _. Reader Address) [
                | none ↦ throw unregistered
                | some key ↦ pure key
              ]
              >>= f)
      at_key none e = record { at = λ d o. tt }
      at_key (some key) e = record { at = λ d o. (step key e).at d o }

  pub send_to-Changed : (j : ℕ) (msg : Bytes) → Changed h gw (send_to j msg gw)
  unfolding send_to
  send_to-Changed j msg = nothing (λ k. refl) (λ k. refl) (λ id. refl)

  forward_create-Changed : (j g gs : ℕ) → Changed h gw (forward_create j g gs gw)
  unfolding forward_create
  forward_create-Changed j g gs =
      if-holds (Changed h gw) (gs == 0) _ _ (nothing (λ k. refl) (λ k. refl) (λ id. refl))
        (nothing (λ k. refl) (λ k. refl) (λ id. refl))

  pub create_branches-Changed : (j g : ℕ) → Changed h gw (create_branches j g gw)
  unfolding create_branches
  create_branches-Changed j g =
      if-holds (Changed h gw) (is_empty gw.gs_registry) _ _
        (nothing (λ k. refl) (λ k. refl) (λ id. refl))
        (Option-holds (Changed h gw) (find_least_occupied_gs gw) _
          (λ key. forward_create j g (get_gs_handle key gw) gw)
          (nothing (λ k. refl) (λ k. refl) (λ id. refl))
          (λ key. forward_create-Changed j g (get_gs_handle key gw)))

  pub route_join-Changed : (j id : ℕ) → Changed h gw (route_join j id gw)
  unfolding route_join
  route_join-Changed j id =
      Option-holds (Changed h gw) (lookup id gw.game_to_gs) _
        (λ key. send_to j (build_join_msg_for_gs key.0 key.1 id) gw)
        (nothing (λ k. refl) (λ k. refl) (λ id. refl))
        (λ key. nothing (λ k. refl) (λ k. refl) (λ id. refl))
