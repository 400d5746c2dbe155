-- ===== src/Systems/Inputs.antt =====
-- What the inputs of a tick do to an entity.
use r_type_server.Prelude.{ℕ, ◌≡◌, refl, ap, ◌∙◌, List, [], ◌∷◌, map, arith, ◌==◌, if◌then◌else◌}
use r_type_server.Systems.{
  Floats, Entity, InputEvent, steer, apply_input, handle_player_input_system,
}

module _ {F : Type 0} (fl : Floats F) where
  -- The inputs of one client, in their order, on a velocity.
  pub steer_by : ℕ → List InputEvent → F × F → F × F
  steer_by client [] v = v
  steer_by client (event ∷ events) v =
      steer_by client events (if client == event.client_id then steer fl event.action v else v)

  abbrev pub steered : List InputEvent → Entity F → Entity F
  unfolding steer_by
  steered events e = record e { velocity = steer_by e.client_id events e.velocity }

  steered-apply_input :
      (event : InputEvent) (events : List InputEvent) (es : List (Entity F))
      → map (steered events) (apply_input fl event es) ≡ map (steered (event ∷ events)) es
  unfolding apply_input steer_by
  steered-apply_input event events [] = refl
  steered-apply_input event events (e ∷ es) = ground (arith, steered-apply_input event events es)

  map-steered_none : (es : List (Entity F)) → es ≡ map (steered []) es
  unfolding steer_by
  map-steered_none [] = refl
  map-steered_none (e ∷ es) = ap (λ l. e ∷ l) (map-steered_none es)

  -- The loop over all events and all entities steers each entity by the inputs of its own client, in the
  -- order in which they came, and changes nothing else.
  pub handle_player_input_system-steered :
      (events : List InputEvent) (es : List (Entity F))
      → handle_player_input_system fl events es ≡ map (steered events) es
  unfolding handle_player_input_system
  handle_player_input_system-steered [] es = map-steered_none es
  handle_player_input_system-steered (event ∷ events) es =
      handle_player_input_system-steered events (apply_input fl event es)
      ∙ steered-apply_input event events es
