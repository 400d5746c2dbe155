-- ===== src/Systems/Slots.antt =====
-- Which slots the clients of a game get.
use r_type_server.Prelude.{
  ℕ, ◌≡◌, ◌≢◌, refl, sym, ap, ◌∙◌, List, [], ◌∷◌, map, arith, ◌==◌, All, if◌then◌else◌, Bool-cases,
  inl, inr,
}
use r_type_server.Systems.{Entity, assign_slot, assign_player_slot_system}

-- The slots of a game by their clients, 0 for a free one; the clients take the free slots in their order,
-- each one slot, until either runs out.
pub fill : List ℕ → List ℕ → List ℕ
fill clients [] = []
fill [] (slot ∷ slots) = slot ∷ slots
fill (client ∷ clients) (slot ∷ slots) =
    if slot == 0 then client ∷ fill clients slots else slot ∷ fill (client ∷ clients) slots

fill-nobody : (slots : List ℕ) → fill [] slots ≡ slots
unfolding fill
fill-nobody [] = refl
fill-nobody (slot ∷ slots) = refl

fill-taken :
    (clients slots : List ℕ) (slot : ℕ)
    → slot ≢ 0
    → fill clients (slot ∷ slots) ≡ slot ∷ fill clients slots
unfolding fill
fill-taken [] slots slot ne = ap (λ l. slot ∷ l) (sym (fill-nobody slots))
fill-taken (client ∷ clients) slots slot ne = ground arith

module _ {F : Type 0} where
  abbrev pub slots_of : List (Entity F) → List ℕ
  slots_of es = map (λ e. e.client_id) es

  -- All of an entity but its client.
  abbrev pub body_of : Entity F → ℕ × (F × F) × (F × F)
  body_of e = (e.id, e.position, e.velocity)

  fill-assign_slot :
      (client : ℕ) (clients : List ℕ) (es : List (Entity F))
      → client ≢ 0
      → fill clients (slots_of (assign_slot client es)) ≡ fill (client ∷ clients) (slots_of es)
  unfolding assign_slot fill
  fill-assign_slot client clients [] ne = refl
  fill-assign_slot client clients (e ∷ es) ne = elim (Bool-cases (e.client_id == 0)) [
    | inl free ↦ rw free (fill-taken clients (slots_of es) client ne)
    | inr taken ↦ rw taken (
        fill-taken clients (slots_of (assign_slot client es)) e.client_id (ground arith)
        ∙ ap (λ l. e.client_id ∷ l) (fill-assign_slot client clients es ne))
  ]

  bodies-assign_slot :
      (client : ℕ) (es : List (Entity F)) → map body_of (assign_slot client es) ≡ map body_of es
  unfolding assign_slot
  bodies-assign_slot client [] = refl
  bodies-assign_slot client (e ∷ es) = elim (Bool-cases (e.client_id == 0)) [
    | inl free ↦ rw free
    | inr taken ↦ rw taken (ap (λ l. body_of e ∷ l) (bodies-assign_slot client es))
  ]

  -- The requests for a slot of clients with an id other than 0, one after the other, fill the free slots as
  -- `fill` does in one pass, and nothing else of an entity changes.
  pub assign_player_slot_system-fill :
      (clients : List ℕ) (es : List (Entity F))
      → All (λ client. client ≢ 0) clients
      → (slots_of (assign_player_slot_system clients es) ≡ fill clients (slots_of es))
        × (map body_of (assign_player_slot_system clients es) ≡ map body_of es)
  unfolding assign_player_slot_system
  assign_player_slot_system-fill [] es ne = (sym (fill-nobody (slots_of es)), refl)
  assign_player_slot_system-fill (client ∷ clients) es ne =
      let ih = assign_player_slot_system-fill clients (assign_slot client es) ne.1 in
      (ih.0 ∙ fill-assign_slot client clients es ne.0, ih.1 ∙ bodies-assign_slot client es)
