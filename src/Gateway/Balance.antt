-- ===== src/Gateway/Balance.antt =====
-- `findLeastOccupiedGS` finds a least occupied server, in whatever order it meets them.
use r_type_server.Prelude.{
  ℕ, ◌-◌, ◌^◌, ◌≤◌, ◌<◌, ◌≡◌, ◌≢◌, refl, true, false, [], ◌∷◌, Option, none, some, arith, ◌⊎◌, inl,
  inr, ltb, Bool-cases, ◌↔◌,
}
use r_type_server.Prelude.Dict.{
  Dict, nat_eq, endpoint_eq, endpoint_beq_iff, contains, lookup, get, Values,
}
use r_type_server.Gateway.State.{Gateway, Address}
use r_type_server.Gateway.Helpers.{least_loop, find_least_occupied_gs}

-- The load of a server that has not told its own counts as 0.
unfoldable pub load_of : Address → Gateway → ℕ
unfolding get
load_of key gw = get key 0 gw.occupancy_cache

module _ (cache : Dict Address ℕ) where
  abbrev occ : Address → ℕ
  occ key = get key 0 cache

  -- What the loop may return, having the servers `rest` to see.
  abbrev IsLeast : Dict Address ℕ → ℕ → Option Address → Address → Type 0
  IsLeast rest m best key =
      (occ key ≤ m)
      × ((j : Address) → contains j rest ≡ true → occ key ≤ occ j)
      × ((best ≡ some key) ⊎ (contains key rest ≡ true))

  least_loop-IsLeast :
      (rest : Dict Address ℕ) (m : ℕ) (best : Option Address)
      → ((b : Address) → best ≡ some b → occ b ≤ m)
      → (key : Address) → least_loop cache rest m best ≡ some key
      → IsLeast rest m best key
  unfolding least_loop contains
  least_loop-IsLeast [] m best low key e = (low key e, λ j h. cc, inl e)
  least_loop-IsLeast ((k, v) ∷ rest) m best low key e = elim (Bool-cases (ltb (occ k) m)) [
    | inl less ↦
        passed less
          (least_loop-IsLeast rest (occ k) (some k) (λ b p. ground arith) key (ground arith))
    | inr more ↦ kept more (least_loop-IsLeast rest m best low key (ground arith))
  ]
    where
      passed :
          ltb (occ k) m ≡ true
          → IsLeast rest (occ k) (some k) key
          → IsLeast ((k, v) ∷ rest) m best key
      passed less ih = (
        ground (arith, ih.0),
        λ j hj. ground (arith, ih.0, ih.1 j, endpoint_beq_iff k j),
        inr (ground (arith, ih.2, endpoint_beq_iff k key)),
      )

      kept : ltb (occ k) m ≡ false → IsLeast rest m best key → IsLeast ((k, v) ∷ rest) m best key
      kept more ih = (
        ih.0,
        λ j hj. ground (arith, ih.0, ih.1 j, endpoint_beq_iff k j),
        ground (arith, ih.2, endpoint_beq_iff k key),
      )

  least_loop-some :
      (rest : Dict Address ℕ) (m : ℕ) (b : Address) → least_loop cache rest m (some b) ≢ none
  unfolding least_loop
  least_loop-some [] m b e = cc
  least_loop-some ((k, v) ∷ rest) m b e =
      ground (arith, least_loop-some rest (occ k) k, least_loop-some rest m b)

get-byte :
    (key : Address) (cache : Dict Address ℕ) → Values (λ o. o < 256) cache → get key 0 cache < 256
unfolding get lookup
get-byte key [] h = omega arith
get-byte key ((k, o) ∷ cache) h = ground (arith, get-byte key cache h.1)

none-empty :
    (cache registry : Dict Address ℕ)
    → Values (λ o. o < 256) cache
    → least_loop cache registry (2 ^ 64 - 1) none ≡ none
    → registry ≡ []
unfolding least_loop
none-empty cache [] bytes e = refl
none-empty cache ((k, v) ∷ rest) bytes e =
    absurd (ground (arith, get-byte k cache bytes, least_loop-some cache rest (get k 0 cache) k, e))

-- A CREATE has a server to go to exactly when one is registered: the loads are bytes, below `SIZE_MAX`.
pub find_least_occupied_gs-none :
    (gw : Gateway)
    → Values (λ o. o < 256) gw.occupancy_cache
    → (find_least_occupied_gs gw ≡ none) ↔ (gw.gs_registry ≡ [])
unfolding find_least_occupied_gs
find_least_occupied_gs-none gw bytes =
    (none-empty gw.occupancy_cache gw.gs_registry bytes, λ e. rw (e, least_loop) refl)

-- The server found is registered, and no registered server has a lower load.
pub find_least_occupied_gs-least :
    (gw : Gateway) (key j : Address)
    → find_least_occupied_gs gw ≡ some key
    → contains j gw.gs_registry ≡ true
    → (contains key gw.gs_registry ≡ true) × (load_of key gw ≤ load_of j gw)
unfolding find_least_occupied_gs load_of
find_least_occupied_gs-least gw key j e there =
    let least =
      least_loop-IsLeast gw.occupancy_cache gw.gs_registry (2 ^ 64 - 1) none (λ b p. cc) key e in
    (ground (arith, least.2), least.1 j there)
