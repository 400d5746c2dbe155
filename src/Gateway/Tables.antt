-- ===== src/Gateway/Tables.antt =====
-- The table of the games after a server told which it hosts.
use r_type_server.Prelude.{
  ℕ, ◌≡◌, refl, Bool, false, List, [], ◌∷◌, some, arith, if◌then◌else◌, ◌==◌, ◌||◌,
}
use r_type_server.Prelude.Dict.{Dict, endpoint_eq, nat_eq, lookup, insert, lookup-insert}
use r_type_server.Gateway.State.{Address}
use r_type_server.Gateway.Commands.{register_games}

abbrev pub member : ℕ → List ℕ → Bool
member x [] = false
member x (y ∷ ys) = y == x || member x ys

-- The ids that the server told lead to it, and all others where they led before.
pub lookup-register_games :
    (key : Address) (ids : List ℕ) (games : Dict ℕ Address) (id : ℕ)
    → lookup id (register_games key ids games)
      ≡ (if member id ids then some key else lookup id games)
unfolding register_games
lookup-register_games key [] games id = refl
lookup-register_games key (x ∷ ids) games id =
    ground
      (arith, lookup-register_games key ids (insert x key games) id, lookup-insert x id key games)
