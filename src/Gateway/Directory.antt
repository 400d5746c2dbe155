-- ===== src/Gateway/Directory.antt =====
-- What the gateway promises about its game servers: a directory of functions, with no lists and no order,
-- and the changes that the peer at a connection may make to it.
use r_type_server.Prelude.{ℕ, ◌≡◌, Bool, false, Option, none, some, ◌==◌, if◌then◌else◌}
use r_type_server.Prelude.Dict.{nat_eq, endpoint_eq, endpoint_beq, lookup}
use r_type_server.Gateway.State.{Gateway, Address}

-- The connection of each server, its load, and the server of each game.
pub record Directory : Type 0 where
  pub connection : Address → Option ℕ
  pub load : Address → Option ℕ
  pub host : ℕ → Option Address

abbrev pub Same : {A B : Type 0} → (A → B) → (A → B) → Type 0
Same {A} f g = (a : A) → g a ≡ f a

-- The function after an entry is set or removed, where the test says so.
abbrev pub Updated : {A B : Type 0} → (A → Bool) → B → (A → B) → (A → B) → Type 0
Updated {A} at b f g = (a : A) → g a ≡ (if at a then b else f a)

abbrev pub connected_by : ℕ → Option ℕ → Bool
connected_by h none = false
connected_by h (some h') = h' == h

-- A change that the peer at the connection h may make of the directory s.
pub data Change (h : ℕ) (s t : Directory) : Type 0 where
  nothing : Same s.connection t.connection → Same s.load t.load → Same s.host t.host → Change h s t
  -- A server that has no connection gets this one.
  registered :
      (k : Address)
      → s.connection k ≡ none
      → Updated (endpoint_beq k) (some h) s.connection t.connection
      → Same s.load t.load
      → Same s.host t.host
      → Change h s t
  -- The connected server tells its load.
  told_load :
      (k : Address) (n : ℕ)
      → s.connection k ≡ some h
      → Same s.connection t.connection
      → Updated (endpoint_beq k) (some n) s.load t.load
      → Same s.host t.host
      → Change h s t
  -- The connected server tells that it hosts the games that the test says.
  told_games :
      (k : Address) (games : ℕ → Bool)
      → s.connection k ≡ some h
      → Same s.connection t.connection
      → Same s.load t.load
      → Updated games (some k) s.host t.host
      → Change h s t
  -- The connected server ends a game that it hosts.
  ended_game :
      (k : Address) (id : ℕ)
      → s.connection k ≡ some h
      → s.host id ≡ some k
      → Same s.connection t.connection
      → Same s.load t.load
      → Updated (λ game. id == game) none s.host t.host
      → Change h s t
  -- The connection is closed.
  left :
      ((k : Address)
        → t.connection k ≡ (if connected_by h (s.connection k) then none else s.connection k))
      → Same s.load t.load
      → Same s.host t.host
      → Change h s t

-- Changes one after the other, each by a connection that may act.
pub data Run (May : ℕ → Type 0) (s : Directory) : Directory → Type 0 where
  start : Run May s s
  step : {t u : Directory} → Run May s t → (h : ℕ) → May h → Change h t u → Run May s u

-- The directory that the gateway's tables stand for.
abbrev pub view : Gateway → Directory
view gw = record {
  connection = λ k. lookup k gw.gs_addr_to_handle;
  load = λ k. lookup k gw.occupancy_cache;
  host = λ id. lookup id gw.game_to_gs;
}
